-- ===== src/Samples.antt =====
-- Values that the tests of several modules use.
use verglos_cli.Prelude.{◌++◌}
use verglos_cli.Text.{Text, codes}
use verglos_cli.Text.Sets.{repeats}
use verglos_cli.Formats.{
  ContentDigest, sha256, stable_id, uuid_urn, short_text, long_text, content_digest, subject_id,
}
use verglos_cli.Schema.Version.{parse_schema_version, classify_schema_compatibility}
use verglos_cli.Contracts.{assert_compatible, is_version}

abbrev pub hex64 : Text
hex64 = codes "0123456789abcdef0123456789abcdef0123456789abcdef0123456789abcdef"

abbrev pub some_digest : ContentDigest
some_digest = record { algorithm = sha256; value = hex64 }

abbrev pub some_subject : Text
some_subject = codes "urn:verglos:subject:artifact:sha256:" ++ hex64

abbrev pub some_uuid : Text
some_uuid = codes "urn:uuid:01234567-89ab-4def-8123-456789abcdef"

-- To unfold the tests of formats and versions.
unfoldable pub formats : Unit {0}
unfolding stable_id uuid_urn short_text long_text content_digest subject_id is_version
    assert_compatible classify_schema_compatibility parse_schema_version repeats
formats = tt
