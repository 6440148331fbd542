-- ===== src/Schema/Version/Tests.antt =====
-- The theorems about versions at sample versions.
use verglos_cli.Prelude.{◌≡◌, refl, some}
use verglos_cli.Text.{codes}
use verglos_cli.Schema.Version.{SchemaVersion, parse_schema_version}
use verglos_cli.Schema.Version.Laws.{parse_schema_version-inj}

abbrev older : SchemaVersion
older = record { major = 1; minor = 2; patch = 30 }

abbrev newer : SchemaVersion
newer = record { major = 1; minor = 10; patch = 0 }

parse_older : parse_schema_version (codes "1.2.30") ≡ some older
unfolding parse_schema_version
parse_older = refl

parse_newer : parse_schema_version (codes "1.10.0") ≡ some newer
unfolding parse_schema_version
parse_newer = refl

parse_schema_version-inj_example : codes "1.2.30" ≡ codes "1.2.30"
parse_schema_version-inj_example =
    parse_schema_version-inj (codes "1.2.30") (codes "1.2.30") older parse_older parse_older
