-- ===== src/Schema/Document/Tests.antt =====
-- Runs of the versioned documents, and their theorem at one. `JSON.parse` is a reader of two texts.
use verglos_cli.Prelude.{ℕ, ◌≤◌, ◌≡◌, refl, false, Option, none, some, List, [], ◌∷◌, if◌then◌else◌}
use verglos_cli.Text.{Text, codes, text_eq}
use verglos_cli.Contracts.{ok, invalid}
use verglos_cli.Schema.Version.{
  SchemaVersion, backward_compatible, parse_schema_version, classify_schema_compatibility,
  is_schema_id,
}
use verglos_cli.Schema.Json.{Json, json_null, json_string, json_object, no_members, member}
use verglos_cli.Schema.Json.Limits.{open_value, visit, enforce, enforce_structure_limits}
use verglos_cli.Schema.Document.{
  root_not_object, document_too_large, LimitOverrides, overridden, resolve_limits, source_text,
  VersionedOptions, ParsedVersionedJson, check_envelope, parse_bounded_json, parse_versioned_json,
}
use verglos_cli.Schema.Document.Laws.{IsEnvelope, IsBounded, parse_versioned_json_sound}

abbrev no_overrides : LimitOverrides
no_overrides = record {
  max_bytes = none;
  max_depth = none;
  max_nodes = none;
  max_object_properties = none;
  max_array_items = none;
}

abbrev report : Json
report = json_object (
    member (codes "schemaId") (json_string (codes "urn:verglos:schema:scan-report"))
      (member (codes "schemaVersion") (json_string (codes "2.0.1")) no_members))

abbrev read_two : Text → Option Json
read_two t =
    if text_eq t (codes "report")
    then some report
    else if text_eq t (codes "null")
    then some json_null
    else none

abbrev decode_none : List ℕ → Option Text
decode_none bs = none

abbrev reader : VersionedOptions
reader = record {
  limits = no_overrides;
  expected_schema = record { id = codes "urn:verglos:schema:scan-report"; version = codes "2.1.0" };
  legacy_schema_id = none;
}

abbrev read_report : ParsedVersionedJson
read_report = record {
  document = report;
  schema = record { id = codes "urn:verglos:schema:scan-report"; version = codes "2.0.1" };
  compatibility = backward_compatible;
  used_legacy_schema_id = false;
}

reading : Unit {0}
unfolding open_value visit enforce enforce_structure_limits parse_schema_version
    classify_schema_compatibility is_schema_id resolve_limits check_envelope parse_bounded_json
    parse_versioned_json
reading = tt

report_test :
    parse_versioned_json decode_none read_two (source_text (codes "report")) reader ≡ ok read_report
unfolding reading
report_test = refl

null_test :
    parse_versioned_json decode_none read_two (source_text (codes "null")) reader
    ≡ invalid (root_not_object ∷ [])
unfolding reading
null_test = refl

large_test :
    parse_versioned_json decode_none read_two
      (source_text (codes "report"))
      (record reader { limits = record no_overrides { max_bytes = some 5 } })
    ≡ invalid (document_too_large ∷ [])
unfolding reading
large_test = refl

parse_versioned_json_sound_example :
    IsBounded decode_none read_two (source_text (codes "report")) (overridden no_overrides) report
    × IsEnvelope reader report read_report
    × ((d e : SchemaVersion) × (parse_schema_version (codes "2.0.1") ≡ some d)
        × (parse_schema_version (codes "2.1.0") ≡ some e)
        × (d.major ≡ e.major)
        × (d.minor ≤ e.minor))
parse_versioned_json_sound_example =
    parse_versioned_json_sound decode_none read_two (source_text (codes "report")) reader
      read_report report_test
