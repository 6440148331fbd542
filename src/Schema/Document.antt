-- ===== src/Schema/Document.antt =====
-- packages/shared/src/schema.ts: `parseBoundedJson` and `parseVersionedJson`. The platform's
-- `JSON.parse` and its UTF-8 decoder are parameters, with none for what they throw.
pub mod Laws
mod Tests
use verglos_cli.Prelude.{
  ℕ, suc, ◌+◌, Bool, true, false, not, ◌&&◌, Option, none, some, List, [], ◌∷◌, ltb, leb,
  if◌then◌else◌, length, all,
}
use verglos_cli.Text.{Text, codes, text_eq}
use verglos_cli.Formats.{in_range}
use verglos_cli.Contracts.{truthy, Parsed, ok, invalid, ◌>>=◌, is_some}
use verglos_cli.Schema.Version.{
  SchemaCompatibility, exact, backward_compatible, upgrade_required, incompatible, max_safe_integer,
  parse_schema_version, classify_schema_compatibility, is_schema_id,
}
use verglos_cli.Schema.Json.{
  Json, json_string, json_object, Members, no_members, member, JsonParseLimits, default_limits,
}
use verglos_cli.Schema.Json.Limits.{
  LimitError, Enforced, within, exceeded, out_of_fuel, enforce_structure_limits,
}

-- JsonParseErrorCode, and the TypeErrors of the callers' own mistakes. `looped` stands for a walk of
-- the structure that does not end.
pub data DocumentError : Type 0 where
  document_too_large : DocumentError
  invalid_utf8 : DocumentError
  invalid_json : DocumentError
  over_limit : LimitError → DocumentError
  root_not_object : DocumentError
  missing_schema_id : DocumentError
  invalid_schema_id : DocumentError
  unsupported_schema_id : DocumentError
  missing_schema_version : DocumentError
  invalid_schema_version : DocumentError
  schema_upgrade_required : DocumentError
  schema_version_incompatible : DocumentError
  type_error : DocumentError
  looped : DocumentError

abbrev pub throw : {A : Type 0} → DocumentError → Parsed DocumentError A
throw e = invalid (e ∷ [])

abbrev pub throw_unless : Bool → DocumentError → Parsed DocumentError (Unit {0})
throw_unless true e = ok tt
throw_unless false e = throw e

-- Partial<JsonParseLimits>
pub record LimitOverrides : Type 0 where
  pub max_bytes : Option ℕ
  pub max_depth : Option ℕ
  pub max_nodes : Option ℕ
  pub max_object_properties : Option ℕ
  pub max_array_items : Option ℕ

abbrev pub or_default : Option ℕ → ℕ → ℕ
or_default none d = d
or_default (some n) d = n

abbrev pub is_positive_safe : ℕ → Bool
is_positive_safe n = leb 1 n && leb n max_safe_integer

abbrev pub overridden : LimitOverrides → JsonParseLimits
overridden o = record {
  max_bytes = or_default o.max_bytes default_limits.max_bytes;
  max_depth = or_default o.max_depth default_limits.max_depth;
  max_nodes = or_default o.max_nodes default_limits.max_nodes;
  max_object_properties = or_default o.max_object_properties default_limits.max_object_properties;
  max_array_items = or_default o.max_array_items default_limits.max_array_items;
}

abbrev pub overrides_ok : LimitOverrides → Bool
overrides_ok o = all is_positive_safe (
    (overridden o).max_bytes
    ∷ (overridden o).max_depth
    ∷ (overridden o).max_nodes
    ∷ (overridden o).max_object_properties
    ∷ (overridden o).max_array_items
    ∷ [])

-- `resolveLimits`
unfoldable pub resolve_limits : LimitOverrides → Parsed DocumentError JsonParseLimits
resolve_limits o = do checked ← throw_unless (overrides_ok o) type_error; ok (overridden o)

-- `string | Uint8Array`
pub data Source : Type 0 where
  source_text : Text → Source
  source_bytes : List ℕ → Source

-- `Buffer.byteLength(text, "utf8")`: the second half of a surrogate pair adds one byte to the three
-- of a lone surrogate.
abbrev utf8_length_after : Bool → Text → ℕ
utf8_length_after high [] = 0
utf8_length_after high (c ∷ s) =
    let rest = utf8_length_after (in_range 0xd800 0xdbff c) s in
    if high && in_range 0xdc00 0xdfff c
    then suc rest
    else if ltb c 0x80
    then suc rest
    else if ltb c 0x800
    then 2 + rest
    else 3 + rest

abbrev pub byte_length : Source → ℕ
byte_length (source_text s) = utf8_length_after false s
byte_length (source_bytes bs) = length bs

pub record SchemaDescriptor : Type 0 where
  pub id : Text
  pub version : Text

pub record VersionedOptions : Type 0 where
  pub limits : LimitOverrides
  pub expected_schema : SchemaDescriptor
  pub legacy_schema_id : Option Text

pub record ParsedVersionedJson : Type 0 where
  pub document : Json
  pub schema : SchemaDescriptor
  pub compatibility : SchemaCompatibility
  pub used_legacy_schema_id : Bool

-- `value.key`; `JSON.parse` leaves one value for a key.
abbrev pub lookup : Text → Members → Option Json
lookup key no_members = none
lookup key (member k v ms) = let rest = lookup key ms in if text_eq key k then some v else rest

-- `isJsonObject`, with the members.
abbrev pub members_of : Json → Parsed DocumentError Members
members_of (json_object ms) = ok ms
members_of _ = throw root_not_object

abbrev pub legacy_id : Option Text → Parsed DocumentError Text
legacy_id none = throw missing_schema_id
legacy_id (some id) = if truthy (some id) then ok id else throw missing_schema_id

abbrev pub schema_id_of : Option Text → Option Json → Parsed DocumentError Text
schema_id_of legacy none = legacy_id legacy
schema_id_of legacy (some (json_string id)) =
    if is_schema_id id then ok id else throw invalid_schema_id
schema_id_of legacy (some _) = throw invalid_schema_id

abbrev pub schema_version_of : Option Json → Parsed DocumentError Text
schema_version_of none = throw missing_schema_version
schema_version_of (some (json_string v)) =
    if is_some (parse_schema_version v) then ok v else throw invalid_schema_version
schema_version_of (some _) = throw invalid_schema_version

abbrev pub readable : Option SchemaCompatibility → Parsed DocumentError SchemaCompatibility
readable (some exact) = ok exact
readable (some backward_compatible) = ok backward_compatible
readable (some upgrade_required) = throw schema_upgrade_required
readable (some incompatible) = throw schema_version_incompatible
readable none = throw type_error

-- `validateDescriptor`, and the check of the legacy id that follows it.
abbrev pub options_ok : VersionedOptions → Bool
options_ok o =
    is_schema_id o.expected_schema.id
    && (is_some (parse_schema_version o.expected_schema.version)
        && elim o.legacy_schema_id [ none ↦ true | some id ↦ is_schema_id id ])

abbrev pub enforced : {A : Type 0} → Enforced → A → Parsed DocumentError A
enforced within a = ok a
enforced (exceeded x) a = throw (over_limit x)
enforced out_of_fuel a = throw looped

abbrev pub or_throw : {A : Type 0} → DocumentError → Option A → Parsed DocumentError A
or_throw e none = throw e
or_throw e (some a) = ok a

-- What `parseVersionedJson` makes of the value that was read.
unfoldable pub check_envelope : VersionedOptions → Json → Parsed DocumentError ParsedVersionedJson
check_envelope o value = do
  members ← members_of value
  id ← schema_id_of o.legacy_schema_id (lookup (codes "schemaId") members)
  supported ← throw_unless (text_eq id o.expected_schema.id) unsupported_schema_id
  version ← schema_version_of (lookup (codes "schemaVersion") members)
  compatibility ← readable (classify_schema_compatibility version o.expected_schema.version)
  ok (record {
    document = value;
    schema = record { id = id; version = version };
    compatibility = compatibility;
    used_legacy_schema_id = not (is_some (lookup (codes "schemaId") members));
  })

abbrev pub decoded : (List ℕ → Option Text) → Source → Option Text
decoded decode_utf8 (source_text s) = some s
decoded decode_utf8 (source_bytes bs) = decode_utf8 bs

module _ (decode_utf8 : List ℕ → Option Text) (parse_json : Text → Option Json) where
  -- `parseBoundedJson`
  unfoldable pub parse_bounded_json : Source → LimitOverrides → Parsed DocumentError Json
  parse_bounded_json input o = do
    limits ← resolve_limits o
    small ← throw_unless (leb (byte_length input) limits.max_bytes) document_too_large
    source ← or_throw invalid_utf8 (decoded decode_utf8 input)
    value ← or_throw invalid_json (parse_json source)
    enforced (enforce_structure_limits limits value) value

  -- `parseVersionedJson`
  unfoldable pub parse_versioned_json :
      Source → VersionedOptions → Parsed DocumentError ParsedVersionedJson
  parse_versioned_json input o = do
    described ← throw_unless (options_ok o) type_error
    value ← parse_bounded_json input o.limits
    check_envelope o value
