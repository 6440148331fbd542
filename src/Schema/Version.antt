-- ===== src/Schema/Version.antt =====
-- packages/shared/src/schema.ts: schema identifiers, versions and their compatibility.
mod Digits
pub mod Laws
mod Tests
use verglos_cli.Prelude.{
  ℕ, ◌+◌, ◌-◌, ◌*◌, ◌≡◌, refl, Bool, true, false, ◌&&◌, Option, none, some, List, [], ◌∷◌, ltb, leb,
  ◌==◌, if◌then◌else◌, length, all,
}
use verglos_cli.Text.{Text, codes, starts_with, text_eq}
use verglos_cli.Formats.{is_digit, slug, in_range}

-- A part that begins with `d`, or a new part where the separator was read.
abbrev pub push_unit : Bool → ℕ → List Text → List Text
push_unit true d parts = [] ∷ parts
push_unit false d [] = (d ∷ []) ∷ []
push_unit false d (p ∷ ps) = (d ∷ p) ∷ ps

-- `s.split(c)` at a separator of one code unit.
abbrev pub split_on : ℕ → Text → List Text
split_on c [] = [] ∷ []
split_on c (d ∷ s) = push_unit (d == c) d (split_on c s)

pub record SchemaVersion : Type 0 where
  pub major : ℕ
  pub minor : ℕ
  pub patch : ℕ

-- `0|[1-9]\d*`
abbrev pub is_component : Text → Bool
is_component [] = false
is_component (c ∷ []) = is_digit c
is_component (c ∷ d ∷ s) = in_range b'1' b'9' c && all is_digit (d ∷ s)

-- The number that digits spell behind `n`. `Number` rounds only above the safe integers, where the
-- test that follows refuses the rounded number as well as the exact one.
abbrev pub value : ℕ → Text → ℕ
value n [] = n
value n (c ∷ s) = value (n * 10 + (c - b'0')) s

abbrev pub max_safe_integer : ℕ
max_safe_integer = 9007199254740991

abbrev pub is_safe_integer : Text → Bool
is_safe_integer s = leb (value 0 s) max_safe_integer

abbrev pub version_of_parts : List Text → Option SchemaVersion
version_of_parts (a ∷ b ∷ c ∷ []) =
    if is_component a && is_component b && is_component c
    then (if is_safe_integer a && is_safe_integer b && is_safe_integer c
        then some (record { major = value 0 a; minor = value 0 b; patch = value 0 c })
        else none)
    else none
version_of_parts _ = none

unfoldable pub parse_schema_version : Text → Option SchemaVersion
parse_schema_version v = if ltb 64 (length v) then none else version_of_parts (split_on b'.' v)

-- What stands behind a prefix of that length.
abbrev pub after : Text → Text → Text
after [] t = t
after (c ∷ p) [] = []
after (c ∷ p) (d ∷ t) = after p t

unfoldable pub is_schema_id : Text → Bool
is_schema_id s =
    leb (length s) 128
    && starts_with (codes "urn:verglos:schema:") s
    && slug (λ c. c == b'-') (after (codes "urn:verglos:schema:") s)

pub data SchemaCompatibility : Type 0 where
  exact backward_compatible upgrade_required incompatible : SchemaCompatibility

abbrev pub compare_versions : Bool → SchemaVersion → SchemaVersion → SchemaCompatibility
compare_versions same document reader =
    if same
    then exact
    else if document.major == reader.major
    then (if leb document.minor reader.minor then backward_compatible else upgrade_required)
    else if ltb reader.major document.major
    then upgrade_required
    else incompatible

-- `none` stands for the TypeError of `requireSchemaVersion`.
unfoldable pub classify_schema_compatibility : Text → Text → Option SchemaCompatibility
classify_schema_compatibility document_version reader_version =
    elim (parse_schema_version document_version) [
      | none ↦ none
      | some document ↦ elim (parse_schema_version reader_version) [
        | none ↦ none
        | some reader ↦
            some (compare_versions (text_eq document_version reader_version) document reader)
      ]
    ]

version_tests :
    (parse_schema_version (codes "1.20.3") ≡ some (record { major = 1; minor = 20; patch = 3 }))
    × (parse_schema_version (codes "1.02.3") ≡ none)
    × (parse_schema_version (codes "1.2") ≡ none)
    × (parse_schema_version (codes "1.2.9007199254740992") ≡ none)
unfolding parse_schema_version
version_tests = (refl, refl, refl, refl)
