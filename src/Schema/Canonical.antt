-- ===== src/Schema/Canonical.antt =====
-- packages/shared/src/schema.ts: `canonicalizeJson`. A value is a finite tree of plain JSON data, so
-- that cycles, sparse arrays, and objects with a prototype or hidden properties do not occur in it.
pub mod Laws
mod Tests
use verglos_cli.Prelude.{
  ℕ, suc, ◌+◌, ◌-◌, ◌/◌, ◌%◌, Bool, true, false, not, ◌&&◌, List, [], ◌∷◌, ◌++◌, ltb, ◌==◌,
  if◌then◌else◌,
}
use verglos_cli.Text.{Text, codes}
use verglos_cli.Text.Sorting.{sort_by}
use verglos_cli.Formats.{in_range}
use verglos_cli.Contracts.{Parsed, ok, invalid, ◌>>=◌}
use verglos_cli.Schema.Json.{
  Json, json_null, json_bool, json_number, json_string, json_array, json_object, Items, no_items,
  item, Members, no_members, member, default_limits,
}

pub data CanonicalError : Type 0 where
  non_json_value invalid_unicode : CanonicalError

abbrev pub is_high : ℕ → Bool
is_high = in_range 0xd800 0xdbff

abbrev pub is_low : ℕ → Bool
is_low = in_range 0xdc00 0xdfff

-- `assertValidUnicode`: a high surrogate is skipped together with the low one that must follow it.
abbrev pub valid_unicode : Text → Bool
valid_unicode [] = true
valid_unicode (c ∷ []) = not (is_high c) && not (is_low c)
valid_unicode (c ∷ d ∷ s) =
    let past_pair = valid_unicode s in
    let past_unit = valid_unicode (d ∷ s) in
    if is_high c then is_low d && past_pair else not (is_low c) && past_unit

-- `Buffer.from(text, "utf8").byteLength`; a surrogate without its other half takes three bytes.
abbrev pub byte_length : Text → ℕ
byte_length [] = 0
byte_length (c ∷ []) = if ltb c 0x80 then 1 else if ltb c 0x800 then 2 else 3
byte_length (c ∷ d ∷ s) =
    let past_pair = byte_length s in
    let past_unit = byte_length (d ∷ s) in
    if ltb c 0x80
    then 1 + past_unit
    else if ltb c 0x800
    then 2 + past_unit
    else if is_high c && is_low d
    then 4 + past_pair
    else 3 + past_unit

abbrev hex_digit : ℕ → ℕ
hex_digit n = if ltb n 10 then b'0' + n else b'a' + (n - 10)

-- One code unit of `JSON.stringify` of a string.
abbrev escaped : ℕ → Text
escaped c =
    if c == b'"'
    then codes "\\\""
    else if c == 0x5c
    then codes "\\\\"
    else if c == 0x8
    then codes "\\b"
    else if c == 0x9
    then codes "\\t"
    else if c == 0xa
    then codes "\\n"
    else if c == 0xc
    then codes "\\f"
    else if c == 0xd
    then codes "\\r"
    else if ltb c 0x20
    then codes "\\u00" ++ (hex_digit (c / 16) ∷ hex_digit (c % 16) ∷ [])
    else c ∷ []

abbrev escape_all : Text → Text
escape_all [] = []
escape_all (c ∷ s) = escaped c ++ escape_all s

-- `JSON.stringify(text)`, of a text that is valid Unicode.
abbrev pub quote : Text → Text
quote s = codes "\"" ++ (escape_all s ++ codes "\"")

-- `texts.join(",")`
abbrev pub join_commas : List Text → Text
join_commas [] = []
join_commas (t ∷ []) = t
join_commas (t ∷ u ∷ ts) = t ++ (codes "," ++ join_commas (u ∷ ts))

-- `assertValidUnicode(text, path)`, and the quoted text.
abbrev pub quote_valid : Text → Parsed CanonicalError Text
quote_valid s = if valid_unicode s then ok (quote s) else invalid (invalid_unicode ∷ [])

-- The depth test at the head of `serializeCanonical`.
abbrev pub unless_too_deep : ℕ → Parsed CanonicalError Text → Parsed CanonicalError Text
unless_too_deep d r = if ltb default_limits.max_depth d then invalid (non_json_value ∷ []) else r

-- A member's key, with the text of the member or what it throws.
pub record MemberText : Type 0 where
  pub key : Text
  pub text : Parsed CanonicalError Text

-- The members' texts in order, or what the first of them throws that does.
abbrev pub collect : List MemberText → Parsed CanonicalError (List Text)
collect [] = ok []
collect (m ∷ ms) = do t ← m.text; ts ← collect ms; ok (t ∷ ts)

abbrev pub between : Text → Text → Parsed CanonicalError (List Text) → Parsed CanonicalError Text
between before after texts = do ts ← texts; ok (before ++ (join_commas ts ++ after))

abbrev pub member_text : Text → Parsed CanonicalError Text → Parsed CanonicalError Text
member_text k value = do name ← quote_valid k; t ← value; ok (name ++ (codes ":" ++ t))

abbrev pub bool_text : Bool → Text
bool_text true = codes "true"
bool_text false = codes "false"

-- `serializeCanonical`. The members of an object are serialised in the order of their sorted keys.
abbrev mutual
  pub serialize_canonical : Json → ℕ → Parsed CanonicalError Text
  serialize_canonical json_null d = unless_too_deep d (ok (codes "null"))
  serialize_canonical (json_bool b) d = unless_too_deep d (ok (bool_text b))
  serialize_canonical (json_string s) d = unless_too_deep d (quote_valid s)
  serialize_canonical (json_number n) d = unless_too_deep d (ok n)
  serialize_canonical (json_array vs) d =
      unless_too_deep d (between (codes "[") (codes "]") (serialize_items vs (suc d)))
  serialize_canonical (json_object ms) d = unless_too_deep d (
      between (codes "{") (codes "}")
        (collect (sort_by MemberText.key (serialize_members ms (suc d)))))

  pub serialize_items : Items → ℕ → Parsed CanonicalError (List Text)
  serialize_items no_items d = ok []
  serialize_items (item v vs) d = do
    t ← serialize_canonical v d
    ts ← serialize_items vs d
    ok (t ∷ ts)

  pub serialize_members : Members → ℕ → List MemberText
  serialize_members no_members d = []
  serialize_members (member k v ms) d =
      record { key = k; text = member_text k (serialize_canonical v d) } ∷ serialize_members ms d

-- `canonicalizeJson`
unfoldable pub canonicalize_json : Json → Parsed CanonicalError Text
canonicalize_json v = serialize_canonical v 0
