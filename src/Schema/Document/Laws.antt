-- ===== src/Schema/Document/Laws.antt =====
-- Results of `parseVersionedJson` (packages/shared/src/schema.ts).
use verglos_cli.Prelude.{
  ℕ, ◌≤◌, ◌≡◌, refl, sym, ap, ◌∙◌, ◌⊎◌, inl, inr, Bool, true, false, not, Option, none, some, List,
  [], ◌∷◌, arith, leb, Bool-cases,
}
use mathlib.Core.Path.{subst}
use verglos_cli.Text.{Text, codes, text_eq}
use verglos_cli.Text.Order.{text_eq_iff}
use verglos_cli.Contracts.{Parsed, ok, invalid, unreadable, ◌>>=◌, is_some}
use verglos_cli.Schema.Version.{
  SchemaVersion, SchemaCompatibility, parse_schema_version, classify_schema_compatibility,
}
use verglos_cli.Schema.Version.Laws.{is_accepted, classify-accepts_iff}
use verglos_cli.Schema.Json.{
  Json, json_null, json_bool, json_number, json_array, json_string, json_object, Members,
  JsonParseLimits,
}
use verglos_cli.Schema.Json.Limits.{
  Enforced, within, exceeded, out_of_fuel, enforce_structure_limits,
}
use verglos_cli.Schema.Json.LimitLaws.{IsWithin, enforce_structure_limits-within_iff}
use verglos_cli.Schema.Document.{
  DocumentError, type_error, throw_unless, LimitOverrides, overridden, overrides_ok, resolve_limits,
  Source, byte_length, VersionedOptions, ParsedVersionedJson, lookup, members_of, schema_id_of,
  schema_version_of, readable, options_ok, enforced, or_throw, check_envelope, decoded,
  parse_bounded_json, parse_versioned_json,
}

>>=-inversion :
    {I A B : Type 0} (m : Parsed I A) (f : A → Parsed I B) {b : B}
    → (m >>= f) ≡ ok b
    → (a : A) × (m ≡ ok a) × (f a ≡ ok b)
>>=-inversion (ok a) f h = (a, refl, h)
>>=-inversion (invalid is) f h = cc
>>=-inversion (unreadable c) f h = cc

ok_inj : {I A : Type 0} (x y : A) → ◌≡◌ {A = Parsed I A} (ok x) (ok y) → x ≡ y
ok_inj x y h = cc

-- The schema id of a document is its field, or stands in for a field that is absent.
abbrev pub IsIdentified : VersionedOptions → Members → Text → Bool → Type 0
IsIdentified o ms id legacy =
    ((lookup (codes "schemaId") ms ≡ some (json_string id)) × (legacy ≡ false))
    ⊎ ((lookup (codes "schemaId") ms ≡ none) × (o.legacy_schema_id ≡ some id) × (legacy ≡ true))

pub record IsEnvelope (o : VersionedOptions) (value : Json) (r : ParsedVersionedJson) : Type 0 where
  pub same : r.document ≡ value
  pub members : Members
  pub is_object : value ≡ json_object members
  pub expected : r.schema.id ≡ o.expected_schema.id
  pub identified : IsIdentified o members r.schema.id r.used_legacy_schema_id
  pub version : lookup (codes "schemaVersion") members ≡ some (json_string r.schema.version)
  pub classified :
      classify_schema_compatibility r.schema.version o.expected_schema.version
      ≡ some r.compatibility
  pub accepted : is_accepted (some r.compatibility) ≡ true
  pub reads : (d : SchemaVersion) × (parse_schema_version r.schema.version ≡ some d)

members_of-eq-ok : (v : Json) {ms : Members} → members_of v ≡ ok ms → v ≡ json_object ms
members_of-eq-ok (json_object ms) h = cc
members_of-eq-ok json_null h = cc
members_of-eq-ok (json_bool b) h = cc
members_of-eq-ok (json_number n) h = cc
members_of-eq-ok (json_string s) h = cc
members_of-eq-ok (json_array vs) h = cc

schema_id_of-eq-ok :
    (legacy : Option Text) (field : Option Json) {id : Text}
    → schema_id_of legacy field ≡ ok id
    → ((field ≡ some (json_string id)) × (not (is_some field) ≡ false))
      ⊎ ((field ≡ none) × (legacy ≡ some id) × (not (is_some field) ≡ true))
schema_id_of-eq-ok none none h = cc
schema_id_of-eq-ok (some []) none h = cc
schema_id_of-eq-ok (some (c ∷ s)) none h = inr (refl, cc, refl)
schema_id_of-eq-ok legacy (some (json_string s)) h = inl (ground (arith, h), refl)
schema_id_of-eq-ok legacy (some json_null) h = cc
schema_id_of-eq-ok legacy (some (json_bool b)) h = cc
schema_id_of-eq-ok legacy (some (json_number n)) h = cc
schema_id_of-eq-ok legacy (some (json_object ms)) h = cc
schema_id_of-eq-ok legacy (some (json_array vs)) h = cc

schema_version_of-eq-ok :
    (field : Option Json) {v : Text}
    → schema_version_of field ≡ ok v
    → (field ≡ some (json_string v)) × (is_some (parse_schema_version v) ≡ true)
schema_version_of-eq-ok none h = cc
schema_version_of-eq-ok (some (json_string s)) {v} h =
    elim (Bool-cases (is_some (parse_schema_version s))) [
      | inl e ↦
          let same : s ≡ v = ground (arith, e, h) in
          (ap (λ t. some (json_string t)) same, rw (← same) e)
      | inr e ↦ absurd (ground (arith, e, h))
    ]
schema_version_of-eq-ok (some json_null) h = cc
schema_version_of-eq-ok (some (json_bool b)) h = cc
schema_version_of-eq-ok (some (json_number n)) h = cc
schema_version_of-eq-ok (some (json_object ms)) h = cc
schema_version_of-eq-ok (some (json_array vs)) h = cc

readable-eq-ok :
    (c : Option SchemaCompatibility) {d : SchemaCompatibility}
    → readable c ≡ ok d
    → (c ≡ some d) × (is_accepted (some d) ≡ true)
readable-eq-ok c h = ground (arith, h)

throw_unless-eq-ok :
    (b : Bool) (e : DocumentError) {u : Unit {0}} → throw_unless b e ≡ ok u → b ≡ true
throw_unless-eq-ok true e h = refl
throw_unless-eq-ok false e h = cc

present : {A : Type 0} (x : Option A) → is_some x ≡ true → (a : A) × (x ≡ some a)
present none h = cc
present (some a) h = (a, refl)

check_envelope-IsEnvelope :
    (o : VersionedOptions) (value : Json) (r : ParsedVersionedJson)
    → check_envelope o value ≡ ok r
    → IsEnvelope o value r
unfolding check_envelope
check_envelope-IsEnvelope o value r h =
    let (ms, object, h1) = >>=-inversion (members_of value) _ h in
    let (id, identified, h2) =
      >>=-inversion (schema_id_of o.legacy_schema_id (lookup (codes "schemaId") ms)) _ h1 in
    let (u, supported, h3) =
      >>=-inversion (throw_unless (text_eq id o.expected_schema.id) _) _ h2 in
    let (v, version, h4) =
      >>=-inversion (schema_version_of (lookup (codes "schemaVersion") ms)) _ h3 in
    let (c, compatible, h5) =
      >>=-inversion (readable (classify_schema_compatibility v o.expected_schema.version)) _ h4 in
    let (field, reads) = schema_version_of-eq-ok (lookup (codes "schemaVersion") ms) version in
    let (classified, accepted) =
      readable-eq-ok (classify_schema_compatibility v o.expected_schema.version) compatible in
    subst (IsEnvelope o value) (ok_inj _ r h5) (record {
      same = refl;
      members = ms;
      is_object = members_of-eq-ok value object;
      expected =
          (text_eq_iff id o.expected_schema.id).0
            (throw_unless-eq-ok (text_eq id o.expected_schema.id) _ supported);
      identified = schema_id_of-eq-ok o.legacy_schema_id (lookup (codes "schemaId") ms) identified;
      version = field;
      classified = classified;
      accepted = accepted;
      reads = present (parse_schema_version v) reads;
    })

module _ (decode_utf8 : List ℕ → Option Text) (parse_json : Text → Option Json) where
  -- A document that was read: from a text within the bound on its bytes that `JSON.parse` reads as a
  -- value within the limits on its structure.
  pub record IsBounded (input : Source) (l : JsonParseLimits) (value : Json) : Type 0 where
    pub small : byte_length input ≤ l.max_bytes
    pub text : Text
    pub decodes : decoded decode_utf8 input ≡ some text
    pub parses : parse_json text ≡ some value
    pub in_limits : IsWithin l value

  enforced-eq-ok :
      {A : Type 0} (r : Enforced) (a : A) {b : A} → enforced r a ≡ ok b → (r ≡ within) × (a ≡ b)
  enforced-eq-ok within a h = (refl, cc)
  enforced-eq-ok (exceeded x) a h = cc
  enforced-eq-ok out_of_fuel a h = cc

  or_throw-eq-ok :
      {A : Type 0} (e : DocumentError) (x : Option A) {a : A} → or_throw e x ≡ ok a → x ≡ some a
  or_throw-eq-ok e none h = cc
  or_throw-eq-ok e (some a) h = cc

  resolve-eq-ok :
      (o : LimitOverrides) (l : JsonParseLimits) → resolve_limits o ≡ ok l → overridden o ≡ l
  unfolding resolve_limits
  resolve-eq-ok o l h =
      let (u, checked, e) =
        >>=-inversion (throw_unless (overrides_ok o) type_error) (λ _. ok (overridden o)) h in
      ok_inj (overridden o) l e

  parse_bounded_json-IsBounded :
      (input : Source) (o : LimitOverrides) (value : Json)
      → parse_bounded_json decode_utf8 parse_json input o ≡ ok value
      → IsBounded input (overridden o) value
  unfolding parse_bounded_json
  parse_bounded_json-IsBounded input o value h =
      let (l, limits, h1) = >>=-inversion (resolve_limits o) _ h in
      let (u, small, h2) =
        >>=-inversion (throw_unless (leb (byte_length input) l.max_bytes) _) _ h1 in
      let (t, text, h3) = >>=-inversion (or_throw _ (decoded decode_utf8 input)) _ h2 in
      let (v, read, h4) = >>=-inversion (or_throw _ (parse_json t)) _ h3 in
      let (quiet, same) = enforced-eq-ok (enforce_structure_limits l v) v h4 in
      subst (λ x. IsBounded input x value) (sym (resolve-eq-ok o l limits))
        (subst (IsBounded input l) same (record {
          small = ground (arith, throw_unless-eq-ok (leb (byte_length input) l.max_bytes) _ small);
          text = t;
          decodes = or_throw-eq-ok _ (decoded decode_utf8 input) text;
          parses = or_throw-eq-ok _ (parse_json t) read;
          in_limits = (enforce_structure_limits-within_iff l v).0.0 quiet;
        }))

  -- What `parseVersionedJson` returns was read from a text within the limits in force, as an object
  -- of the expected schema, with a version of the reader's major and of no newer minor.
  pub parse_versioned_json_sound :
      (input : Source) (o : VersionedOptions) (r : ParsedVersionedJson)
      → parse_versioned_json decode_utf8 parse_json input o ≡ ok r
      → IsBounded input (overridden o.limits) r.document
        × IsEnvelope o r.document r
        × ((d e : SchemaVersion) × (parse_schema_version r.schema.version ≡ some d)
            × (parse_schema_version o.expected_schema.version ≡ some e)
            × (d.major ≡ e.major)
            × (d.minor ≤ e.minor))
  unfolding parse_versioned_json
  parse_versioned_json_sound input o r h =
      let (u, described, h1) = >>=-inversion (throw_unless (options_ok o) _) _ h in
      let (value, read, h2) =
        >>=-inversion (parse_bounded_json decode_utf8 parse_json input o.limits) _ h1 in
      let envelope = check_envelope-IsEnvelope o value r h2 in
      let (d, reads) = envelope.reads in
      let options = throw_unless-eq-ok (options_ok o) _ described in
      let (e, expects) =
        present (parse_schema_version o.expected_schema.version) (ground (arith, options)) in
      let accepted = ap is_accepted envelope.classified ∙ envelope.accepted in
      let (major, minor) =
        (classify-accepts_iff r.schema.version o.expected_schema.version d e reads expects).0
          accepted in
      (
        subst (IsBounded input (overridden o.limits)) (sym envelope.same)
            (parse_bounded_json-IsBounded input o.limits value read),
        subst (λ v. IsEnvelope o v r) (sym envelope.same) envelope,
        (d, e, reads, expects, major, minor),
      )
