-- ===== src/Schema/Version/Laws.antt =====
-- Versions and their compatibility (packages/shared/src/schema.ts).
use verglos_cli.Prelude.{
  ℕ, ◌≤◌, ◌<◌, ◌≡◌, refl, sym, ap, ◌∙◌, ◌≢◌, ◌↔◌, ◌⊎◌, inl, inr, Bool, true, false, Option, some,
  List, [], ◌∷◌, ◌++◌, arith, ltb, leb, ◌==◌, Bool-cases,
}
use verglos_cli.Text.{Text, text_eq}
use verglos_cli.Text.Order.{text_eq_iff}
use verglos_cli.Schema.Version.Digits.{value-inj}
use verglos_cli.Schema.Version.{
  SchemaVersion, SchemaCompatibility, exact, backward_compatible, upgrade_required, incompatible,
  is_component, value, push_unit, split_on, version_of_parts, parse_schema_version,
  compare_versions, classify_schema_compatibility,
}

-- The parts joined again by the separator.
abbrev join_with : ℕ → List Text → Text
join_with c [] = []
join_with c (p ∷ []) = p
join_with c (p ∷ q ∷ ps) = p ++ (c ∷ join_with c (q ∷ ps))

join_with-push_unit :
    (c d : ℕ) (parts : List Text)
    → parts ≢ []
    → join_with c (push_unit (d == c) d parts) ≡ d ∷ join_with c parts
join_with-push_unit c d [] h = absurd (h refl)
join_with-push_unit c d (p ∷ []) h = ground arith
join_with-push_unit c d (p ∷ q ∷ ps) h = ground arith

pub split_on-ne-nil : (c : ℕ) (s : Text) → split_on c s ≢ []
split_on-ne-nil c [] = cc
split_on-ne-nil c (d ∷ s) = nonempty (d == c) d (split_on c s)
  where
    nonempty : (b : Bool) (d : ℕ) (parts : List Text) → push_unit b d parts ≢ []
    nonempty true d parts = cc
    nonempty false d [] = cc
    nonempty false d (p ∷ ps) = cc

-- Splitting loses nothing.
pub join_with-split_on : (c : ℕ) (s : Text) → join_with c (split_on c s) ≡ s
join_with-split_on c [] = refl
join_with-split_on c (d ∷ s) =
    join_with-push_unit c d (split_on c s) (split_on-ne-nil c s)
    ∙ ap (λ t. d ∷ t) (join_with-split_on c s)

-- What an accepted list of parts is.
record Spells (parts : List Text) (v : SchemaVersion) : Type 0 where
  major : Text
  minor : Text
  patch : Text
  shape : parts ≡ major ∷ minor ∷ patch ∷ []
  major_form : is_component major ≡ true
  minor_form : is_component minor ≡ true
  patch_form : is_component patch ≡ true
  major_value : value 0 major ≡ v.major
  minor_value : value 0 minor ≡ v.minor
  patch_value : value 0 patch ≡ v.patch

version_of_parts-Spells :
    (parts : List Text) (v : SchemaVersion) → version_of_parts parts ≡ some v → Spells parts v
version_of_parts-Spells [] v h = cc
version_of_parts-Spells (a ∷ []) v h = cc
version_of_parts-Spells (a ∷ b ∷ []) v h = cc
version_of_parts-Spells (a ∷ b ∷ c ∷ d ∷ ps) v h = cc
version_of_parts-Spells (a ∷ b ∷ c ∷ []) v h = record {
  major = a;
  minor = b;
  patch = c;
  shape = refl;
  major_form = ground arith;
  minor_form = ground arith;
  patch_form = ground arith;
  major_value = ground arith;
  minor_value = ground arith;
  patch_value = ground arith;
}

Spells-unique : (ps qs : List Text) (v : SchemaVersion) → Spells ps v → Spells qs v → ps ≡ qs
Spells-unique ps qs v a b =
    let major : a.major ≡ b.major =
      value-inj _ _ a.major_form b.major_form (a.major_value ∙ sym b.major_value) in
    let minor : a.minor ≡ b.minor =
      value-inj _ _ a.minor_form b.minor_form (a.minor_value ∙ sym b.minor_value) in
    let patch : a.patch ≡ b.patch =
      value-inj _ _ a.patch_form b.patch_form (a.patch_value ∙ sym b.patch_value) in
    cc (a.shape, b.shape, major, minor, patch)

parse-Spells :
    (s : Text) (v : SchemaVersion) → parse_schema_version s ≡ some v → Spells (split_on b'.' s) v
unfolding parse_schema_version
parse-Spells s v h = version_of_parts-Spells (split_on b'.' s) v (ground arith)

-- No version has two spellings: two texts that `parseSchemaVersion` reads as the same version are
-- the same text.
pub parse_schema_version-inj :
    (s t : Text) (v : SchemaVersion)
    → parse_schema_version s ≡ some v
    → parse_schema_version t ≡ some v
    → s ≡ t
parse_schema_version-inj s t v h k =
    sym (join_with-split_on b'.' s)
    ∙ ap (join_with b'.') (Spells-unique _ _ v (parse-Spells s v h) (parse-Spells t v k))
    ∙ join_with-split_on b'.' t

same_text_iff :
    (s t : Text) (v w : SchemaVersion)
    → parse_schema_version s ≡ some v
    → parse_schema_version t ≡ some w
    → (text_eq s t ≡ true) ↔ (v ≡ w)
same_text_iff s t v w h k = (
  (λ e. some_inj (sym h ∙ ap parse_schema_version ((text_eq_iff s t).0 e) ∙ k)),
  λ e. (text_eq_iff s t).1 (parse_schema_version-inj s t w (rw e at h) k),
)
  where
    some_inj : {a b : SchemaVersion} → some a ≡ some b → a ≡ b
    some_inj e = cc

-- The policy of the comment in the source, on numbers alone.
abbrev pub IsClassified : SchemaVersion → SchemaVersion → SchemaCompatibility → Type 0
IsClassified d r exact = d ≡ r
IsClassified d r backward_compatible = (d ≢ r) × (d.major ≡ r.major) × (d.minor ≤ r.minor)
IsClassified d r upgrade_required =
    (r.major < d.major) ⊎ ((d.major ≡ r.major) × (r.minor < d.minor))
IsClassified d r incompatible = d.major < r.major

compare-IsClassified :
    (same : Bool) (d r : SchemaVersion)
    → (same ≡ true) ↔ (d ≡ r)
    → IsClassified d r (compare_versions same d r)
compare-IsClassified true d r h = h.0 refl
compare-IsClassified false d r h =
    let other : d ≢ r = λ e. cc (h.1 e) in
    elim (Bool-cases (d.major == r.major)) [
      | inl same ↦ elim (Bool-cases (leb d.minor r.minor)) [
        | inl older ↦ rw (same, older) (other, ground arith, ground arith)
        | inr newer ↦ rw (same, newer) (inr (ground arith, ground arith))
      ]
      | inr differ ↦ elim (Bool-cases (ltb r.major d.major)) [
        | inl newer ↦ rw (differ, newer) (inl (ground arith))
        | inr older ↦ rw (differ, older) (ground arith)
      ]
    ]

-- For two texts that are versions the classification is never an error, and it says how the two
-- triples of numbers are related: equal; another version of the same major, no newer by its minor;
-- newer by its major, or by its minor in one major; older by its major.
pub classify-IsClassified :
    (document_version reader_version : Text) (d r : SchemaVersion)
    → parse_schema_version document_version ≡ some d
    → parse_schema_version reader_version ≡ some r
    → (c : SchemaCompatibility) × (classify_schema_compatibility document_version reader_version
        ≡ some c)
      × IsClassified d r c
unfolding classify_schema_compatibility
classify-IsClassified dv rv d r h k = (
  compare_versions (text_eq dv rv) d r,
  ground (arith, h, k),
  compare-IsClassified (text_eq dv rv) d r (same_text_iff dv rv d r h k),
)

-- A reader that takes a document's version, exactly or as backward compatible.
abbrev pub is_accepted : Option SchemaCompatibility → Bool
is_accepted (some exact) = true
is_accepted (some backward_compatible) = true
is_accepted _ = false

accepts_iff :
    (d r : SchemaVersion) (c : SchemaCompatibility)
    → IsClassified d r c
    → (is_accepted (some c) ≡ true) ↔ ((d.major ≡ r.major) × (d.minor ≤ r.minor))
accepts_iff d r exact e = ((λ _. rw e (refl, omega arith)), λ _. refl)
accepts_iff d r backward_compatible (n, m, l) = ((λ _. (m, l)), λ _. refl)
accepts_iff d r upgrade_required h = ((λ e. cc), λ (m, l). absurd (omega arith))
accepts_iff d r incompatible h = ((λ e. cc), λ (m, l). absurd (omega arith))

-- Documents are readable exactly when their major version is the reader's and their minor version
-- is no newer; the patch version never matters.
pub classify-accepts_iff :
    (document_version reader_version : Text) (d r : SchemaVersion)
    → parse_schema_version document_version ≡ some d
    → parse_schema_version reader_version ≡ some r
    → (is_accepted (classify_schema_compatibility document_version reader_version) ≡ true)
      ↔ ((d.major ≡ r.major) × (d.minor ≤ r.minor))
classify-accepts_iff dv rv d r h k =
    let (c, e, p) = classify-IsClassified dv rv d r h k in rw e (accepts_iff d r c p)
