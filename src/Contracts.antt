-- ===== src/Contracts.antt =====
-- What the contract modules of packages/shared/src share: instants, optional fields, the issues of
-- a validation, and the result of a parse. zod itself is not modelled: a value that has the
-- TypeScript type of a contract is checked field by field, and it is accepted if there is no issue.
pub mod Laws
use verglos_cli.Prelude.{
  ℕ, suc, Bool, true, false, ◌&&◌, Option, none, some, List, [], ◌∷◌, ◌++◌, ltb, leb, length,
}
use verglos_cli.Text.{Text, codes, text_eq}
use verglos_cli.Schema.Version.{
  SchemaCompatibility, upgrade_required, incompatible, parse_schema_version,
  classify_schema_compatibility,
}

-- Milliseconds, counted from the first day that the timestamp format can write (year 0), so that
-- none is negative. The code only compares instants.
abbrev pub Instant : Type 0
Instant = ℕ

-- What `Date.parse` makes of a timestamp, where none is NaN: a text can have the format of the schema,
-- such as one with the offset `+99:99`, and still be no date.
abbrev pub Time : Type 0
Time = Option Instant

-- `a < b` of JavaScript, which is false where either is NaN.
abbrev pub earlier : Time → Time → Bool
earlier (some a) (some b) = ltb a b
earlier _ _ = false

-- `a <= b` of JavaScript, which is false where either is NaN.
abbrev pub no_later : Time → Time → Bool
no_later (some a) (some b) = leb a b
no_later _ _ = false

-- JavaScript truth of an optional text: neither undefined nor empty.
abbrev pub truthy : Option Text → Bool
truthy none = false
truthy (some []) = false
truthy (some (c ∷ s)) = true

-- `value === text` where `value` may be undefined.
abbrev pub is_text : Option Text → Text → Bool
is_text none t = false
is_text (some s) t = text_eq s t

abbrev pub is_some {ℓ} : {A : Type ℓ} → Option A → Bool
is_some none = false
is_some (some a) = true

-- A test on the value of an optional field, which passes where the field is absent.
abbrev pub if_present {ℓ} : {A : Type ℓ} → (A → Bool) → Option A → Bool
if_present p none = true
if_present p (some a) = p a

abbrev pub is_empty {ℓ} : {A : Type ℓ} → List A → Bool
is_empty [] = true
is_empty (x ∷ xs) = false

-- `array.length` between two bounds.
abbrev pub size_in {ℓ} : {A : Type ℓ} → ℕ → ℕ → List A → Bool
size_in lo hi xs = leb lo (length xs) && leb (length xs) hi

-- A row of conditions with the issue that each one adds, in the order of the `addIssue` calls.
abbrev pub raise {ℓ} : {I : Type ℓ} → List (Bool × I) → List I
raise [] = []
raise ((b, i) ∷ rows) = elim b [ true ↦ i ∷ raise rows | false ↦ raise rows ]

-- An array's items with their positions, the first one at `n`.
abbrev pub flat_map_from {ℓ κ} : {A : Type ℓ} {B : Type κ} → (ℕ → A → List B) → ℕ → List A → List B
flat_map_from f n [] = []
flat_map_from f n (x ∷ xs) = f n x ++ flat_map_from f (suc n) xs

-- A parse returns its value, or throws a validation error with its issues, or an error that says
-- how the schema version fails to fit the reader.
pub data Parsed {ℓ κ} (I : Type ℓ) (A : Type κ) : Type (ℓ ⊔ κ) where
  ok : A → Parsed I A
  invalid : List I → Parsed I A
  unreadable : SchemaCompatibility → Parsed I A

infixl 5 ◌>>=◌
abbrev pub ◌>>=◌ {ℓ κ μ} :
    {I : Type ℓ} {A : Type κ} {B : Type μ} → Parsed I A → (A → Parsed I B) → Parsed I B
ok a >>= f = f a
invalid is >>= f = invalid is
unreadable c >>= f = unreadable c

-- `safeParse`, and the throw on failure.
abbrev pub accept_if_clean {ℓ κ} : {I : Type ℓ} {A : Type κ} → List I → A → Parsed I A
accept_if_clean [] a = ok a
accept_if_clean (i ∷ is) a = invalid (i ∷ is)

abbrev pub reader_version : Text
reader_version = codes "1.0.0"

-- `assertCompatible`. A version that is no version has been refused before.
abbrev refuse_newer {ℓ κ} : {I : Type ℓ} {A : Type κ} → Option SchemaCompatibility → A → Parsed I A
refuse_newer (some upgrade_required) a = unreadable upgrade_required
refuse_newer (some incompatible) a = unreadable incompatible
refuse_newer _ a = ok a

unfoldable pub assert_compatible {ℓ κ} : {I : Type ℓ} {A : Type κ} → Text → A → Parsed I A
assert_compatible version a = refuse_newer (classify_schema_compatibility version reader_version) a

unfoldable pub is_version : Text → Bool
is_version v = is_some (parse_schema_version v)
