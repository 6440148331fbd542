-- ===== src/Text/Sets.antt =====
-- `Set<string>`: the distinct texts in the order of their first insertion.
use verglos_cli.Prelude.{
  all, ◌&&◌, filter, suc, ◌+◌, ◌≤◌, ◌≡◌, refl, ap, ◌↔◌, inl, inr, Bool, true, false, not, ◌||◌,
  List, [], ◌∷◌, ◌++◌, arith, ◌==◌, if◌then◌else◌, Bool-cases, length, In, All,
}
use verglos_cli.Text.{Text, text_eq}
use verglos_cli.Text.Order.{text_eq_iff}

-- `set.has(t)`, `array.includes(t)`.
abbrev pub has : Text → List Text → Bool
has t [] = false
has t (s ∷ ss) = text_eq t s || has t ss

-- `set.add` for each text in turn.
abbrev pub add_all : List Text → List Text → List Text
add_all set [] = set
add_all set (t ∷ ts) = add_all (if has t set then set else set ++ t ∷ []) ts

-- `new Set(texts)`.
abbrev pub set_of : List Text → List Text
set_of ts = add_all [] ts

-- `new Set(texts).size !== texts.length`.
unfoldable pub repeats : List Text → Bool
repeats ts = not (length (set_of ts) == length ts)

-- No text occurs twice.
abbrev pub NoRepeat : List Text → Type 0
NoRepeat [] = Unit
NoRepeat (t ∷ ts) = (has t ts ≡ false) × NoRepeat ts

abbrev Fresh : List Text → List Text → Type 0
Fresh set ts = All (λ t. has t set ≡ false) ts

pub has-snoc : (t s : Text) (ts : List Text) → has t (ts ++ s ∷ []) ≡ (has t ts || text_eq t s)
has-snoc t s [] = ground arith
has-snoc t s (u ∷ ts) = ground (arith, has-snoc t s ts)

length-snoc : (ts : List Text) (t : Text) → length (ts ++ t ∷ []) ≡ suc (length ts)
length-snoc [] t = refl
length-snoc (u ∷ ts) t = ap suc (length-snoc ts t)

pub length-add_all : (set ts : List Text) → length (add_all set ts) ≤ length set + length ts
length-add_all set [] = omega arith
length-add_all set (t ∷ ts) = elim (Bool-cases (has t set)) [
  | inl old ↦ rw old (omega (arith, length-add_all set ts))
  | inr new ↦ rw new (omega (arith, length-add_all (set ++ t ∷ []) ts, length-snoc set t))
]

pub text_eq_comm : (s t : Text) → text_eq s t ≡ text_eq t s
text_eq_comm s t = ground (arith, text_eq_iff s t, text_eq_iff t s)

Fresh-snoc :
    (set : List Text) (t : Text) (ts : List Text)
    → Fresh (set ++ t ∷ []) ts ↔ (Fresh set ts × (has t ts ≡ false))
Fresh-snoc set t [] = ground arith
Fresh-snoc set t (u ∷ ts) = ground (arith, has-snoc u t set, Fresh-snoc set t ts, text_eq_comm t u)

add_all-full :
    (set ts : List Text)
    → (length (add_all set ts) ≡ length set + length ts) ↔ (Fresh set ts × NoRepeat ts)
add_all-full set [] = ground arith
add_all-full set (t ∷ ts) = elim (Bool-cases (has t set)) [
  | inl old ↦ rw old (ground (arith, old, length-add_all set ts))
  | inr new ↦
      rw new (
        ground
          (arith, new, add_all-full (set ++ t ∷ []) ts, length-snoc set t, Fresh-snoc set t ts))
]

Fresh-nil : (ts : List Text) → Fresh [] ts
Fresh-nil [] = tt
Fresh-nil (t ∷ ts) = (refl, Fresh-nil ts)

-- The size test finds exactly the lists in which a text occurs twice.
pub repeats-eq-false_iff : (ts : List Text) → (repeats ts ≡ false) ↔ NoRepeat ts
unfolding repeats
repeats-eq-false_iff ts = ground (arith, add_all-full [] ts, Fresh-nil ts)

pub has_iff : (t : Text) (ts : List Text) → (has t ts ≡ true) ↔ In t ts
has_iff t [] = ground arith
has_iff t (s ∷ ts) = ground (arith, text_eq_iff t s, has_iff t ts)

pub all-has_iff : (ts set : List Text) → (all (λ t. has t set) ts ≡ true) ↔ All (λ t. In t set) ts
all-has_iff [] set = ground arith
all-has_iff (t ∷ ts) set = ground (arith, has_iff t set, all-has_iff ts set)

has-append : (t : Text) (xs ys : List Text) → has t (xs ++ ys) ≡ (has t xs || has t ys)
has-append t [] ys = refl
has-append t (x ∷ xs) ys = ground (arith, has-append t xs ys)

has-add_all : (t : Text) (set ts : List Text) → has t (add_all set ts) ≡ (has t set || has t ts)
has-add_all t set [] = ground arith
has-add_all t set (u ∷ ts) = elim (Bool-cases (has u set)) [
  | inl old ↦ rw old (ground (arith, old, has-add_all t set ts, text_eq_iff t u))
  | inr new ↦ rw new (ground (arith, has-add_all t (set ++ u ∷ []) ts, has-snoc t u set))
]

-- A set has the texts that it is made of.
pub has-set_of : (t : Text) (ts : List Text) → has t (set_of ts) ≡ has t ts
has-set_of t ts = has-add_all t [] ts

NoRepeat-snoc :
    (t : Text) (set : List Text) → NoRepeat set → has t set ≡ false → NoRepeat (set ++ t ∷ [])
NoRepeat-snoc t [] n h = (refl, tt)
NoRepeat-snoc t (s ∷ set) (n, ns) h = (
  ground (arith, n, h, has-snoc s t set, text_eq_comm s t),
  NoRepeat-snoc t set ns (ground (arith, h)),
)

pub NoRepeat-add_all : (set ts : List Text) → NoRepeat set → NoRepeat (add_all set ts)
NoRepeat-add_all set [] n = n
NoRepeat-add_all set (t ∷ ts) n = elim (Bool-cases (has t set)) [
  | inl old ↦ rw old (NoRepeat-add_all set ts n)
  | inr new ↦ rw new (NoRepeat-add_all (set ++ t ∷ []) ts (NoRepeat-snoc t set n new))
]

pub has-filter :
    (p : Text → Bool) (t : Text) (ts : List Text) → has t (filter p ts) ≡ (has t ts && p t)
has-filter p t [] = refl
has-filter p t (u ∷ ts) = ground (arith, has-filter p t ts, text_eq_iff t u)

keep-NoRepeat :
    (b : Bool) (t : Text) (ts : List Text)
    → has t ts ≡ false
    → NoRepeat ts
    → NoRepeat (elim b [ true ↦ t ∷ ts | false ↦ ts ])
keep-NoRepeat true t ts h n = (h, n)
keep-NoRepeat false t ts h n = n

pub NoRepeat-filter : (p : Text → Bool) (ts : List Text) → NoRepeat ts → NoRepeat (filter p ts)
NoRepeat-filter p [] n = tt
NoRepeat-filter p (t ∷ ts) (n, ns) =
    keep-NoRepeat (p t) t (filter p ts) (ground (arith, n, has-filter p t ts))
      (NoRepeat-filter p ts ns)
