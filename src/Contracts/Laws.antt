-- ===== src/Contracts/Laws.antt =====
-- When a validation has no issue, and what a parse that succeeds has checked.
use verglos_cli.Prelude.{
  ℕ, suc, ◌≤◌, ◌<◌, ◌≡◌, refl, sym, ap, ◌∙◌, ◌↔◌, inl, inr, Bool, true, false, not, Option, none,
  some, List, [], ◌∷◌, ◌++◌, arith, In, All,
}
use mathlib.Core.Path.{subst}
use verglos_cli.Text.{Text}
use verglos_cli.Contracts.{
  Time, earlier, no_later, is_some, if_present, raise, flat_map_from, Parsed, ok, invalid,
  unreadable, ◌>>=◌, accept_if_clean, assert_compatible,
}

module _ {ℓ} {I : Type ℓ} where
  pub append-eq-nil : (xs ys : List I) → xs ++ ys ≡ [] → (xs ≡ []) × (ys ≡ [])
  append-eq-nil [] ys h = (refl, h)
  append-eq-nil (x ∷ xs) ys h = cc

  abbrev pub IsClear : List (Bool × I) → Type 0
  IsClear [] = Unit
  IsClear ((b, i) ∷ rows) = (b ≡ false) × IsClear rows

  -- No issue is raised exactly where every condition is false.
  pub raise-eq-nil : (rows : List (Bool × I)) → raise rows ≡ [] → IsClear rows
  raise-eq-nil [] h = tt
  raise-eq-nil ((true, i) ∷ rows) h = cc
  raise-eq-nil ((false, i) ∷ rows) h = (refl, raise-eq-nil rows h)

  pub raise_clear : (rows : List (Bool × I)) → IsClear rows → raise rows ≡ []
  raise_clear [] h = refl
  raise_clear ((b, i) ∷ rows) (h, hs) = rw h (raise_clear rows hs)

module _ {I A : Type 0} (f : ℕ → A → List I) where
  pub flat_map_from-eq-nil :
      (n : ℕ) (xs : List A) {x : A} → flat_map_from f n xs ≡ [] → In x xs → (m : ℕ) × (f m x ≡ [])
  flat_map_from-eq-nil n [] h m = absurd m
  flat_map_from-eq-nil n (y ∷ xs) h (inl e) =
      (n, ap (f n) e ∙ (append-eq-nil (f n y) (flat_map_from f (suc n) xs) h).0)
  flat_map_from-eq-nil n (y ∷ xs) h (inr m) =
      flat_map_from-eq-nil (suc n) xs (append-eq-nil (f n y) (flat_map_from f (suc n) xs) h).1 m

  pub flat_map_from_clear :
      (n : ℕ) (xs : List A) → ((m : ℕ) → All (λ x. f m x ≡ []) xs) → flat_map_from f n xs ≡ []
  flat_map_from_clear n [] h = refl
  flat_map_from_clear n (x ∷ xs) h = rw ((h n).0) (flat_map_from_clear (suc n) xs (λ m. (h m).1))

pub ok_injective : {I A : Type 0} {a b : A} → ◌≡◌ {A = Parsed I A} (ok a) (ok b) → a ≡ b
ok_injective e = cc

module _ {I A : Type 0} where
  pub accept-eq-ok :
      (is : List I) (a : A) {b : A} → accept_if_clean is a ≡ ok b → (is ≡ []) × (a ≡ b)
  accept-eq-ok [] a h = (refl, cc)
  accept-eq-ok (i ∷ is) a h = cc

  pub assert_compatible-eq-ok :
      (v : Text) (a : A) {b : A} → assert_compatible {I = I} v a ≡ ok b → a ≡ b
  unfolding assert_compatible
  assert_compatible-eq-ok v a h = ground arith

  -- A validated parse: no issue, a compatible version, and the value itself.
  pub parse-eq-ok :
      (version : A → Text) (is : List I) (a : A) {b : A}
      → (accept_if_clean is a >>= (λ p. assert_compatible (version p) p)) ≡ ok b
      → (is ≡ []) × (a ≡ b) × (assert_compatible {I = I} (version a) a ≡ ok a)
  parse-eq-ok version [] a h =
      let e = assert_compatible-eq-ok (version a) a h in (refl, e, h ∙ sym (ap ok e))
  parse-eq-ok version (i ∷ is) a h = cc

  pub parse_clean :
      (version : A → Text) (is : List I) (a : A)
      → is ≡ []
      → assert_compatible {I = I} (version a) a ≡ ok a
      → (accept_if_clean is a >>= (λ p. assert_compatible (version p) p)) ≡ ok a
  parse_clean version is a h k = rw h k

-- Whether a version is readable does not depend on the value that carries it.
pub assert_compatible_any :
    {I J A B : Type 0} (v : Text) (a : A) (b : B)
    → assert_compatible {I = I} v a ≡ ok a
    → assert_compatible {I = J} v b ≡ ok b
unfolding assert_compatible
assert_compatible_any v a b h = ground arith

-- A bind that succeeds, behind a parser that returns what it is given.
pub >>=-same :
    {I A B : Type 0} (m : Parsed I A) (a : A) (f : A → Parsed I B) {b : B}
    → ((c : A) → m ≡ ok c → a ≡ c)
    → (m >>= f) ≡ ok b
    → (m ≡ ok a) × (f a ≡ ok b)
>>=-same (ok c) a f same h = let e = same c refl in (rw e, rw e h)
>>=-same (invalid is) a f same h = cc
>>=-same (unreadable c) a f same h = cc

-- Both times are read, and the first one is before the second.
abbrev pub Before : Time → Time → Type 0
Before (some a) (some b) = a < b
Before _ _ = ⊥

-- Both times are read, and the first one is the second or before it.
abbrev pub AtMost : Time → Time → Type 0
AtMost (some a) (some b) = a ≤ b
AtMost _ _ = ⊥

-- `Date.parse` makes a number of the timestamp.
abbrev pub IsRead : Time → Type 0
IsRead t = is_some t ≡ true

abbrev pub IsReadIfPresent : Option Time → Type 0
IsReadIfPresent none = Unit
IsReadIfPresent (some t) = IsRead t

pub no_later-eq-false_iff : (a b : Time) → IsRead a → IsRead b → (no_later b a ≡ false) ↔ Before a b
no_later-eq-false_iff none b h k = cc
no_later-eq-false_iff (some a) none h k = cc
no_later-eq-false_iff (some a) (some b) h k = ground arith

pub earlier-eq-false_iff : (a b : Time) → IsRead a → IsRead b → (earlier b a ≡ false) ↔ AtMost a b
earlier-eq-false_iff none b h k = cc
earlier-eq-false_iff (some a) none h k = cc
earlier-eq-false_iff (some a) (some b) h k = ground arith

pub AtMost-earlier : (a b : Time) → AtMost a b → earlier b a ≡ false
AtMost-earlier none b h = absurd h
AtMost-earlier (some a) none h = absurd h
AtMost-earlier (some a) (some b) h = ground arith

pub Before-no_later : (a b : Time) → Before a b → no_later b a ≡ false
Before-no_later none b h = absurd h
Before-no_later (some a) none h = absurd h
Before-no_later (some a) (some b) h = ground arith

pub Before-AtMost : (a b c : Time) → Before a b → AtMost b c → Before a c
Before-AtMost none b c h k = absurd h
Before-AtMost (some a) none c h k = absurd h
Before-AtMost (some a) (some b) none h k = absurd k
Before-AtMost (some a) (some b) (some c) h k = omega (arith, h, k)

pub some_injective : {A : Type 0} {u v : A} → some u ≡ some v → u ≡ v
some_injective e = cc

-- A test that an optional time passes where it is absent, read on the time where there is one.
pub present-AtMost :
    (at : Time) (o : Option Time)
    → IsRead at
    → IsReadIfPresent o
    → if_present (λ t. not (earlier at t)) o ≡ true
    → (t : Time) → o ≡ some t
    → AtMost t at
present-AtMost at none r s h t e = cc
present-AtMost at (some u) r s h t e =
    subst (λ x. AtMost x at) (some_injective e)
      ((earlier-eq-false_iff u at s r).0 (ground (arith, h)))

pub present-Before :
    (at : Time) (o : Option Time)
    → IsRead at
    → IsReadIfPresent o
    → if_present (λ t. not (no_later t at)) o ≡ true
    → (t : Time) → o ≡ some t
    → Before at t
present-Before at none r s h t e = cc
present-Before at (some u) r s h t e =
    subst (Before at) (some_injective e) ((no_later-eq-false_iff at u r s).0 (ground (arith, h)))
