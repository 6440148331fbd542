-- ===== src/Prelude/Members.antt =====
-- Membership in the lists that `filter`, `map`, `some` and `every` read.
use mathlib.Core.Path.{◌≡◌, refl, sym, ap, ◌∙◌, subst}
use mathlib.Core.Bool.{Bool, true, false}
use mathlib.Core.Logic.{inl, inr}
use mathlib.Core.List.{List, [], ◌∷◌, map}
use native.Mathlib.Omega.{arith}
use verglos_cli.Prelude.Lists.{any, all, filter, In}
use verglos_cli.Prelude.Inversion.{both}

pub In-map : {A B : Type 0} (key : A → B) (xs : List A) (a : A) → In a xs → In (key a) (map key xs)
In-map key [] a m = absurd m
In-map key (x ∷ xs) a (inl e) = inl (ap key e)
In-map key (x ∷ xs) a (inr n) = inr (In-map key xs a n)

pub In-filter_of :
    {A : Type 0} (p : A → Bool) (xs : List A) (a : A) → In a xs → p a ≡ true → In a (filter p xs)
In-filter_of p [] a m h = absurd m
In-filter_of p (x ∷ xs) a (inl e) h =
    subst (λ b. In a (elim b [ true ↦ x ∷ filter p xs | false ↦ filter p xs ]))
      (sym (sym (ap p e) ∙ h)) (inl e)
In-filter_of p (x ∷ xs) a (inr n) h = keep (p x) (In-filter_of p xs a n h)
  where
    keep :
        (b : Bool)
        → In a (filter p xs)
        → In a (elim b [ true ↦ x ∷ filter p xs | false ↦ filter p xs ])
    keep true k = inr k
    keep false k = k

pub filter-passes :
    {A : Type 0} (p : A → Bool) (xs : List A) (a : A) → In a (filter p xs) → In a xs × (p a ≡ true)
filter-passes p [] a m = absurd m
filter-passes p (x ∷ xs) a m = pick (filter-passes p xs a) (p x) refl m
  where
    pick :
        (In a (filter p xs) → In a xs × (p a ≡ true))
        → (b : Bool) → p x ≡ b
        → In a (elim b [ true ↦ x ∷ filter p xs | false ↦ filter p xs ])
        → In a (x ∷ xs) × (p a ≡ true)
    pick later true e (inl s) = (inl s, ap p s ∙ e)
    pick later true e (inr n) = (inr (later n).0, (later n).1)
    pick later false e n = (inr (later n).0, (later n).1)

pub all-In :
    {A : Type 0} (p : A → Bool) (xs : List A) (a : A) → all p xs ≡ true → In a xs → p a ≡ true
all-In p [] a h m = absurd m
all-In p (x ∷ xs) a h (inl e) = ap p e ∙ (both (p x) (all p xs) h).0
all-In p (x ∷ xs) a h (inr n) = all-In p xs a (both (p x) (all p xs) h).1 n

pub any-In :
    {A : Type 0} (p : A → Bool) (xs : List A) (a : A) → In a xs → p a ≡ true → any p xs ≡ true
any-In p [] a m h = absurd m
any-In p (x ∷ xs) a (inl e) h = rw (sym (ap p e) ∙ h) refl
any-In p (x ∷ xs) a (inr n) h = ground (arith, any-In p xs a n h)
