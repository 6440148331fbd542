-- ===== src/Schema/Version/Digits.antt =====
-- Decimal digits of a version component (packages/shared/src/schema.ts).
use verglos_cli.Prelude.{
  ℕ, ◌+◌, ◌-◌, ◌*◌, ◌≤◌, ◌<◌, ◌≡◌, refl, sym, ap, ◌∙◌, ◌⊎◌, inl, inr, true, [], ◌∷◌, reverse, arith,
  ◌==◌, Bool-cases, all,
}
use mathlib.Core.List.{reverse_aux, reverse-reverse}
use verglos_cli.Text.{Text}
use verglos_cli.Formats.{is_digit}
use verglos_cli.Schema.Version.{is_component, value}

-- The number that digits spell, the last one first.
abbrev low_first : Text → ℕ
low_first [] = 0
low_first (c ∷ r) = (c - b'0') + 10 * low_first r

-- Digits, the last one first, the first one not zero.
abbrev IsCanonical : Text → Type 0
IsCanonical [] = ⊥
IsCanonical (c ∷ []) = (b'1' ≤ c) × (c ≤ b'9')
IsCanonical (c ∷ d ∷ r) = (b'0' ≤ c) × (c ≤ b'9') × IsCanonical (d ∷ r)

low_first-pos : (r : Text) → IsCanonical r → 0 < low_first r
low_first-pos [] h = absurd h
low_first-pos (c ∷ []) h = omega arith
low_first-pos (c ∷ d ∷ r) (lo, hi, h) = omega (arith, low_first-pos (d ∷ r) h)

low_first-inj : (r s : Text) → IsCanonical r → IsCanonical s → low_first r ≡ low_first s → r ≡ s
low_first-inj [] s h k e = absurd h
low_first-inj (c ∷ r) [] h k e = absurd k
low_first-inj (c ∷ []) (d ∷ []) h k e = let p : c ≡ d = omega arith in rw p
low_first-inj (c ∷ []) (d ∷ f ∷ s) h (lo, hi, k) e = absurd (omega (arith, low_first-pos (f ∷ s) k))
low_first-inj (c ∷ e' ∷ r) (d ∷ []) (lo, hi, h) k e =
    absurd (omega (arith, low_first-pos (e' ∷ r) h))
low_first-inj (c ∷ e' ∷ r) (d ∷ f ∷ s) (lo, hi, h) (lo', hi', k) e =
    let p : c ≡ d = omega arith in
    let q : low_first (e' ∷ r) ≡ low_first (f ∷ s) = omega arith in
    cc (p, low_first-inj (e' ∷ r) (f ∷ s) h k q)

value-low_first : (s r : Text) → value (low_first r) s ≡ low_first (reverse_aux s r)
value-low_first [] r = refl
value-low_first (c ∷ s) r =
    let p : low_first r * 10 + (c - b'0') ≡ low_first (c ∷ r) = omega arith in
    rw p (value-low_first s (c ∷ r))

reverse_aux-IsCanonical :
    (s : Text) (c : ℕ) (r : Text)
    → all is_digit s ≡ true
    → IsCanonical (c ∷ r)
    → IsCanonical (reverse_aux s (c ∷ r))
reverse_aux-IsCanonical [] c r h k = k
reverse_aux-IsCanonical (d ∷ s) c r h k =
    reverse_aux-IsCanonical s d (c ∷ r) (ground arith) (ground arith, ground arith, k)

-- A component is "0", or its reversed digits are canonical.
component_cases :
    (s : Text) → is_component s ≡ true → (s ≡ b'0' ∷ []) ⊎ IsCanonical (reverse_aux s [])
component_cases [] h = cc
component_cases (c ∷ []) h = elim (Bool-cases (c == b'0')) [
  | inl e ↦ inl (ground arith)
  | inr n ↦ inr (ground arith)
]
component_cases (c ∷ d ∷ s) h =
    inr (reverse_aux-IsCanonical (d ∷ s) c [] (ground arith) (ground arith))

reverse_aux-inj : (s t : Text) → reverse_aux s [] ≡ reverse_aux t [] → s ≡ t
reverse_aux-inj s t e = sym (reverse-reverse s) ∙ ap reverse e ∙ reverse-reverse t

pub value-inj :
    (s t : Text) → is_component s ≡ true → is_component t ≡ true → value 0 s ≡ value 0 t → s ≡ t
value-inj s t h k e = go (component_cases s h) (component_cases t k)
  where
    low : low_first (reverse_aux s []) ≡ low_first (reverse_aux t [])
    low = sym (value-low_first s []) ∙ e ∙ value-low_first t []

    zero_value : (u : Text) → u ≡ b'0' ∷ [] → value 0 u ≡ 0
    zero_value u p = rw p

    positive : (u : Text) → IsCanonical (reverse_aux u []) → 0 < value 0 u
    positive u c = rw (value-low_first u []) (low_first-pos (reverse_aux u []) c)

    go :
        (s ≡ b'0' ∷ []) ⊎ IsCanonical (reverse_aux s [])
        → (t ≡ b'0' ∷ []) ⊎ IsCanonical (reverse_aux t [])
        → s ≡ t
    go (inl p) (inl q) = p ∙ sym q
    go (inl p) (inr q) = absurd (omega (arith, zero_value s p, positive t q))
    go (inr p) (inl q) = absurd (omega (arith, zero_value t q, positive s p))
    go (inr p) (inr q) = reverse_aux-inj s t (low_first-inj _ _ p q low)
