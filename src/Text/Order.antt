-- ===== src/Text/Order.antt =====
-- Equality and order of texts: `===` decides equality, `<` is a strict total order.
use verglos_cli.Prelude.{◌≡◌, refl, ◌↔◌, inl, inr, Bool-cases, true, false, [], ◌∷◌, arith}
use verglos_cli.Text.{Text, text_eq, text_ltb}

pub eq_of_text_eq : (s t : Text) → text_eq s t ≡ true → s ≡ t
eq_of_text_eq [] [] h = refl
eq_of_text_eq [] (d ∷ t) h = cc
eq_of_text_eq (c ∷ s) [] h = cc
eq_of_text_eq (c ∷ s) (d ∷ t) h = ground (arith, eq_of_text_eq s t)

pub text_eq_refl : (s : Text) → text_eq s s ≡ true
text_eq_refl [] = refl
text_eq_refl (c ∷ s) = ground (arith, text_eq_refl s)

pub text_eq_iff : (s t : Text) → (text_eq s t ≡ true) ↔ (s ≡ t)
text_eq_iff s t = (eq_of_text_eq s t, λ e. rw e (text_eq_refl t))

pub text_ltb_irrefl : (s : Text) → text_ltb s s ≡ false
text_ltb_irrefl [] = refl
text_ltb_irrefl (c ∷ s) = ground (arith, text_ltb_irrefl s)

pub text_ltb_trans :
    (s t u : Text) → text_ltb s t ≡ true → text_ltb t u ≡ true → text_ltb s u ≡ true
text_ltb_trans s t [] h k = cc
text_ltb_trans s [] (e ∷ u) h k = cc
text_ltb_trans [] (d ∷ t) (e ∷ u) h k = refl
text_ltb_trans (c ∷ s) (d ∷ t) (e ∷ u) h k = ground (arith, text_ltb_trans s t u)

-- Of two texts neither of which is below the other, both are the same.
pub text_ltb_total : (s t : Text) → text_ltb s t ≡ false → text_ltb t s ≡ false → s ≡ t
text_ltb_total [] [] h k = refl
text_ltb_total [] (d ∷ t) h k = cc
text_ltb_total (c ∷ s) [] h k = cc
text_ltb_total (c ∷ s) (d ∷ t) h k = ground (arith, text_ltb_total s t)

pub text_ltb_asymm : (s t : Text) → text_ltb s t ≡ true → text_ltb t s ≡ false
text_ltb_asymm s [] h = cc
text_ltb_asymm [] (d ∷ t) h = refl
text_ltb_asymm (c ∷ s) (d ∷ t) h = ground (arith, text_ltb_asymm s t)

-- "Not above" is transitive.
pub text_ltb_neg_trans :
    (s t u : Text) → text_ltb u t ≡ false → text_ltb t s ≡ false → text_ltb u s ≡ false
text_ltb_neg_trans s t u h k = elim (Bool-cases (text_ltb u s)) [
  | inr e ↦ e
  | inl e ↦ elim (Bool-cases (text_ltb s t)) [
    | inl f ↦ cc (text_ltb_trans u s t e f)
    | inr f ↦ cc (text_ltb_total s t f k)
  ]
]
