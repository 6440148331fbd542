-- ===== src/LineageGraph/Order.antt =====
-- The order tests of packages/shared/src/lineage-graph.ts against strict order, and sorting.
use verglos_cli.Prelude.{
  ◌≡◌, refl, ◌↔◌, inl, inr, true, false, List, [], ◌∷◌, map, arith, Bool-cases, All, All-map,
}
use verglos_cli.Text.{Text, text_eq, text_ltb}
use verglos_cli.Text.Order.{text_eq_iff, text_ltb_trans, text_ltb_total, text_ltb_asymm}
use verglos_cli.Text.Sets.{has, NoRepeat, repeats-eq-false_iff}
use verglos_cli.Text.Sorting.{
  insert_by, sort_by, IsStrict, All-insert_by, All-sort_by, sort_by-IsStrict,
}
use verglos_cli.LineageGraph.{descends, out_of_order}

text_ltb_ne : (s t : Text) → text_ltb s t ≡ true → text_eq s t ≡ false
text_ltb_ne s t h = ground (arith, text_eq_iff s t, text_ltb_asymm s t)

text_ltb_ne_flipped : (s t : Text) → text_ltb s t ≡ true → text_eq t s ≡ false
text_ltb_ne_flipped s t h = ground (arith, text_eq_iff t s, text_ltb_asymm s t)

module _ {A : Type 0} (key : A → Text) where
  fresh_of :
      (x : A) (xs : List A)
      → All (λ y. text_eq (key x) (key y) ≡ false) xs
      → has (key x) (map key xs) ≡ false
  fresh_of x [] h = refl
  fresh_of x (y ∷ ys) (h, hs) = ground (arith, h, fresh_of x ys hs)

  pub IsStrict-NoRepeat : (xs : List A) → IsStrict key xs → NoRepeat (map key xs)
  IsStrict-NoRepeat [] h = tt
  IsStrict-NoRepeat (x ∷ xs) (h, hs) =
      (fresh_of x xs (All-map (λ y. text_ltb_ne (key x) (key y)) xs h), IsStrict-NoRepeat xs hs)

  ascending : (xs : List A) → IsStrict key xs → descends (map key xs) ≡ false
  ascending [] h = refl
  ascending (x ∷ []) h = refl
  ascending (x ∷ y ∷ ys) ((h, hs), s) =
      ground (arith, text_ltb_asymm (key x) (key y) h, ascending (y ∷ ys) s)

  chain :
      (x y : A) (ys : List A)
      → text_ltb (key x) (key y) ≡ true
      → IsStrict key (y ∷ ys)
      → IsStrict key (x ∷ y ∷ ys)
  chain x y ys h (below, s) =
      ((h, All-map (λ z. text_ltb_trans (key x) (key y) (key z) h) ys below), (below, s))

  descends-IsStrict :
      (xs : List A) → NoRepeat (map key xs) → descends (map key xs) ≡ false → IsStrict key xs
  descends-IsStrict [] n h = tt
  descends-IsStrict (x ∷ []) n h = (tt, tt)
  descends-IsStrict (x ∷ y ∷ ys) (n, ns) h =
      chain x y ys
        (ground (arith, n, h, text_eq_iff (key x) (key y), text_ltb_total (key x) (key y)))
        (descends-IsStrict (y ∷ ys) ns (ground (arith, h)))

  pub out_of_order-eq-false_iff :
      (xs : List A) → (out_of_order (map key xs) ≡ false) ↔ IsStrict key xs
  out_of_order-eq-false_iff xs = (
    λ h.
        descends-IsStrict xs ((repeats-eq-false_iff (map key xs)).0 (ground (arith, h)))
          (ground (arith, h)),
    λ s.
        ground
          (arith, (repeats-eq-false_iff (map key xs)).1 (IsStrict-NoRepeat xs s), ascending xs s),
  )

  IsStrict-insert_by :
      (x : A) (ys : List A)
      → IsStrict key (insert_by key x ys)
      → All (λ y. text_eq (key x) (key y) ≡ false) ys × IsStrict key ys
  IsStrict-insert_by x [] h = (tt, tt)
  IsStrict-insert_by x (y ∷ ys) h = elim (Bool-cases (text_ltb (key y) (key x))) [
    | inl below ↦
        let (first, rest) = rw below at h in
        let (ne, strict) = IsStrict-insert_by x ys rest in
        (
          (text_ltb_ne_flipped (key y) (key x) below, ne),
          (((All-insert_by key _ x ys).0 first).1, strict),
        )
    | inr not_below ↦
        let (first, rest) = rw not_below at h in
        (All-map (λ z. text_ltb_ne (key x) (key z)) (y ∷ ys) first, rest)
  ]

  NoRepeat-sort_by : (xs : List A) → IsStrict key (sort_by key xs) → NoRepeat (map key xs)
  NoRepeat-sort_by [] h = tt
  NoRepeat-sort_by (x ∷ xs) h =
      let (ne, strict) = IsStrict-insert_by x (sort_by key xs) h in
      (fresh_of x xs ((All-sort_by key _ xs).0 ne), NoRepeat-sort_by xs strict)

  -- The sorted list passes the tests exactly where no key occurs twice.
  pub out_of_order-sort_by_iff :
      (xs : List A) → (out_of_order (map key (sort_by key xs)) ≡ false) ↔ NoRepeat (map key xs)
  out_of_order-sort_by_iff xs = (
    λ h. NoRepeat-sort_by xs ((out_of_order-eq-false_iff (sort_by key xs)).0 h),
    λ n. (out_of_order-eq-false_iff (sort_by key xs)).1 (sort_by-IsStrict key xs n),
  )
