-- ===== src/Text/Sorting.antt =====
-- `Array.prototype.sort` with a comparator that orders items by a text key: a stable insertion sort.
use verglos_cli.Prelude.{
  suc, ◌≡◌, refl, sym, ap, ◌∙◌, ◌↔◌, ◌⊎◌, inl, inr, Bool, true, false, ◌||◌, List, [], ◌∷◌, map,
  arith, if◌then◌else◌, Bool-cases, length, any, In, All, All-map, All-In,
}
use mathlib.Core.Path.{ap₂}
use verglos_cli.Text.{Text, text_eq, text_ltb}
use verglos_cli.Text.Order.{
  text_ltb_neg_trans, text_ltb_trans, text_ltb_total, text_ltb_asymm, text_eq_iff,
}
use verglos_cli.Text.Sets.{has, NoRepeat}

not_both : (s t : Text) → text_ltb s t ≡ true → text_ltb t s ≡ true → ⊥
not_both s t h k = cc (text_ltb_asymm s t h)

text_ltb_of_ne : (s t : Text) → text_eq s t ≡ false → text_ltb t s ≡ false → text_ltb s t ≡ true
text_ltb_of_ne s t n h = ground (arith, text_eq_iff s t, text_ltb_total s t)

module _ {A : Type 0} (key : A → Text) where
  -- Before the first item whose key is not below; items of one key keep their order.
  abbrev pub insert_by : A → List A → List A
  insert_by x [] = x ∷ []
  insert_by x (y ∷ ys) = if text_ltb (key y) (key x) then y ∷ insert_by x ys else x ∷ y ∷ ys

  abbrev pub sort_by : List A → List A
  sort_by [] = []
  sort_by (x ∷ xs) = insert_by x (sort_by xs)

  -- Every item stands below those after it.
  abbrev pub IsStrict : List A → Type 0
  IsStrict [] = Unit
  IsStrict (x ∷ xs) = All (λ y. text_ltb (key x) (key y) ≡ true) xs × IsStrict xs

  -- No item stands above one after it.
  abbrev pub IsSorted : List A → Type 0
  IsSorted [] = Unit
  IsSorted (x ∷ xs) = All (λ y. text_ltb (key y) (key x) ≡ false) xs × IsSorted xs

  later :
      (x y : A) (xs ys : List A)
      → All (λ z. text_ltb (key x) (key z) ≡ true) xs
      → x ≡ y
      → (a : A) → In a xs
      → (a ≡ y) ⊎ In a ys
      → In a ys
  later x y xs ys h head a m (inr n) = n
  later x y xs ys h head a m (inl p) =
      let below : text_ltb (key x) (key a) ≡ true = All-In _ xs h m in
      let same : a ≡ x = p ∙ sym head in
      absurd (not_both (key x) (key x) (rw same at below) (rw same at below))

  pub All-insert_by :
      (P : A → Type 0) (x : A) (ys : List A) → All P (insert_by x ys) ↔ (P x × All P ys)
  All-insert_by P x [] = ground arith
  All-insert_by P x (y ∷ ys) = elim (Bool-cases (text_ltb (key y) (key x))) [
    | inl below ↦ rw below (
      (λ (p, ps). let (px, pys) = (All-insert_by P x ys).0 ps in (px, (p, pys))),
      λ (px, pys). (pys.0, (All-insert_by P x ys).1 (px, pys.1)),
    )
    | inr not_below ↦ rw not_below ((λ (px, ps). (px, ps)), λ (px, ps). (px, ps))
  ]

  pub All-sort_by : (P : A → Type 0) (xs : List A) → All P (sort_by xs) ↔ All P xs
  All-sort_by P [] = ((λ h. h), λ h. h)
  All-sort_by P (x ∷ xs) = (
    (λ h. let (px, ps) = (All-insert_by P x (sort_by xs)).0 h in (px, (All-sort_by P xs).0 ps)),
    λ (px, ps). (All-insert_by P x (sort_by xs)).1 (px, (All-sort_by P xs).1 ps),
  )

  pub In-insert_by : (a x : A) (ys : List A) → In a (insert_by x ys) ↔ ((a ≡ x) ⊎ In a ys)
  In-insert_by a x [] = ground arith
  In-insert_by a x (y ∷ ys) = ground (arith, In-insert_by a x ys)

  pub In-sort_by : (a : A) (xs : List A) → In a (sort_by xs) ↔ In a xs
  In-sort_by a [] = ground arith
  In-sort_by a (x ∷ xs) = ground (arith, In-insert_by a x (sort_by xs), In-sort_by a xs)

  length-insert_by : (x : A) (ys : List A) → length (insert_by x ys) ≡ suc (length ys)
  length-insert_by x [] = refl
  length-insert_by x (y ∷ ys) = ground (arith, length-insert_by x ys)

  pub length-sort_by : (xs : List A) → length (sort_by xs) ≡ length xs
  length-sort_by [] = refl
  length-sort_by (x ∷ xs) = omega (arith, length-insert_by x (sort_by xs), length-sort_by xs)

  insert_by-IsSorted : (x : A) (ys : List A) → IsSorted ys → IsSorted (insert_by x ys)
  insert_by-IsSorted x [] h = (tt, tt)
  insert_by-IsSorted x (y ∷ ys) (h, s) = elim (Bool-cases (text_ltb (key y) (key x))) [
    | inl below ↦ rw below (
      (All-insert_by _ x ys).1 (text_ltb_asymm (key y) (key x) below, h),
      insert_by-IsSorted x ys s,
    )
    | inr not_below ↦ rw not_below (
      (not_below, All-map (λ z k. text_ltb_neg_trans (key x) (key y) (key z) k not_below) ys h),
      (h, s),
    )
  ]

  pub sort_by-IsSorted : (xs : List A) → IsSorted (sort_by xs)
  sort_by-IsSorted [] = tt
  sort_by-IsSorted (x ∷ xs) = insert_by-IsSorted x (sort_by xs) (sort_by-IsSorted xs)

  insert_by-IsStrict :
      (x : A) (ys : List A)
      → All (λ y. text_eq (key x) (key y) ≡ false) ys
      → IsStrict ys
      → IsStrict (insert_by x ys)
  insert_by-IsStrict x [] n h = (tt, tt)
  insert_by-IsStrict x (y ∷ ys) (n, ns) (h, s) = elim (Bool-cases (text_ltb (key y) (key x))) [
    | inl below ↦ rw below ((All-insert_by _ x ys).1 (below, h), insert_by-IsStrict x ys ns s)
    | inr not_below ↦
        let above : text_ltb (key x) (key y) ≡ true = text_ltb_of_ne (key x) (key y) n not_below in
        rw not_below
          ((above, All-map (λ z k. text_ltb_trans (key x) (key y) (key z) above k) ys h), (h, s))
  ]

  distinct_keys :
      (x : A) (xs : List A)
      → has (key x) (map key xs) ≡ false
      → All (λ y. text_eq (key x) (key y) ≡ false) xs
  distinct_keys x [] h = tt
  distinct_keys x (y ∷ ys) h = ground (arith, distinct_keys x ys)

  -- With distinct keys the sorted list is strictly ordered.
  pub sort_by-IsStrict : (xs : List A) → NoRepeat (map key xs) → IsStrict (sort_by xs)
  sort_by-IsStrict [] h = tt
  sort_by-IsStrict (x ∷ xs) (n, ns) =
      insert_by-IsStrict x (sort_by xs) ((All-sort_by _ xs).1 (distinct_keys x xs n))
        (sort_by-IsStrict xs ns)

  -- A strictly ordered list is determined by its members.
  pub IsStrict-unique :
      (xs ys : List A) → IsStrict xs → IsStrict ys → ((a : A) → In a xs ↔ In a ys) → xs ≡ ys
  IsStrict-unique [] [] h k e = refl
  IsStrict-unique [] (y ∷ ys) h k e = absurd ((e y).1 (inl refl))
  IsStrict-unique (x ∷ xs) [] h k e = absurd ((e x).0 (inl refl))
  IsStrict-unique (x ∷ xs) (y ∷ ys) (h, hs) (k, ks) e =
      let head : x ≡ y = heads ((e x).0 (inl refl)) ((e y).1 (inl refl)) in
      ap₂ (λ (a : A) (l : List A). a ∷ l) head
        (IsStrict-unique xs ys hs ks λ a. (
          (λ m. later x y xs ys h head a m ((e a).0 (inr m))),
          λ m. later y x ys xs k (sym head) a m ((e a).1 (inr m)),
        ))
    where
      heads : (x ≡ y) ⊎ In x ys → (y ≡ x) ⊎ In y xs → x ≡ y
      heads (inl p) _ = p
      heads (inr m) (inl q) = sym q
      heads (inr m) (inr n) = absurd (not_both (key x) (key y) (All-In _ xs h n) (All-In _ ys k m))

  -- Two lists of the same items, with distinct keys, are sorted alike.
  pub sort_by-eq :
      (xs ys : List A)
      → NoRepeat (map key xs)
      → NoRepeat (map key ys)
      → ((a : A) → In a xs ↔ In a ys)
      → sort_by xs ≡ sort_by ys
  sort_by-eq xs ys h k e =
      IsStrict-unique (sort_by xs) (sort_by ys) (sort_by-IsStrict xs h) (sort_by-IsStrict ys k)
        λ a. ground (arith, In-sort_by a xs, In-sort_by a ys, e a)

  any-insert_by : (p : A → Bool) (x : A) (ys : List A) → any p (insert_by x ys) ≡ (p x || any p ys)
  any-insert_by p x [] = refl
  any-insert_by p x (y ∷ ys) = ground (arith, any-insert_by p x ys)

  pub any-sort_by : (p : A → Bool) (xs : List A) → any p (sort_by xs) ≡ any p xs
  any-sort_by p [] = refl
  any-sort_by p (x ∷ xs) = any-insert_by p x (sort_by xs) ∙ ap (λ b. p x || b) (any-sort_by p xs)
