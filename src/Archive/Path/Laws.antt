-- ===== src/Archive/Path/Laws.antt =====
-- What reading the segments of a path keeps of the directory that it starts in.
use verglos_cli.Prelude.{
  ℕ, ◌≡◌, refl, sym, ap, ◌≢◌, ◌⊎◌, inl, inr, Bool, true, false, not, ◌||◌, Option, none, some, List,
  [], ◌∷◌, ◌++◌, arith, ◌==◌, if◌then◌else◌, ==_iff, Bool-cases, Option-cases,
}
use mathlib.Core.Path.{subst}
use verglos_cli.Text.{Text, codes, text_eq, starts_with}
use verglos_cli.Text.Sets.{has}
use verglos_cli.Text.Order.{text_eq_iff}
use verglos_cli.Schema.Version.{split_on, push_unit}
use verglos_cli.Schema.Version.Laws.{split_on-ne-nil}
use verglos_cli.Subject.Path.{starts_with_slash}
use verglos_cli.Archive.Path.{
  go_up, read_segment, read_segments, written, ends_with_slash, finish, normalize, join,
}

-- Names that stand below others.
pub record IsWithin (base names : List Text) : Type 0 where
  pub below : List Text
  pub path : names ≡ below ++ base

read_segment-IsWithin :
    (above : Bool) (s : Text) (base names : List Text)
    → text_eq s (codes "..") ≡ false
    → IsWithin base names
    → IsWithin base (read_segment above names s)
read_segment-IsWithin above s base names h w =
    elim (Bool-cases (text_eq s [] || text_eq s (codes "."))) [
      | inl stay ↦ rw stay w
      | inr down ↦ rw (down, h) (record { below = s ∷ w.below; path = ap (λ l. s ∷ l) w.path })
    ]

-- Without a segment "..", no name is taken away.
pub read_segments-IsWithin :
    (above : Bool) (base names ss : List Text)
    → has (codes "..") ss ≡ false
    → IsWithin base names
    → IsWithin base (read_segments above names ss)
read_segments-IsWithin above base names [] h w = w
read_segments-IsWithin above base names (s ∷ ss) h w =
    read_segments-IsWithin above base (read_segment above names s) ss (ground (arith, h)) (
      read_segment-IsWithin above s base names
        (ground (arith, h, text_eq_iff s (codes ".."), text_eq_iff (codes "..") s)) w)

-- Following segments from a directory, none where one of them leaves the root.
abbrev pub leave : List Text → Option (List Text)
leave [] = none
leave (n ∷ ns) = some ns

abbrev pub follow_one : List Text → Text → Option (List Text)
follow_one dir s =
    if text_eq s [] || text_eq s (codes ".")
    then some dir
    else if text_eq s (codes "..")
    then leave dir
    else some (s ∷ dir)

abbrev pub follow : List Text → List Text → Option (List Text)
follow dir [] = some dir
follow dir (s ∷ ss) = elim (follow_one dir s) [ none ↦ none | some next ↦ follow next ss ]

-- The outermost name is "..".
abbrev IsSunk : List Text → Type 0
IsSunk [] = ⊥
IsSunk (n ∷ []) = text_eq n (codes "..") ≡ true
IsSunk (n ∷ m ∷ ns) = IsSunk (m ∷ ns)

go_up-IsSunk : (names : List Text) → IsSunk names → IsSunk (go_up true names)
go_up-IsSunk [] k = absurd k
go_up-IsSunk (n ∷ []) k = rw k k
go_up-IsSunk (n ∷ m ∷ ns) k = elim (Bool-cases (text_eq n (codes ".."))) [
  | inl up ↦ rw up k
  | inr down ↦ rw down k
]

push-IsSunk : (s : Text) (names : List Text) → IsSunk names → IsSunk (s ∷ names)
push-IsSunk s [] k = absurd k
push-IsSunk s (n ∷ ns) k = k

read_segment-IsSunk :
    (names : List Text) (s : Text) → IsSunk names → IsSunk (read_segment true names s)
read_segment-IsSunk names s k = elim (Bool-cases (text_eq s [] || text_eq s (codes "."))) [
  | inl stay ↦ rw stay k
  | inr moves ↦ elim (Bool-cases (text_eq s (codes ".."))) [
    | inl up ↦ rw (moves, up) (go_up-IsSunk names k)
    | inr down ↦ rw (moves, down) (push-IsSunk s names k)
  ]
]

read_segments-IsSunk : (names ss : List Text) → IsSunk names → IsSunk (read_segments true names ss)
read_segments-IsSunk names [] k = k
read_segments-IsSunk names (s ∷ ss) k =
    read_segments-IsSunk (read_segment true names s) ss (read_segment-IsSunk names s k)

-- No name of a directory below the root is "..".
abbrev IsClean : List Text → Type 0
IsClean ns = has (codes "..") ns ≡ false

up-IsSunk :
    (dir ss : List Text)
    → ((ns : List Text) → IsClean ns → follow ns ss ≡ none → IsSunk (read_segments true ns ss))
    → IsClean dir
    → elim (leave dir) [ none ↦ none | some next ↦ follow next ss ] ≡ none
    → IsSunk (read_segments true (go_up true dir) ss)
up-IsSunk [] ss go c h = read_segments-IsSunk (codes ".." ∷ []) ss refl
up-IsSunk (n ∷ ns) ss go c h =
    let named : text_eq n (codes "..") ≡ false =
      ground (arith, c, text_eq_iff n (codes ".."), text_eq_iff (codes "..") n) in
    rw named (go ns (ground (arith, c)) h)

-- Where following fails, what is read begins with "..".
follow-IsSunk :
    (dir ss : List Text) → IsClean dir → follow dir ss ≡ none → IsSunk (read_segments true dir ss)
follow-IsSunk dir [] c h = cc
follow-IsSunk dir (s ∷ ss) c h = elim (Bool-cases (text_eq s [] || text_eq s (codes "."))) [
  | inl stay ↦ rw stay (follow-IsSunk dir ss c (ground (arith, h, stay)))
  | inr moves ↦ elim (Bool-cases (text_eq s (codes ".."))) [
    | inl up ↦
        rw (moves, up)
          (up-IsSunk dir ss (λ ns. follow-IsSunk ns ss) c (ground (arith, h, moves, up)))
    | inr down ↦
        rw (moves, down)
          (follow-IsSunk (s ∷ dir) ss
            (ground (arith, c, down, text_eq_iff s (codes ".."), text_eq_iff (codes "..") s))
            (ground (arith, h, moves, down)))
  ]
]

-- A text that begins by leaving.
abbrev pub climbs : Text → Bool
climbs v = starts_with (codes "../") v || text_eq v (codes "..")

climbs-append : (v n : Text) → climbs v ≡ true → climbs (v ++ b'/' ∷ n) ≡ true
climbs-append [] n h = cc
climbs-append (c ∷ []) n h = ground (arith, h)
climbs-append (c ∷ d ∷ []) n h = ground (arith, h)
climbs-append (c ∷ d ∷ e ∷ v) n h = ground (arith, h)

written-climbs : (names : List Text) → IsSunk names → climbs (written names) ≡ true
written-climbs [] k = absurd k
written-climbs (n ∷ []) k = rw k (ground arith)
written-climbs (n ∷ m ∷ ns) k = climbs-append (written (m ∷ ns)) n (written-climbs (m ∷ ns) k)

climbs-shape :
    (v : Text) → climbs v ≡ true → (v ≡ codes "..") ⊎ ((r : Text) × (v ≡ codes "../" ++ r))
climbs-shape [] h = cc
climbs-shape (c ∷ []) h = absurd (ground (arith, h))
climbs-shape (c ∷ d ∷ []) h = inl (ground (arith, h))
climbs-shape (c ∷ d ∷ e ∷ v) h = inr (v, ground (arith, h))

finish-climbs :
    (trailing : Bool) (v : Text) → climbs v ≡ true → climbs (finish false trailing v) ≡ true
finish-climbs trailing [] h = cc
finish-climbs true (c ∷ v) h = climbs-append (c ∷ v) [] h
finish-climbs false (c ∷ []) h = absurd (ground (arith, h))
finish-climbs false (c ∷ d ∷ []) h = h
finish-climbs false (c ∷ d ∷ e ∷ v) h = ground (arith, h)

-- Normalizing a text again does not bring it back.
normalize-climbs : (v : Text) → climbs v ≡ true → climbs (normalize v) ≡ true
normalize-climbs v h = elim (climbs-shape v h) [
  | inl e ↦ rw e refl
  | inr (r, e) ↦ rw e (
      finish-climbs (ends_with_slash (codes "../" ++ r))
        (written (read_segments true (codes ".." ∷ []) (split_on b'/' r)))
        (written-climbs (read_segments true (codes ".." ∷ []) (split_on b'/' r))
          (read_segments-IsSunk (codes ".." ∷ []) (split_on b'/' r) refl)))
]

append-push_unit :
    (b : Bool) (d : ℕ) (xs ys : List Text)
    → xs ≢ []
    → push_unit b d (xs ++ ys) ≡ push_unit b d xs ++ ys
append-push_unit true d xs ys h = refl
append-push_unit false d [] ys h = absurd (h refl)
append-push_unit false d (x ∷ xs) ys h = refl

split_on-append : (c : ℕ) (s t : Text) → split_on c (s ++ c ∷ t) ≡ split_on c s ++ split_on c t
split_on-append c [] t = rw ((==_iff c c).1 refl) refl
split_on-append c (d ∷ s) t =
    rw (split_on-append c s t)
      (append-push_unit (d == c) d (split_on c s) (split_on c t) (split_on-ne-nil c s))

sunk-climbs :
    (c : ℕ) (s : Text)
    → starts_with_slash (c ∷ s) ≡ false
    → IsSunk (read_segments true [] (split_on b'/' (c ∷ s)))
    → climbs (normalize (c ∷ s)) ≡ true
sunk-climbs c s k sunk =
    let ss = split_on b'/' (c ∷ s) in
    let read : Bool → Text = λ absolute.
      finish absolute (ends_with_slash (c ∷ s)) (written (read_segments (not absolute) [] ss)) in
    subst (λ b. climbs (read b) ≡ true) (sym k)
      (finish-climbs (ends_with_slash (c ∷ s)) (written (read_segments true [] ss))
        (written-climbs (read_segments true [] ss) sunk))

-- A link whose end does not climb is followed, segment by segment, without leaving the root.
pub join-stays :
    (a b : Text)
    → a ≢ []
    → b ≢ []
    → starts_with_slash a ≡ false
    → climbs (normalize (join a b)) ≡ false
    → (dir : List Text) × (follow [] (split_on b'/' a ++ split_on b'/' b) ≡ some dir)
join-stays [] b n m k h = absurd (n refl)
join-stays (c ∷ a) [] n m k h = absurd (m refl)
join-stays (c ∷ a) (d ∷ b) n m k h =
    let ss = split_on b'/' (c ∷ a) ++ split_on b'/' (d ∷ b) in
    elim (Option-cases (follow [] ss)) [
      | inl lost ↦
          let parts = split_on-append b'/' (c ∷ a) (d ∷ b) in
          let sunk =
            sunk-climbs c (a ++ b'/' ∷ d ∷ b) k (rw parts (follow-IsSunk [] ss refl lost)) in
          absurd (cc (h, normalize-climbs (normalize ((c ∷ a) ++ b'/' ∷ d ∷ b)) sunk))
      | inr found ↦ found
    ]
