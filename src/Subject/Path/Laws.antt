-- ===== src/Subject/Path/Laws.antt =====
-- Where an accepted path leads (RelativeSubjectPathSchema of packages/shared/src/subject.ts).
use verglos_cli.Prelude.{
  both, le_of_leb, ℕ, suc, ◌+◌, ◌*◌, ◌≤◌, ◌≡◌, refl, Bool, true, false, not, ◌||◌, List, [], ◌∷◌,
  ◌++◌, arith, leb, ◌==◌, if◌then◌else◌, length, any, all, All,
}
use verglos_cli.Text.{Text, codes, text_eq}
use verglos_cli.Schema.Version.{split_on, push_unit}
use verglos_cli.Formats.{length_in}
use verglos_cli.Schema.Canonical.{byte_length, valid_unicode}
use verglos_cli.Subject.Path.{
  no_controls, starts_with_slash, has_drive_prefix, is_plain_segment, relative_subject_path,
}

-- A directory is the list of its names, the innermost first. A file system enters an empty segment
-- or "." by staying, ".." by leaving, and any other by going down.
abbrev pub parent : List Text → List Text
parent [] = []
parent (n ∷ ns) = ns

abbrev pub enter : Text → List Text → List Text
enter s dir =
    if text_eq s [] || text_eq s (codes ".")
    then dir
    else if text_eq s (codes "..")
    then parent dir
    else s ∷ dir

-- The directories that a path passes, and where it ends.
abbrev pub visits : List Text → List Text → List (List Text)
visits dir [] = []
visits dir (s ∷ ss) = enter s dir ∷ visits (enter s dir) ss

abbrev pub walk : List Text → List Text → List Text
walk dir [] = dir
walk dir (s ∷ ss) = walk (enter s dir) ss

-- A directory strictly below another one.
pub record IsBelow (base dir : List Text) : Type 0 where
  pub first : Text
  pub names : List Text
  pub path : dir ≡ first ∷ (names ++ base)

enter-plain : (s : Text) (dir : List Text) → is_plain_segment s ≡ true → enter s dir ≡ s ∷ dir
enter-plain s dir h = ground (arith, h)

visits-IsBelow :
    (base names : List Text) (ss : List Text)
    → all is_plain_segment ss ≡ true
    → All (IsBelow base) (visits (names ++ base) ss)
visits-IsBelow base names [] h = tt
visits-IsBelow base names (s ∷ ss) h =
    let down = enter-plain s (names ++ base) (ground (arith, h)) in
    (
      record { first = s; names = names; path = down },
      rw down (visits-IsBelow base (s ∷ names) ss (ground (arith, h))),
    )

-- The names behind each other, the innermost first.
abbrev pub innermost_first : List Text → List Text → List Text
innermost_first [] acc = acc
innermost_first (s ∷ ss) acc = innermost_first ss (s ∷ acc)

walk-plain :
    (dir ss : List Text) → all is_plain_segment ss ≡ true → walk dir ss ≡ innermost_first ss dir
walk-plain dir [] h = refl
walk-plain dir (s ∷ ss) h =
    rw (enter-plain s dir (ground (arith, h))) (walk-plain (s ∷ dir) ss (ground (arith, h)))

-- The units of a list of segments, with one separator behind each.
abbrev total : List Text → ℕ
total [] = 0
total (s ∷ ss) = suc (length s) + total ss

total-push_unit :
    (b : Bool) (d : ℕ) (parts : List Text) (n : ℕ)
    → total parts ≡ suc n
    → total (push_unit b d parts) ≡ suc (suc n)
total-push_unit true d parts n h = omega (arith, h)
total-push_unit false d [] n h = absurd (omega (arith, h))
total-push_unit false d (p ∷ ps) n h = omega (arith, h)

total-split_on : (c : ℕ) (s : Text) → total (split_on c s) ≡ suc (length s)
total-split_on c [] = refl
total-split_on c (d ∷ s) = total-push_unit (d == c) d (split_on c s) (length s) (total-split_on c s)

total-plain : (ss : List Text) → all is_plain_segment ss ≡ true → 2 * length ss ≤ total ss
total-plain [] h = omega arith
total-plain ([] ∷ ss) h = cc
total-plain ((c ∷ s) ∷ ss) h =
    let rest : all is_plain_segment ss ≡ true = ground (arith, h) in
    omega (arith, total-plain ss rest)

module _ (path : Text) (base : List Text) where
  bounds_of :
      relative_subject_path path ≡ true
      → (length path ≤ 4096) × (all is_plain_segment (split_on b'/' path) ≡ true)
  unfolding relative_subject_path
  bounds_of h =
      let (size, h1) = both (length_in 1 4096 path) _ h in
      let (_, h2) = both (leb (byte_length path) 4096) _ h1 in
      let (_, h3) = both (valid_unicode path) _ h2 in
      let (_, h4) = both (no_controls path) _ h3 in
      let (_, h5) = both (not (any (λ c. c == b'\\') path)) _ h4 in
      let (_, h6) = both (not (starts_with_slash path)) _ h5 in
      let (_, h7) = both (not (has_drive_prefix path)) _ h6 in
      let (plain, _) = both (all is_plain_segment (split_on b'/' path)) _ h7 in
      (le_of_leb (length path) 4096 (both (leb 1 (length path)) _ size).1, plain)

  -- An accepted path has at most 4,096 units and at most 2,048 segments; from any directory, every
  -- directory that it passes is strictly below it, and it ends where its segments, one below the
  -- other, lead.
  pub relative_subject_path-IsBelow :
      relative_subject_path path ≡ true
      → (length path ≤ 4096)
        × (length (split_on b'/' path) ≤ 2048)
        × All (IsBelow base) (visits base (split_on b'/' path))
        × (walk base (split_on b'/' path) ≡ innermost_first (split_on b'/' path) base)
  unfolding relative_subject_path
  relative_subject_path-IsBelow h =
      let (short, plain) = bounds_of h in
      let units = total-split_on b'/' path in
      (
        short,
        omega (arith, short, units, total-plain (split_on b'/' path) plain),
        visits-IsBelow base [] (split_on b'/' path) plain,
        walk-plain base (split_on b'/' path) plain,
      )
