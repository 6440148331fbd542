-- ===== src/Archive/Extract/Complete.antt =====
-- When an extraction succeeds, and what it has placed then
-- (packages/shared/src/archive-extractor.ts).
use verglos_cli.Prelude.{
  ℕ, suc, ◌≡◌, refl, sym, ap, ◌∙◌, ◌⊎◌, inl, inr, ==_iff, Bool, true, false, Option, none, some,
  List, [], ◌∷◌, ◌++◌, map, arith, Bool-cases, length, All, All-append,
}
use mathlib.Core.List.{append-nil, append_assoc}
use verglos_cli.Text.{Text}
use verglos_cli.Text.Order.{text_eq_iff}
use verglos_cli.Contracts.{ok}
use verglos_cli.Archive.{MemberKind, file, directory, ArchiveLimits, validate_archive_members}
use verglos_cli.Archive.Laws.{IsInside, validate_archive_members-IsSafe}
use verglos_cli.Archive.Extract.{
  ArchivePayload, resolve, names_eq, is_at_or_below, Placed, a_directory, a_file, by_kind,
  prepare_one, prepare, blocks, is_taken, finished, place, extract_archive_members,
}
use verglos_cli.Archive.Path.Laws.{IsWithin}
use verglos_cli.Archive.Extract.Prepared.{resolve-IsWithin}

-- What a payload is placed as: a directory, or a file with exactly the bytes that its size says.
pub record PlacedAs (destination : List Text) (p : ArchivePayload) (x : Placed) : Type 0 where
  pub how :
      ((p.member.kind ≡ directory) × (x ≡ a_directory (resolve destination p.member.path)))
      ⊎ ((p.member.kind ≡ file)
          × ((d : List ℕ) × ((p.bytes ≡ some d)
                × ((p.member.size ≡ some (length d))
                    × (x ≡ a_file (resolve destination p.member.path) d)))))

-- One for each payload, in their order.
abbrev pub AllPlacedAs : List Text → List ArchivePayload → List Placed → Type 0
AllPlacedAs destination [] [] = Unit
AllPlacedAs destination (p ∷ ps) (x ∷ xs) = PlacedAs destination p x × AllPlacedAs destination ps xs
AllPlacedAs destination _ _ = ⊥

-- No file stands at or above the target of the other.
abbrev pub Clear : Placed → Placed → Type 0
Clear (a_directory u) (a_directory t) = Unit
Clear (a_directory u) (a_file t d) = ¬ IsWithin t u
Clear (a_file u c) (a_directory t) = ¬ IsWithin u t
Clear (a_file u c) (a_file t d) = (¬ IsWithin u t) × (¬ IsWithin t u)

-- No file stands at or above another target.
abbrev pub Apart : List Placed → Type 0
Apart [] = Unit
Apart (x ∷ xs) = All (Clear x) xs × Apart xs

names_eq_refl : (ns : List Text) → names_eq ns ns ≡ true
names_eq_refl [] = refl
names_eq_refl (n ∷ ns) = rw ((text_eq_iff n n).1 refl) (names_eq_refl ns)

below-is_at_or_below :
    (destination below : List Text) → is_at_or_below destination (below ++ destination) ≡ true
below-is_at_or_below [] [] = refl
below-is_at_or_below (n ∷ ns) [] = rw ((text_eq_iff n n).1 refl, names_eq_refl ns) refl
below-is_at_or_below destination (n ∷ ns) = ground (arith, below-is_at_or_below destination ns)

by_kind-placed :
    (k : MemberKind) (t : List Text) (size : Option ℕ) (bytes : Option (List ℕ)) (x : Placed)
    → ((k ≡ directory) × (x ≡ a_directory t))
      ⊎ ((k ≡ file)
          × ((d : List ℕ) × ((bytes ≡ some d) × ((size ≡ some (length d)) × (x ≡ a_file t d)))))
    → by_kind k t size bytes ≡ ok x
by_kind-placed k t size bytes x (inl (ek, ex)) = rw (ek, ex) refl
by_kind-placed k t size bytes x (inr (ek, (d, (eb, (es, ex))))) =
    rw (ek, eb, es, ex) (rw ((==_iff (length d) (length d)).1 refl) refl)

prepare_one-placed :
    (destination : List Text) (p : ArchivePayload) (x : Placed)
    → IsInside p.member
    → PlacedAs destination p x
    → prepare_one destination p ≡ ok x
prepare_one-placed destination p x i a =
    let w = resolve-IsWithin destination p.member i in
    let inside : is_at_or_below destination (resolve destination p.member.path) ≡ true =
      ap (is_at_or_below destination) w.path ∙ below-is_at_or_below destination w.below in
    rw inside (
      by_kind-placed p.member.kind (resolve destination p.member.path) p.member.size p.bytes x
        a.how)

prepare-placed :
    (destination : List Text) (ps : List ArchivePayload) (xs : List Placed)
    → All IsInside (map (λ p. p.member) ps)
    → AllPlacedAs destination ps xs
    → prepare destination ps ≡ ok xs
prepare-placed destination [] [] i a = refl
prepare-placed destination [] (x ∷ xs) i a = absurd a
prepare-placed destination (p ∷ ps) [] i a = absurd a
prepare-placed destination (p ∷ ps) (x ∷ xs) (i, rest) (a, more) =
    rw (prepare_one-placed destination p x i a, prepare-placed destination ps xs rest more) refl

eq_of_names_eq : (ms ns : List Text) → names_eq ms ns ≡ true → ms ≡ ns
eq_of_names_eq [] [] h = refl
eq_of_names_eq [] (n ∷ ns) h = cc
eq_of_names_eq (m ∷ ms) [] h = cc
eq_of_names_eq (m ∷ ms) (n ∷ ns) h =
    λ i. (text_eq_iff m n).0 (ground (arith, h)) i ∷ eq_of_names_eq ms ns (ground (arith, h)) i

at_or_below-IsWithin : (u t : List Text) → is_at_or_below u t ≡ true → IsWithin u t
at_or_below-IsWithin u [] h = record { below = []; path = sym (eq_of_names_eq u [] h) }
at_or_below-IsWithin u (n ∷ ns) h = elim (Bool-cases (names_eq u (n ∷ ns))) [
  | inl e ↦ record { below = []; path = sym (eq_of_names_eq u (n ∷ ns) e) }
  | inr e ↦
      let w = at_or_below-IsWithin u ns (ground (arith, e, h)) in
      record { below = n ∷ w.below; path = ap (λ l. n ∷ l) w.path }
]

outside : (u t : List Text) → (¬ IsWithin u t) → is_at_or_below u t ≡ false
outside u t h = elim (Bool-cases (is_at_or_below u t)) [
  | inl e ↦ absurd (h (at_or_below-IsWithin u t e))
  | inr e ↦ e
]

pub not_below : (u t : List Text) → is_at_or_below u t ≡ false → ¬ IsWithin u t
not_below u t h w =
    let below : is_at_or_below u t ≡ true =
      ap (is_at_or_below u) w.path ∙ below-is_at_or_below u w.below in
    cc (h, below)

blocks-Clear : (y x : Placed) → Clear y x → blocks y x ≡ false
blocks-Clear (a_directory u) (a_directory t) c = refl
blocks-Clear (a_directory u) (a_file t d) c = outside t u c
blocks-Clear (a_file u e) (a_directory t) c = outside u t c
blocks-Clear (a_file u e) (a_file t d) (c, k) = ground (arith, outside u t c, outside t u k)

is_taken-Clear :
    (x : Placed) (placed : List Placed) → All (λ y. Clear y x) placed → is_taken x placed ≡ false
is_taken-Clear x [] a = refl
is_taken-Clear x (y ∷ ys) (h, a) = rw (blocks-Clear y x h) (is_taken-Clear x ys a)

abbrev Free : List Placed → List Placed → Type 0
Free placed xs = All (λ x. All (λ y. Clear y x) placed) xs

Free-snoc :
    (placed : List Placed) (x : Placed) (xs : List Placed)
    → Free placed xs
    → All (Clear x) xs
    → Free (placed ++ x ∷ []) xs
Free-snoc placed x [] a b = tt
Free-snoc placed x (y ∷ ys) (a, more) (b, rest) =
    (All-append (λ z. Clear z y) placed (x ∷ []) a (b, tt), Free-snoc placed x ys more rest)

place-Apart :
    (destination : List Text) (go : ℕ → Bool) (n : ℕ) (placed xs : List Placed)
    → ((m : ℕ) → go m ≡ true)
    → Free (a_directory destination ∷ placed) xs
    → Apart xs
    → place destination go n placed xs ≡ finished (placed ++ xs)
place-Apart destination go n placed [] g a b = ap finished (sym (append-nil placed))
place-Apart destination go n placed (x ∷ xs) g (a, more) (b, rest) =
    rw (g n, is_taken-Clear x (a_directory destination ∷ placed) a)
      (place-Apart destination go (suc n) (placed ++ x ∷ []) xs g
          (Free-snoc (a_directory destination ∷ placed) x xs more b) rest
        ∙ ap finished (append_assoc placed (x ∷ []) xs))

-- An archive that is accepted, of directories and of files with exactly their bytes, of which no file
-- is to stand at or above another target or at the destination itself, is extracted to a destination
-- where nothing stands, if every call on files goes through: then all of it is placed, in the order of
-- the members.
pub extract_archive_members_complete :
    (go : ℕ → Bool) (clean_up : List Placed → Option (List Placed)) (destination : List Text)
    (ps : List ArchivePayload) (limits : ArchiveLimits) (xs : List Placed)
    → validate_archive_members (map (λ p. p.member) ps) limits ≡ none
    → AllPlacedAs destination ps xs
    → Apart (a_directory destination ∷ xs)
    → ((m : ℕ) → go m ≡ true)
    → extract_archive_members go clean_up none destination ps limits ≡ (some xs, ok tt)
unfolding extract_archive_members
extract_archive_members_complete go clean_up destination ps limits xs accepted placed (free, apart)
      goes =
    let safe = validate_archive_members-IsSafe (map (λ p. p.member) ps) limits accepted in
    rw
      (
        accepted,
        prepare-placed destination ps xs safe.inside placed,
        goes 0,
        place-Apart destination go 1 [] xs goes (unplaced xs free) apart,
      )
      refl
  where
    unplaced :
        (xs : List Placed)
        → All (Clear (a_directory destination)) xs
        → Free (a_directory destination ∷ []) xs
    unplaced [] a = tt
    unplaced (x ∷ xs) (a, more) = ((a, tt), unplaced xs more)
