-- ===== src/Archive/Extract/Prepared.antt =====
-- What extractArchiveMembers of packages/shared/src/archive-extractor.ts prepares for the members of
-- an accepted archive.
use verglos_cli.Prelude.{
  ℕ, suc, ◌+◌, ◌≤◌, ◌≡◌, refl, sym, ap, Bool, true, false, not, Option, none, some, List, [], ◌∷◌,
  map, arith, ◌==◌, if◌then◌else◌, length, All,
}
use mathlib.Core.Path.{subst}
use verglos_cli.Text.{Text}
use verglos_cli.Schema.Version.{split_on}
use verglos_cli.Subject.Path.{starts_with_slash}
use verglos_cli.Contracts.{Parsed, ok, invalid, unreadable, ◌>>=◌}
use verglos_cli.Contracts.Laws.{ok_injective}
use verglos_cli.Archive.{
  MemberKind, file, directory, symlink, hardlink, ArchiveMember, limit, traversal, with_slashes,
  size_of,
}
use verglos_cli.Archive.Laws.{total_size, IsInside}
use verglos_cli.Archive.Path.{read_segments}
use verglos_cli.Archive.Path.Laws.{IsWithin, read_segments-IsWithin}
use verglos_cli.Archive.Extract.{
  ArchivePayload, ExtractionError, unsafe, resolve, is_at_or_below, Placed, a_directory, a_file,
  target_of, with_data, by_kind, prepare_one, prepare,
}
use verglos_cli.Archive.Extract.Turned.{turned-has, turn}

abbrev pub bytes_of : Placed → ℕ
bytes_of (a_directory t) = 0
bytes_of (a_file t d) = length d

abbrev pub total_bytes : List Placed → ℕ
total_bytes [] = 0
total_bytes (x ∷ xs) = bytes_of x + total_bytes xs

bind-ok :
    {A B : Type 0} (m : Parsed ExtractionError A) (f : A → Parsed ExtractionError B) {b : B}
    → (m >>= f) ≡ ok b
    → (a : A) × ((m ≡ ok a) × (f a ≡ ok b))
bind-ok (ok a) f h = (a, (refl, h))
bind-ok (invalid is) f h = cc
bind-ok (unreadable c) f h = cc

passes :
    {A : Type 0} (b : Bool) (m : Parsed ExtractionError A) (e : ExtractionError) {a : A}
    → (if b then m else invalid (e ∷ [])) ≡ ok a
    → (b ≡ true) × (m ≡ ok a)
passes true m e h = (refl, h)
passes false m e h = cc

-- What is prepared for a member stands at its target and is no larger than its size.
abbrev Prepares : List Text → Option ℕ → Placed → Type 0
Prepares target size x = (target_of x ≡ target) × (bytes_of x ≤ size_of size)

with_data-Prepares :
    (target : List Text) (size : Option ℕ) (bytes : Option (List ℕ)) (x : Placed)
    → with_data target size bytes ≡ ok x
    → Prepares target size x
with_data-Prepares target size none x h = cc
with_data-Prepares target size (some d) x h =
    let (exact, same) = passes (length d == size_of size) (ok (a_file target d)) (unsafe limit) h in
    subst (Prepares target size) (ok_injective same) (refl, ground (arith, exact))

by_kind-Prepares :
    (k : MemberKind) (target : List Text) (size : Option ℕ) (bytes : Option (List ℕ)) (x : Placed)
    → by_kind k target size bytes ≡ ok x
    → Prepares target size x
by_kind-Prepares directory target size bytes x h =
    subst (Prepares target size) (ok_injective h) (refl, omega arith)
by_kind-Prepares file target size bytes x h = with_data-Prepares target size bytes x h
by_kind-Prepares symlink target size bytes x h = cc
by_kind-Prepares hardlink target size bytes x h = cc

module _ (destination : List Text) where
  pub resolve-IsWithin :
      (m : ArchiveMember) → IsInside m → IsWithin destination (resolve destination m.path)
  resolve-IsWithin m i =
      let relative = unturned m.path i.relative in
      subst
        (λ b.
          IsWithin destination
            (read_segments false (if b then [] else destination) (split_on b'/' m.path)))
        (sym relative)
        (read_segments-IsWithin false destination destination (split_on b'/' m.path)
          (turned-has (split_on b'/' m.path) (split_on b'/' (with_slashes m.path)) (turn m.path)
            i.never_up)
          (record { below = []; path = refl }))
    where
      unturned :
          (p : Text) → starts_with_slash (with_slashes p) ≡ false → starts_with_slash p ≡ false
      unturned [] h = refl
      unturned (c ∷ p) h = ground (arith, h)

  prepare_one-Prepares :
      (p : ArchivePayload) (x : Placed)
      → prepare_one destination p ≡ ok x
      → Prepares (resolve destination p.member.path) p.member.size x
  prepare_one-Prepares p x h =
      let target = resolve destination p.member.path in
      by_kind-Prepares p.member.kind target p.member.size p.bytes x (
        refuses-not (is_at_or_below destination target)
          (by_kind p.member.kind target p.member.size p.bytes) h)
    where
      refuses-not :
          (b : Bool) (m : Parsed ExtractionError Placed)
          → (if not b then invalid (unsafe traversal ∷ []) else m) ≡ ok x
          → m ≡ ok x
      refuses-not true m h = h
      refuses-not false m h = cc

  abbrev Prepared : List ArchivePayload → List Placed → Type 0
  Prepared ps xs =
      All (λ x. IsWithin destination (target_of x)) xs
      × ((length xs ≡ length (map (λ p. p.member) ps))
          × (total_bytes xs ≤ total_size (map (λ p. p.member) ps)))

  pub prepare-Prepared :
      (ps : List ArchivePayload) (xs : List Placed)
      → All IsInside (map (λ p. p.member) ps)
      → prepare destination ps ≡ ok xs
      → Prepared ps xs
  prepare-Prepared [] xs a h = subst (Prepared []) (ok_injective h) (tt, (refl, omega arith))
  prepare-Prepared (p ∷ ps) xs (i, a) h =
      let (x, (hx, h1)) = bind-ok (prepare_one destination p) _ h in
      let (rest, (hr, h2)) = bind-ok (prepare destination ps) _ h1 in
      let (at_target, no_larger) = prepare_one-Prepares p x hx in
      let (inside, (count, small)) = prepare-Prepared ps rest a hr in
      subst (Prepared (p ∷ ps)) (ok_injective h2) (
        (subst (IsWithin destination) (sym at_target) (resolve-IsWithin p.member i), inside),
        (ap suc count, omega (arith, no_larger, small)),
      )
