-- ===== src/Archive/Extract.antt =====
-- extractArchiveMembers of packages/shared/src/archive-extractor.ts on a POSIX system. A directory is
-- the list of its names, the innermost first. The disk is what stands at the destination: nothing, or
-- what has been placed there; the directories that lead to the destination are not followed. One
-- argument says for which members the calls on files go through (and, at 0, whether the destination
-- can be made), and another what the clean-up leaves of a destination, where none is nothing. The
-- model itself refuses a call where something that it would write over, or a file on the way to the
-- target, stands already.
pub mod Turned
pub mod Prepared
pub mod Laws
pub mod Complete
use verglos_cli.Prelude.{
  ℕ, suc, Bool, true, false, not, ◌&&◌, ◌||◌, Option, none, some, List, [], ◌∷◌, ◌++◌, map, ◌==◌,
  if◌then◌else◌, length,
}
use verglos_cli.Text.{Text, text_eq}
use verglos_cli.Contracts.{Parsed, ok, invalid, unreadable, ◌>>=◌}
use verglos_cli.Schema.Version.{split_on}
use verglos_cli.Subject.Path.{starts_with_slash}
use verglos_cli.Archive.{
  MemberKind, file, directory, symlink, hardlink, ArchiveMember, ArchiveError, ArchiveLimits,
  traversal, limit, size_of, validate_archive_members,
}
use verglos_cli.Archive.Path.{read_segments}

pub record ArchivePayload : Type 0 where
  pub member : ArchiveMember
  pub bytes : Option (List ℕ)

pub data ExtractionError : Type 0 where
  unsafe : ArchiveError → ExtractionError
  unsupported_link missing_data not_created write_failed not_removed : ExtractionError

abbrev fail {ℓ} : {A : Type ℓ} → ExtractionError → Parsed ExtractionError A
fail e = invalid (e ∷ [])

abbrev pub names_eq : List Text → List Text → Bool
names_eq [] [] = true
names_eq [] (n ∷ ns) = false
names_eq (m ∷ ms) [] = false
names_eq (m ∷ ms) (n ∷ ns) = text_eq m n && names_eq ms ns

-- `resolve(destination, path)`
abbrev pub resolve : List Text → Text → List Text
resolve destination path =
    read_segments false (if starts_with_slash path then [] else destination) (split_on b'/' path)

-- `relative(destination, target)` does not begin by leaving.
abbrev pub is_at_or_below : List Text → List Text → Bool
is_at_or_below destination [] = names_eq destination []
is_at_or_below destination (n ∷ ns) = names_eq destination (n ∷ ns) || is_at_or_below destination ns

-- What is placed at a target: a directory, or a file with its data.
pub data Placed : Type 0 where
  a_directory : List Text → Placed
  a_file : List Text → List ℕ → Placed

abbrev pub target_of : Placed → List Text
target_of (a_directory t) = t
target_of (a_file t d) = t

-- The file of a member with this payload.
abbrev pub with_data : List Text → Option ℕ → Option (List ℕ) → Parsed ExtractionError Placed
with_data target size none = fail missing_data
with_data target size (some d) =
    if length d == size_of size then ok (a_file target d) else fail (unsafe limit)

abbrev pub by_kind :
    MemberKind → List Text → Option ℕ → Option (List ℕ) → Parsed ExtractionError Placed
by_kind directory target size bytes = ok (a_directory target)
by_kind file target size bytes = with_data target size bytes
by_kind symlink target size bytes = fail unsupported_link
by_kind hardlink target size bytes = fail unsupported_link

abbrev pub prepare_one : List Text → ArchivePayload → Parsed ExtractionError Placed
prepare_one destination p =
    let target = resolve destination p.member.path in
    if not (is_at_or_below destination target)
    then fail (unsafe traversal)
    else by_kind p.member.kind target p.member.size p.bytes

abbrev pub prepare : List Text → List ArchivePayload → Parsed ExtractionError (List Placed)
prepare destination [] = ok []
prepare destination (p ∷ ps) = do
  first ← prepare_one destination p
  rest ← prepare destination ps
  ok (first ∷ rest)

-- Whether what stands keeps the next thing from being placed: no directory is made where a file stands
-- at or above it, as `mkdir` makes those that lead to the target too, and no file is written where
-- anything stands, be it only as a directory that leads to what was placed.
abbrev pub blocks : Placed → Placed → Bool
blocks (a_directory u) (a_directory t) = false
blocks (a_directory u) (a_file t d) = is_at_or_below t u
blocks (a_file u c) (a_directory t) = is_at_or_below u t
blocks (a_file u c) (a_file t d) = is_at_or_below u t || is_at_or_below t u

abbrev pub is_taken : Placed → List Placed → Bool
is_taken x [] = false
is_taken x (y ∷ ys) = blocks y x || is_taken x ys

-- The loop of writes is finished, or an error has stopped it; with what was placed.
pub data Placement : Type 0 where
  finished stopped : List Placed → Placement

-- The loop of writes into the destination, which stands as a directory, the n-th member next.
abbrev pub place : List Text → (ℕ → Bool) → ℕ → List Placed → List Placed → Placement
place destination goes_through n placed [] = finished placed
place destination goes_through n placed (x ∷ xs) =
    let rest = place destination goes_through (suc n) (placed ++ x ∷ []) xs in
    if goes_through n && not (is_taken x (a_directory destination ∷ placed))
    then rest
    else stopped placed

abbrev pub Outcome : Type 0
Outcome = Option (List Placed) × Parsed ExtractionError Unit

-- An error of the clean-up takes the place of the one that it follows.
abbrev pub removed : Option (List Placed) → Outcome
removed none = (none, fail write_failed)
removed (some left) = (some left, fail not_removed)

abbrev pub written_or_removed : (List Placed → Option (List Placed)) → Placement → Outcome
written_or_removed clean_up (finished placed) = (some placed, ok tt)
written_or_removed clean_up (stopped placed) = removed (clean_up placed)

module _ (goes_through : ℕ → Bool) (clean_up : List Placed → Option (List Placed)) where
  -- The destination is made, which must not exist, and the members are written.
  abbrev pub write_all : List Text → Option (List Placed) → List Placed → Outcome
  write_all destination (some old) xs = (some old, fail not_created)
  write_all destination none xs =
      if goes_through 0
      then written_or_removed clean_up (place destination goes_through 1 [] xs)
      else (none, fail not_created)

  abbrev pub after_preparing :
      List Text → Option (List Placed) → Parsed ExtractionError (List Placed) → Outcome
  after_preparing destination disk (ok xs) = write_all destination disk xs
  after_preparing destination disk (invalid is) = (disk, invalid is)
  after_preparing destination disk (unreadable c) = (disk, unreadable c)

  abbrev after_validation :
      List Text
      → Option (List Placed)
      → Option ArchiveError
      → Parsed ExtractionError (List Placed)
      → Outcome
  after_validation destination disk (some e) prepared = (disk, fail (unsafe e))
  after_validation destination disk none prepared = after_preparing destination disk prepared

  unfoldable pub extract_archive_members :
      Option (List Placed) → List Text → List ArchivePayload → ArchiveLimits → Outcome
  extract_archive_members disk destination payloads limits =
      after_validation destination disk
        (validate_archive_members (map (λ p. p.member) payloads) limits)
        (prepare destination payloads)
