-- ===== src/Archive/Tests.antt =====
-- Archives at concrete members, and the theorems on them.
use verglos_cli.Prelude.{inl, inr, ℕ, ◌≡◌, refl, true, Option, none, some, List, [], ◌∷◌, ltb}
use verglos_cli.Text.{Text, codes}
use verglos_cli.Contracts.{ok, invalid}
use verglos_cli.Archive.{
  file, directory, symlink, ArchiveMember, ArchiveLimits, ArchiveError, traversal, link_escape,
  duplicate, limit, member_error, members_error, validate_archive_members,
}
use verglos_cli.Archive.Laws.{IsSafe, validate_archive_members-IsSafe}
use verglos_cli.Archive.Path.{normalize, join, dirname}
use verglos_cli.Archive.Extract.{
  ArchivePayload, Placed, a_directory, a_file, write_failed, not_removed, extract_archive_members,
}
use verglos_cli.Archive.Extract.Complete.{Apart, not_below, extract_archive_members_complete}
use verglos_cli.Archive.Extract.Laws.{AllOrNothing, extract_archive_members-AllOrNothing}

abbrev no_limits : ArchiveLimits
no_limits = record { max_members = none; max_bytes = none }

abbrev small : ArchiveLimits
small = record { max_members = some 3; max_bytes = some 5 }

abbrev a_dir : Text → ArchiveMember
a_dir p = record { path = p; kind = directory; size = some 0; link_target = none }

abbrev a_file_of : Text → ℕ → ArchiveMember
a_file_of p n = record { path = p; kind = file; size = some n; link_target = none }

abbrev a_link : Text → Text → ArchiveMember
a_link p t = record { path = p; kind = symlink; size = some 0; link_target = some t }

abbrev tree : List ArchiveMember
tree =
    a_dir (codes "bin")
    ∷ a_file_of (codes "bin/run") 5
    ∷ a_link (codes "bin/now") (codes "../bin\\run")
    ∷ []

path_tests :
    (normalize (codes "a/./b//../c/") ≡ codes "a/c/")
    × (normalize (codes "../../a/..") ≡ codes "../..")
    × (normalize (codes "/../a") ≡ codes "/a")
    × (normalize (codes "a/..") ≡ codes ".")
    × (join (codes "a/b") (codes "../../../c") ≡ codes "../c")
    × (dirname (codes "a/b/c/") ≡ codes "a/b")
    × (dirname (codes "a") ≡ codes ".")
path_tests = (refl, refl, refl, refl, refl, refl, refl)

abbrev verdict_on : List ArchiveMember → Option ArchiveError
unfolding validate_archive_members members_error member_error
verdict_on ms = validate_archive_members ms small

refusals :
    (verdict_on (a_dir (codes "a/../b") ∷ []) ≡ some traversal)
    × (verdict_on (a_dir (codes "..\\b") ∷ []) ≡ some traversal)
    × (verdict_on (a_dir (codes "c:\\b") ∷ []) ≡ some traversal)
    × (verdict_on (a_dir (codes "a/b") ∷ a_dir (codes "a\\b") ∷ []) ≡ some duplicate)
    × (verdict_on (a_file_of (codes "a") 3 ∷ a_file_of (codes "b") 3 ∷ []) ≡ some limit)
    × (verdict_on (a_link (codes "a/b") (codes "../../c") ∷ []) ≡ some link_escape)
unfolding verdict_on validate_archive_members members_error member_error
refusals = (refl, refl, refl, refl, refl, refl)

-- A link may stand in a directory that is a link itself: the second one leaves the root, if the
-- first one is followed.
link_through_link :
    verdict_on (a_link (codes "a/b") (codes "..") ∷ a_link (codes "a/b/c") (codes "../..") ∷ [])
    ≡ none
unfolding verdict_on validate_archive_members members_error member_error
link_through_link = refl

-- A slash at the end makes another path of the same target, over which no file is written.
abbrev twice : List ArchivePayload
twice =
    record { member = a_dir (codes "a/"); bytes = none }
    ∷ record { member = a_file_of (codes "a") 1; bytes = some (7 ∷ []) }
    ∷ []

same_target :
    extract_archive_members (λ n. true) (λ placed. none) none (codes "out" ∷ []) twice small
    ≡ (none, invalid (write_failed ∷ []))
unfolding extract_archive_members validate_archive_members members_error member_error
same_target = refl

-- A file cannot be placed below a file.
abbrev below_file : List ArchivePayload
below_file =
    record { member = a_file_of (codes "a") 1; bytes = some (7 ∷ []) }
    ∷ record { member = a_file_of (codes "a/b") 1; bytes = some (8 ∷ []) }
    ∷ []

-- With a clean-up that does nothing, the first file stays.
no_way :
    (extract_archive_members (λ n. true) (λ placed. none) none (codes "out" ∷ []) below_file small
      ≡ (none, invalid (write_failed ∷ [])))
    × (extract_archive_members (λ n. true) some none (codes "out" ∷ []) below_file small
        ≡ (some (a_file (codes "a" ∷ codes "out" ∷ []) (7 ∷ []) ∷ []), invalid (not_removed ∷ [])))
unfolding extract_archive_members validate_archive_members members_error member_error
no_way = (refl, refl)

abbrev payloads : List ArchivePayload
payloads =
    record { member = a_dir (codes "bin"); bytes = none }
    ∷ record { member = a_file_of (codes "bin/run") 2; bytes = some (1 ∷ 2 ∷ []) }
    ∷ []

validate_archive_members-IsSafe_example : IsSafe small tree
unfolding validate_archive_members members_error member_error
validate_archive_members-IsSafe_example = validate_archive_members-IsSafe tree small refl

extract_archive_members-AllOrNothing_example :
    AllOrNothing some none
      (codes "out" ∷ [])
      small
      (extract_archive_members (λ n. ltb n 2) some none (codes "out" ∷ []) payloads small)
extract_archive_members-AllOrNothing_example =
    extract_archive_members-AllOrNothing (λ n. ltb n 2) some none (codes "out" ∷ []) small payloads

abbrev both_placed : List Placed
both_placed =
    a_directory (codes "bin" ∷ codes "out" ∷ [])
    ∷ a_file (codes "run" ∷ codes "bin" ∷ codes "out" ∷ []) (1 ∷ 2 ∷ [])
    ∷ []

both_placed-Apart : Apart (a_directory (codes "out" ∷ []) ∷ both_placed)
both_placed-Apart = (
  (tt, (not_below (codes "run" ∷ codes "bin" ∷ codes "out" ∷ []) (codes "out" ∷ []) refl, tt)),
  (
    (
      not_below (codes "run" ∷ codes "bin" ∷ codes "out" ∷ []) (codes "bin" ∷ codes "out" ∷ [])
          refl,
      tt,
    ),
    (tt, tt),
  ),
)

extract_archive_members_complete_example :
    extract_archive_members (λ n. true) (λ placed. none) none (codes "out" ∷ []) payloads small
    ≡ (some both_placed, ok tt)
unfolding validate_archive_members members_error member_error
extract_archive_members_complete_example =
    extract_archive_members_complete (λ n. true) (λ placed. none) (codes "out" ∷ []) payloads small
      both_placed refl
      (
        record { how = inl (refl, refl) },
        (record { how = inr (refl, (1 ∷ 2 ∷ [], (refl, (refl, refl)))) }, tt),
      )
      both_placed-Apart (λ m. refl)
