-- ===== src/Archive.antt =====
-- packages/shared/src/archive-safety.ts: which members an archive may have. A size is none where it
-- is negative or no safe integer; a member's other fields have the types that they declare.
pub mod Path
pub mod Extract
pub mod Laws
mod Tests
use verglos_cli.Prelude.{
  ℕ, ◌+◌, ◌-◌, Bool, true, false, not, ◌&&◌, ◌||◌, Option, none, some, List, [], ◌∷◌, map, ltb, leb,
  ◌==◌, if◌then◌else◌, length, any,
}
use verglos_cli.Text.{Text, codes, text_eq, starts_with}
use verglos_cli.Text.Sets.{has}
use verglos_cli.Schema.Version.{split_on, max_safe_integer}
use verglos_cli.Subject.Path.{is_letter, starts_with_slash}
use verglos_cli.Archive.Path.{normalize, join, dirname}

pub data MemberKind : Type 0 where
  file directory symlink hardlink : MemberKind

pub record ArchiveMember : Type 0 where
  pub path : Text
  pub kind : MemberKind
  pub size : Option ℕ
  pub link_target : Option Text

pub data ArchiveError : Type 0 where
  traversal link_escape duplicate limit : ArchiveError

pub record ArchiveLimits : Type 0 where
  pub max_members : Option ℕ
  pub max_bytes : Option ℕ

abbrev pub or_default : ℕ → Option ℕ → ℕ
or_default n none = n
or_default n (some m) = m

abbrev pub members_limit : ArchiveLimits → ℕ
members_limit l = or_default 100000 l.max_members

abbrev pub bytes_limit : ArchiveLimits → ℕ
bytes_limit l = or_default 1073741824 l.max_bytes

abbrev is_bad_limit : ℕ → Bool
is_bad_limit n = not (leb n max_safe_integer) || leb n 0

-- `path.replaceAll("\\", "/")`
abbrev pub with_slashes : Text → Text
with_slashes p = map (λ c. if c == b'\\' then b'/' else c) p

abbrev pub has_nul : Text → Bool
has_nul s = any (λ c. c == 0) s

-- `/^[A-Za-z]:\//`
abbrev pub has_drive_root : Text → Bool
has_drive_root (c ∷ d ∷ e ∷ s) = is_letter c && (d == b':' && e == b'/')
has_drive_root _ = false

abbrev pub is_unsafe_path : Text → Bool
is_unsafe_path path =
    text_eq path []
    || (text_eq path (codes ".")
        || (has_nul path
            || (starts_with_slash path
                || (has_drive_root path
                    || (not (text_eq (normalize path) path)
                        || has (codes "..") (split_on b'/' path))))))

abbrev pub is_link : MemberKind → Bool
is_link symlink = true
is_link hardlink = true
is_link _ = false

abbrev pub is_no_target : Option Text → Bool
is_no_target none = true
is_no_target (some t) = text_eq t [] || has_nul t

-- Where a link of that path to that target leads.
abbrev pub link_end : Text → Text → Text
link_end path target = normalize (join (dirname path) target)

abbrev pub escapes : Text → Option Text → Bool
escapes path none = false
escapes path (some t) =
    let target = with_slashes t in
    starts_with_slash target
    || (has_drive_root target
        || (starts_with (codes "../") (link_end path target)
            || (text_eq (link_end path target) (codes "..")
                || starts_with_slash (link_end path target))))

abbrev pub size_of : Option ℕ → ℕ
size_of none = 0
size_of (some n) = n

abbrev pub is_no_size : Option ℕ → Bool
is_no_size none = true
is_no_size (some n) = not (leb n max_safe_integer)

-- The first condition that holds decides the error.
abbrev pub first_error : List (Bool × ArchiveError) → Option ArchiveError
first_error [] = none
first_error ((b, e) ∷ rows) = if b then some e else first_error rows

-- The tests on a member, behind members of these paths and of this total size.
abbrev pub member_rows : ℕ → List Text → ℕ → ArchiveMember → List (Bool × ArchiveError)
member_rows max_bytes seen total m =
    let path = with_slashes m.path in
    (is_unsafe_path path, traversal)
    ∷ (has path seen, duplicate)
    ∷ (is_no_size m.size, limit)
    ∷ (ltb (max_bytes - total) (size_of m.size), limit)
    ∷ (is_link m.kind && is_no_target m.link_target, link_escape)
    ∷ (is_link m.kind && escapes path m.link_target, link_escape)
    ∷ []

unfoldable pub member_error : ℕ → List Text → ℕ → ArchiveMember → Option ArchiveError
member_error max_bytes seen total m = first_error (member_rows max_bytes seen total m)

-- The loop over the members.
unfoldable pub members_error : ℕ → List Text → ℕ → List ArchiveMember → Option ArchiveError
members_error max_bytes seen total [] = none
members_error max_bytes seen total (m ∷ ms) = elim (member_error max_bytes seen total m) [
  | some e ↦ some e
  | none ↦ members_error max_bytes (with_slashes m.path ∷ seen) (total + size_of m.size) ms
]

-- `validateArchiveMembers`: its error, or none where it returns the members as they are.
unfoldable pub validate_archive_members : List ArchiveMember → ArchiveLimits → Option ArchiveError
validate_archive_members members limits =
    if is_bad_limit (members_limit limits) || is_bad_limit (bytes_limit limits)
    then some limit
    else if ltb (members_limit limits) (length members)
    then some limit
    else members_error (bytes_limit limits) [] 0 members
