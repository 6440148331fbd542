-- ===== src/Archive/Laws.antt =====
-- What the members of an accepted archive are (packages/shared/src/archive-safety.ts).
use verglos_cli.Prelude.{
  le_of_ltb, ℕ, ◌+◌, ◌-◌, ◌≤◌, ◌≡◌, refl, sym, ap, ◌∙◌, ◌≢◌, inl, inr, Bool, true, false, Option,
  none, some, List, [], ◌∷◌, ◌++◌, map, reverse, arith, ltb, ◌==◌, if◌then◌else◌, Bool-cases,
  Option-cases, length, All,
}
use mathlib.Core.List.{reverse-append, reverse-reverse, reverse-cons}
use verglos_cli.Text.{Text, codes}
use verglos_cli.Text.Order.{text_eq_iff}
use verglos_cli.Text.Sets.{has, NoRepeat}
use verglos_cli.Schema.Version.{split_on}
use verglos_cli.Subject.Path.{starts_with_slash}
use verglos_cli.Contracts.Laws.{IsClear}
use verglos_cli.Archive.{
  ArchiveMember, ArchiveLimits, ArchiveError, limit, members_limit, bytes_limit, with_slashes,
  is_link, is_no_target, escapes, link_end, size_of, is_no_size, first_error, member_rows,
  member_error, members_error, validate_archive_members,
}
use verglos_cli.Archive.Path.{normalize, dirname, drop_slashes, behind_slash}
use verglos_cli.Archive.Path.Laws.{follow, climbs, join-stays}

abbrev pub total_size : List ArchiveMember → ℕ
total_size [] = 0
total_size (m ∷ ms) = size_of m.size + total_size ms

-- The segments of a link's target behind those of the directory that the link stands in.
abbrev pub link_segments : Text → Text → List Text
link_segments path target = split_on b'/' (dirname path) ++ split_on b'/' target

-- A member below the root: its path is relative, as short as it gets, and never goes up; a link has
-- a target that is followed from the link's directory without leaving the root on the way.
pub record IsInside (m : ArchiveMember) : Type 0 where
  pub relative : starts_with_slash (with_slashes m.path) ≡ false
  pub normal : normalize (with_slashes m.path) ≡ with_slashes m.path
  pub never_up : has (codes "..") (split_on b'/' (with_slashes m.path)) ≡ false
  pub sized : (n : ℕ) × (m.size ≡ some n)
  pub followed :
      is_link m.kind ≡ true
      → (target : Text) × ((m.link_target ≡ some target)
          × ((dir : List Text) × (follow []
                  (link_segments (with_slashes m.path) (with_slashes target))
                ≡ some dir)))

abbrev pub paths : List ArchiveMember → List Text
paths ms = map (λ m. with_slashes m.path) ms

-- The members of an archive that keeps its limits.
pub record IsSafe (limits : ArchiveLimits) (ms : List ArchiveMember) : Type 0 where
  pub few : length ms ≤ members_limit limits
  pub small : total_size ms ≤ bytes_limit limits
  pub distinct : NoRepeat (paths ms)
  pub inside : All IsInside ms

first_error-none : (rows : List (Bool × ArchiveError)) → first_error rows ≡ none → IsClear rows
first_error-none [] h = tt
first_error-none ((true, e) ∷ rows) h = cc
first_error-none ((false, e) ∷ rows) h = (refl, first_error-none rows h)

-- What stands behind the slash is the front of the path, turned around.
behind_slash-append : (r s : Text) → behind_slash r ≡ some s → (pre : Text) × (r ≡ pre ++ b'/' ∷ s)
behind_slash-append [] s h = cc
behind_slash-append (c ∷ r) s h = elim (Bool-cases (c == b'/')) [
  | inl slash ↦ ([], ground (arith, h, slash))
  | inr other ↦
      let (pre, e) = behind_slash-append r s (ground (arith, h, other)) in
      (c ∷ pre, ap (λ l. c ∷ l) e)
]

drop_slashes-append : (r : Text) → (pre : Text) × (r ≡ pre ++ drop_slashes r)
drop_slashes-append [] = ([], refl)
drop_slashes-append (c ∷ r) = elim (Bool-cases (c == b'/')) [
  | inl slash ↦ rw slash (let (pre, e) = drop_slashes-append r in (c ∷ pre, ap (λ l. c ∷ l) e))
  | inr other ↦ rw other ([], refl)
]

front-relative :
    (p u a b : Text)
    → p ≡ ((u ++ b'/' ∷ []) ++ a) ++ b
    → starts_with_slash p ≡ false
    → (u ≢ []) × (starts_with_slash u ≡ false)
front-relative p [] a b e h = absurd (cc (h, ap starts_with_slash e))
front-relative p (c ∷ u) a b e h = ((cc), sym (ap starts_with_slash e) ∙ h)

dirname-relative :
    (p : Text)
    → starts_with_slash p ≡ false
    → (dirname p ≢ []) × (starts_with_slash (dirname p) ≡ false)
dirname-relative p h = elim (Option-cases (behind_slash (drop_slashes (reverse p)))) [
  | inl bare ↦ rw bare ((cc), refl)
  | inr (s, found) ↦
      let (b, eb) = drop_slashes-append (reverse p) in
      let (a, ea) = behind_slash-append (drop_slashes (reverse p)) s found in
      let whole : p ≡ ((reverse s ++ b'/' ∷ []) ++ reverse a) ++ reverse b =
        sym (reverse-reverse p)
        ∙ ap reverse (eb ∙ ap (λ l. b ++ l) ea)
        ∙ reverse-append b (a ++ b'/' ∷ s)
        ∙ ap (λ l. l ++ reverse b)
            (reverse-append a (b'/' ∷ s) ∙ ap (λ l. l ++ reverse a) (reverse-cons b'/' s)) in
      rw found (front-relative p (reverse s) (reverse a) (reverse b) whole h)
]

escapes-climbs :
    (path target : Text)
    → escapes path (some target) ≡ false
    → climbs (link_end path (with_slashes target)) ≡ false
escapes-climbs path target h = ground (arith, h)

followed_of :
    (path : Text) (t : Option Text)
    → starts_with_slash path ≡ false
    → is_no_target t ≡ false
    → escapes path t ≡ false
    → (target : Text) × ((t ≡ some target)
        × ((dir : List Text) × (follow [] (link_segments path (with_slashes target)) ≡ some dir)))
followed_of path none h k e = cc
followed_of path (some []) h k e = cc
followed_of path (some (c ∷ t)) h k e =
    let (some_dir, stays) = dirname-relative path h in
    (
      c ∷ t,
      (
        refl,
        join-stays (dirname path) (with_slashes (c ∷ t)) some_dir (cc) stays
            (escapes-climbs path (c ∷ t) e),
      ),
    )

-- A member that passes the tests, and how it changes what the loop has seen.
record Passes (max : ℕ) (seen : List Text) (total : ℕ) (m : ArchiveMember) : Type 0 where
  safe : IsInside m
  new : has (with_slashes m.path) seen ≡ false
  fits : size_of m.size ≤ max - total

size_known : (s : Option ℕ) → is_no_size s ≡ false → (n : ℕ) × (s ≡ some n)
size_known none h = cc
size_known (some n) h = (n, refl)

member-Passes :
    (max : ℕ) (seen : List Text) (total : ℕ) (m : ArchiveMember)
    → member_error max seen total m ≡ none
    → Passes max seen total m
unfolding member_error
member-Passes max seen total m h =
    let path = with_slashes m.path in
    let (safe, (new, (sized, (fits, (target, (inside, _)))))) =
      first_error-none (member_rows max seen total m) h in
    record {
      safe = record {
        relative = ground (arith, safe);
        normal = (text_eq_iff (normalize path) path).0 (ground (arith, safe));
        never_up = ground (arith, safe);
        sized = size_known m.size sized;
        followed = λ link.
            followed_of path m.link_target (ground (arith, safe)) (ground (arith, link, target))
              (ground (arith, link, inside));
      };
      new = new;
      fits = le_of_ltb (size_of m.size) (max - total) fits;
    }

-- What the loop has checked where it ends without an error.
record Checked (max : ℕ) (seen : List Text) (total : ℕ) (ms : List ArchiveMember) : Type 0 where
  fits : total + total_size ms ≤ max
  safe : All IsInside ms
  distinct : NoRepeat (paths ms)
  new : All (λ p. has p seen ≡ false) (paths ms)

unseen :
    (q : Text) (seen ps : List Text)
    → All (λ p. has p (q ∷ seen) ≡ false) ps
    → All (λ p. has p seen ≡ false) ps × (has q ps ≡ false)
unseen q seen [] a = (tt, refl)
unseen q seen (p ∷ ps) (h, a) =
    let (rest, out) = unseen q seen ps a in
    ((ground (arith, h), rest), ground (arith, h, out, text_eq_iff p q, text_eq_iff q p))

members-Checked :
    (max : ℕ) (seen : List Text) (total : ℕ) (ms : List ArchiveMember)
    → total ≤ max
    → members_error max seen total ms ≡ none
    → Checked max seen total ms
unfolding members_error
members-Checked max seen total [] le h = record {
  fits = omega (arith, le);
  safe = tt;
  distinct = tt;
  new = tt;
}
members-Checked max seen total (m ∷ ms) le h = elim (Option-cases (member_error max seen total m)) [
  | inr (e, found) ↦ absurd (ground (arith, h, found))
  | inl passed ↦
      let first = member-Passes max seen total m passed in
      let path = with_slashes m.path in
      let rest =
        members-Checked max (path ∷ seen) (total + size_of m.size) ms
          (omega (arith, le, first.fits)) (ground (arith, h, passed)) in
      let (new, out) = unseen path seen (paths ms) rest.new in
      record {
        fits = omega (arith, rest.fits);
        safe = (first.safe, rest.safe);
        distinct = (out, rest.distinct);
        new = (first.new, new);
      }
]

unless-none :
    (b : Bool) (e : ArchiveError) (o : Option ArchiveError)
    → (if b then some e else o) ≡ none
    → (b ≡ false) × (o ≡ none)
unless-none true e o h = cc
unless-none false e o h = (refl, h)

-- An archive that is accepted keeps its limits on the members and on their sizes together, has no
-- path twice, and all its members are inside.
pub validate_archive_members-IsSafe :
    (ms : List ArchiveMember) (limits : ArchiveLimits)
    → validate_archive_members ms limits ≡ none
    → IsSafe limits ms
unfolding validate_archive_members
validate_archive_members-IsSafe ms limits h =
    let (_, h1) = unless-none _ limit _ h in
    let (few, h2) = unless-none (ltb (members_limit limits) (length ms)) limit _ h1 in
    let all_checked = members-Checked (bytes_limit limits) [] 0 ms (omega arith) h2 in
    record {
      few = le_of_ltb (length ms) (members_limit limits) few;
      small = omega (arith, all_checked.fits);
      distinct = all_checked.distinct;
      inside = all_checked.safe;
    }
