-- ===== src/Archive/Path.antt =====
-- The path functions of node:path (posix) that packages/shared/src/archive-safety.ts and
-- archive-extractor.ts call, on the segments of a path. Node keeps the segments that it has read as a
-- text; here they are a list, the innermost first.
pub mod Laws
use verglos_cli.Prelude.{
  Bool, false, not, ◌||◌, Option, none, some, List, [], ◌∷◌, ◌++◌, reverse, ◌==◌, if◌then◌else◌,
}
use verglos_cli.Text.{Text, codes, text_eq}
use verglos_cli.Schema.Version.{split_on}
use verglos_cli.Subject.Path.{starts_with_slash}

-- A segment ".." takes a name away. Where there is none, or "..", it is kept in a relative path and
-- dropped in an absolute one.
abbrev pub go_up : Bool → List Text → List Text
go_up above [] = if above then codes ".." ∷ [] else []
go_up above (n ∷ ns) =
    if text_eq n (codes "..") then (if above then codes ".." ∷ n ∷ ns else n ∷ ns) else ns

abbrev pub read_segment : Bool → List Text → Text → List Text
read_segment above names s =
    if text_eq s [] || text_eq s (codes ".")
    then names
    else if text_eq s (codes "..")
    then go_up above names
    else s ∷ names

abbrev pub read_segments : Bool → List Text → List Text → List Text
read_segments above names [] = names
read_segments above names (s ∷ ss) = read_segments above (read_segment above names s) ss

-- The names with a slash between them, the outermost first.
abbrev pub written : List Text → Text
written [] = []
written (n ∷ []) = n
written (n ∷ m ∷ ns) = written (m ∷ ns) ++ b'/' ∷ n

abbrev pub ends_with_slash : Text → Bool
ends_with_slash [] = false
ends_with_slash (c ∷ []) = c == b'/'
ends_with_slash (c ∷ d ∷ s) = ends_with_slash (d ∷ s)

abbrev pub slash_if : Bool → Text
slash_if b = if b then codes "/" else []

abbrev pub finish : Bool → Bool → Text → Text
finish absolute trailing [] =
    if absolute then codes "/" else (if trailing then codes "./" else codes ".")
finish absolute trailing (c ∷ s) = slash_if absolute ++ ((c ∷ s) ++ slash_if trailing)

-- `posix.normalize`
abbrev pub normalize : Text → Text
normalize [] = codes "."
normalize (c ∷ s) =
    let absolute = starts_with_slash (c ∷ s) in
    finish absolute (ends_with_slash (c ∷ s))
      (written (read_segments (not absolute) [] (split_on b'/' (c ∷ s))))

-- `posix.join` of two parts.
abbrev pub join : Text → Text → Text
join [] t = normalize t
join (c ∷ s) [] = normalize (c ∷ s)
join (c ∷ s) (d ∷ t) = normalize ((c ∷ s) ++ b'/' ∷ d ∷ t)

abbrev pub drop_slashes : Text → Text
drop_slashes [] = []
drop_slashes (c ∷ s) = if c == b'/' then drop_slashes s else c ∷ s

-- What stands behind the first slash.
abbrev pub behind_slash : Text → Option Text
behind_slash [] = none
behind_slash (c ∷ s) = if c == b'/' then some s else behind_slash s

abbrev pub or_dot : Option Text → Text
or_dot none = codes "."
or_dot (some s) = reverse s

-- `posix.dirname`, of a path that does not begin with a slash.
abbrev pub dirname : Text → Text
dirname path = or_dot (behind_slash (drop_slashes (reverse path)))
