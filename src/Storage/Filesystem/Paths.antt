-- ===== src/Storage/Filesystem/Paths.antt =====
-- `std::path` as storage/filesystem uses it: a path is the list of its components. Where its text ends
-- in a slash or in `/.`, which the components of std leave out but the system sees, the list ends in
-- `cur_dir`: such a path leads to a directory or nowhere.
use btdt.Prelude.{
  Bool, true, false, ◌||◌, Option, none, some, List, [], ◌∷◌, ◌++◌, Bytes, codes, same,
  if◌then◌else◌,
}
use btdt.Prelude.Utf8.{is_nil}
use btdt.Storage.InMemory.PathIter.{split, starts_with_slash}

-- `std::path::Component`
pub data Component : Type 0 where
  root_dir cur_dir parent_dir : Component
  normal : Bytes → Component

-- `PathBuf`
abbrev pub PathBuf : Type 0
PathBuf = List Component

-- A segment between slashes; segments that are empty or `.` do not count.
abbrev pub segment : Bytes → List Component → List Component
segment w rest =
    if is_nil w
    then rest
    else if same w (codes ".")
    then rest
    else if same w (codes "..")
    then parent_dir ∷ rest
    else normal w ∷ rest

unfoldable pub segments : List Bytes → List Component
unfolding same
segments [] = []
segments (w ∷ ws) = let rest = segments ws in segment w rest

-- `Path::components`; a dot counts where it stands first.
unfoldable pub components : Bytes → PathBuf
unfolding split segments same
components s = if starts_with_slash s then root_dir ∷ segments (split s) else elim (split s) [
  | [] ↦ []
  | w ∷ ws ↦ if same w (codes ".") then cur_dir ∷ segments ws else segments (w ∷ ws)
]

-- `Path::join`: an absolute path takes the place of what it is joined to.
unfoldable pub join : PathBuf → PathBuf → PathBuf
join p (root_dir ∷ q) = root_dir ∷ q
join [] (cur_dir ∷ q) = cur_dir ∷ q
join (c ∷ p) (cur_dir ∷ q) = (c ∷ p) ++ q
join p q = p ++ q

-- The components before the last one, and the last one.
unfoldable pub split_last : PathBuf → Option (PathBuf × Component)
split_last [] = none
split_last (c ∷ p) = elim (split_last p) [ none ↦ some ([], c) | some (q, l) ↦ some (c ∷ q, l) ]

-- Whether the path leads to a directory or nowhere, and the path without that mark
abbrev pub marked : Option (PathBuf × Component) → Bool
marked (some (q, cur_dir)) = true
marked (some (q, other)) = false
marked none = false

abbrev pub before_mark : PathBuf → Option (PathBuf × Component) → PathBuf
before_mark p (some (q, cur_dir)) = q
before_mark p (some (q, other)) = p
before_mark p none = p

unfoldable pub ends_in_dir : PathBuf → Bool
unfolding split_last
ends_in_dir p = marked (split_last p)

unfoldable pub trimmed : PathBuf → PathBuf
unfolding split_last
trimmed p = before_mark p (split_last p)

-- `PathBuf::join` of a text
abbrev pub last_segment : List Bytes → Bytes
last_segment [] = []
last_segment (w ∷ []) = w
last_segment (v ∷ w ∷ ws) = last_segment (w ∷ ws)

abbrev pub is_dir_text : Bytes → Bool
is_dir_text s = is_nil (last_segment (split s)) || same (last_segment (split s)) (codes ".")

unfoldable pub join_text : PathBuf → Bytes → PathBuf
unfolding join components split same
join_text p s =
    if is_dir_text s then join p (components s) ++ (cur_dir ∷ []) else join p (components s)

unfoldable pub last_name : PathBuf → Option Bytes
unfolding split_last
last_name p = elim (split_last p) [
  | none ↦ none
  | some (q, normal n) ↦ some n
  | some (q, other) ↦ none
]

unfoldable pub replace_last : Bytes → PathBuf → PathBuf
unfolding split_last
replace_last n p = elim (split_last p) [
  | none ↦ normal n ∷ []
  | some (q, normal m) ↦ q ++ (normal n ∷ [])
  | some (q, other) ↦ p ++ (normal n ∷ [])
]

-- `Path::parent`
unfoldable pub parent : PathBuf → Option PathBuf
unfolding split_last trimmed
parent p = elim (split_last (trimmed p)) [
  | none ↦ none
  | some (q, root_dir) ↦ none
  | some (q, other) ↦ some q
]

-- `Path::file_name`
unfoldable pub file_name : PathBuf → Option Bytes
unfolding last_name trimmed
file_name p = last_name (trimmed p)

-- `Path::with_file_name` of a path with a file name
unfoldable pub with_file_name : Bytes → PathBuf → PathBuf
unfolding replace_last trimmed
with_file_name n p = replace_last n (trimmed p)

abbrev pub name_of : Component → Bytes
name_of root_dir = []
name_of cur_dir = codes "."
name_of parent_dir = codes ".."
name_of (normal n) = n

-- A path as text.
unfoldable pub render : PathBuf → Bytes
render [] = []
render (root_dir ∷ p) = b'/' ∷ render p
render (c ∷ []) = name_of c
render (c ∷ d ∷ p) = name_of c ++ (b'/' ∷ render (d ∷ p))
