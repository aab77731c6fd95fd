-- ===== src/Paths.antt =====
-- The standard library's `Path` on Unix as far as the relay uses it (src/registry.rs and
-- src/config.rs): paths are texts, compared by their components. The file system is a parameter.
pub mod Laws
use Prim.Native.Char.{Char, code}
use rust_supervisor_relay.Base.{
  ◌⊎◌, Bool, true, false, ◌&&◌, Option, none, some, String, ◌<>◌, List, [], ◌∷◌, ◌==◌, eqb,
  if◌then◌else◌,
}
use rust_supervisor_relay.Time.{OffsetDateTime}

pub data Component : Type 0 where
  root_dir cur_dir parent_dir : Component
  normal : String → Component

-- A character in front of the first piece.
cons_head : Char → List String → List String
cons_head c [] = String.◌∷◌ c String.[] ∷ []
cons_head c (piece ∷ pieces) = String.◌∷◌ c piece ∷ pieces

-- The pieces between the separators.
unfoldable pub split : String → List String
unfolding cons_head
split String.[] = "" ∷ []
split (String.◌∷◌ c s) =
    let pieces = split s in if eqb (code c) b'/' then "" ∷ pieces else cons_head c pieces

-- Empty pieces and dots are skipped.
pub body : List String → List Component
body [] = []
body (piece ∷ pieces) =
    let rest = body pieces in
    if piece == ""
    then rest
    else if piece == "."
    then rest
    else if piece == ".."
    then parent_dir ∷ rest
    else normal piece ∷ rest

unfoldable pub is_absolute : String → Bool
is_absolute String.[] = false
is_absolute (String.◌∷◌ c s) = eqb (code c) b'/'

-- A dot at the start of a relative path is kept.
relative : List String → List Component
relative [] = []
relative (piece ∷ pieces) = if piece == "." then cur_dir ∷ body pieces else body (piece ∷ pieces)

-- `Path::components`
unfoldable pub components : String → List Component
unfolding split body is_absolute relative
components p = if is_absolute p then root_dir ∷ body (split p) else relative (split p)

unfoldable pub component_eq : Component → Component → Bool
component_eq root_dir root_dir = true
component_eq cur_dir cur_dir = true
component_eq parent_dir parent_dir = true
component_eq (normal a) (normal b) = a == b
component_eq _ _ = false

-- Whether the second list begins with the first.
unfoldable pub is_prefix : List Component → List Component → Bool
unfolding component_eq
is_prefix [] cs = true
is_prefix (p ∷ ps) [] = false
is_prefix (p ∷ ps) (c ∷ cs) = component_eq p c && is_prefix ps cs

-- `Path::starts_with`
unfoldable pub starts_with : String → String → Bool
unfolding components is_prefix
starts_with path prefix = is_prefix (components prefix) (components path)

-- `Components::next_back`
unfoldable pub split_last : List Component → Option (List Component × Component)
split_last [] = none
split_last (c ∷ cs) = elim (split_last cs) [
  | none ↦ some ([], c)
  | some (front, last) ↦ some (c ∷ front, last)
]

parent_of : List Component × Component → Option (List Component)
parent_of (front, root_dir) = none
parent_of (front, last) = some front

-- `Path::parent`
unfoldable pub parent : String → Option (List Component)
unfolding components split_last parent_of
parent p = elim (split_last (components p)) [ none ↦ none | some fl ↦ parent_of fl ]

name_of : Component → Option String
name_of (normal name) = some name
name_of c = none

-- `Path::file_name`
unfoldable pub file_name : String → Option String
unfolding components split_last name_of
file_name p = elim (split_last (components p)) [ none ↦ none | some fl ↦ name_of (fl.1) ]

ends_with_separator : String → Bool
ends_with_separator String.[] = false
ends_with_separator (String.◌∷◌ c String.[]) = eqb (code c) b'/'
ends_with_separator (String.◌∷◌ c (String.◌∷◌ d s)) = ends_with_separator (String.◌∷◌ d s)

-- `Path::join` with a file name.
unfoldable pub join : String → String → String
unfolding ends_with_separator
join p name =
    if p == "" then name else if ends_with_separator p then p <> name else p <> ("/" <> name)

-- What the relay asks of the file system, which other programs change: its answers at each time.
pub record FileSystem : Type 0 where
  -- `symlink_metadata` succeeds and reports a symlink.
  pub is_symlink : OffsetDateTime → String → Bool
  -- `canonicalize`: the text of an error, or the canonical path.
  pub canonicalize : OffsetDateTime → List Component → String ⊎ String
