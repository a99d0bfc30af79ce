-- ===== src/Base/Text/Path.antt =====
-- filepath.Clean and filepath.Dir with `/` as the separator.
pub mod Length
use mup.Base.{ℕ, Bool, true, false, List, [], ◌∷◌, ◌++◌, Option, none, some, ◌==◌, if◌then◌else◌}
use mup.Base.Text.{Text, codes, text_eq, split}

unfoldable pub is_blank : Text → Bool
is_blank [] = true
is_blank (c ∷ s) = false

-- The parts that stay so far, the last one first. `..` removes the part before it, unless that is
-- another `..`; at the root it goes away.
unfoldable pub pop_part : Bool → List Text → List Text
pop_part true [] = []
pop_part false [] = codes ".." ∷ []
pop_part rooted (top ∷ stack) = if text_eq top (codes "..") then codes ".." ∷ top ∷ stack else stack

unfoldable pub push_part : Bool → Text → List Text → List Text
push_part rooted part stack =
    if is_blank part
    then stack
    else if text_eq part (codes ".")
    then stack
    else if text_eq part (codes "..")
    then pop_part rooted stack
    else part ∷ stack

unfoldable pub clean_parts : Bool → List Text → List Text → List Text
clean_parts rooted [] stack = stack
clean_parts rooted (part ∷ parts) stack = clean_parts rooted parts (push_part rooted part stack)

unfoldable pub join_parts : List Text → Text
join_parts [] = []
join_parts (top ∷ []) = top
join_parts (top ∷ next ∷ stack) = join_parts (next ∷ stack) ++ b'/' ∷ top

unfoldable pub is_rooted : Text → Bool
is_rooted [] = false
is_rooted (c ∷ s) = c == b'/'

unfoldable pub finish_path : Bool → List Text → Text
finish_path true stack = b'/' ∷ join_parts stack
finish_path false [] = codes "."
finish_path false (top ∷ stack) = join_parts (top ∷ stack)

unfoldable pub clean_path : Text → Text
clean_path path = finish_path (is_rooted path) (clean_parts (is_rooted path) (split b'/' path) [])

-- The part before the last slash, none where there is no slash.
unfoldable pub before_slash : Text → Option Text
before_slash [] = none
before_slash (c ∷ s) = elim (before_slash s) [
  | some p ↦ some (c ∷ p)
  | none ↦ if c == b'/' then some [] else none
]

-- What filepath.Dir cleans: the path up to its last slash.
abbrev pub with_slash : Option Text → Text
with_slash none = []
with_slash (some p) = p ++ b'/' ∷ []

unfoldable pub dir_name : Text → Text
dir_name path = clean_path (with_slash (before_slash path))
