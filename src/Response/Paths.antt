-- ===== src/Response/Paths.antt =====
-- GetAbsPath and IsDotPath of response.c.
pub mod Join
use compile_service.Common.{
  ℕ, ◌+◌, Bool, true, false, not, ◌&&◌, ◌||◌, List, [], ◌∷◌, ◌++◌, Option, none, some, ◌==◌,
  if◌then◌else◌, length, Malloc, Outcome, ok, fault,
}
use compile_service.Text.{codes, new_string}

abbrev pub slash : ℕ
slash = b'/'

-- `relative[0] == '/'`; of an empty string the first character is its end.
unfoldable pub starts_slash : List ℕ → Bool
starts_slash [] = false
starts_slash (x ∷ xs) = x == slash

-- `s[strlen(s) - 1] == '/'` for a string that is not empty.
unfoldable pub ends_slash : List ℕ → Bool
ends_slash [] = false
ends_slash (x ∷ []) = x == slash
ends_slash (x ∷ y ∷ xs) = ends_slash (y ∷ xs)

-- The string without its last character.
unfoldable pub without_last : List ℕ → List ℕ
without_last [] = []
without_last (x ∷ []) = []
without_last (x ∷ y ∷ xs) = x ∷ without_last (y ∷ xs)

-- The two `if` lines. The character that is tested in the second is the same unless the first has
-- cleared it, and then the second fails on `relative[0]`.
unfoldable pub joined_path : List ℕ → List ℕ → List ℕ
joined_path relative root =
    if starts_slash relative && ends_slash root
    then without_last root ++ relative
    else if not (starts_slash relative) && not (ends_slash root)
    then root ++ (slash ∷ relative)
    else root ++ relative

-- GetAbsPath. Of an empty root it reads the character before the first.
unfoldable pub get_abs_path : Malloc → List ℕ → List ℕ → Outcome (Option (List ℕ))
get_abs_path malloc relative [] = fault
get_abs_path malloc relative (r ∷ root) =
    new_string malloc (length relative + length (r ∷ root) + 2) (joined_path relative (r ∷ root))

-- strcmp(a, b) == 0
unfoldable pub str_eq : List ℕ → List ℕ → Bool
str_eq [] [] = true
str_eq [] (y ∷ ys) = false
str_eq (x ∷ xs) [] = false
str_eq (x ∷ xs) (y ∷ ys) = (x == y) && str_eq xs ys

-- IsDotPath of a path that is not NULL.
unfoldable pub is_dot_path : List ℕ → Bool
is_dot_path path = str_eq path (codes ".") || str_eq path (codes "..")
