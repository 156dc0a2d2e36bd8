-- ===== src/Response.antt =====
-- response.c: paths, the entries of a directory and their order, and the answers to requests.
pub mod Order
pub mod Sort
pub mod Paths
pub mod Entries
pub mod Html
pub mod Send
mod Tests
use compile_service.Common.{
  ℕ, zero, suc, Bool, true, false, List, [], ◌∷◌, get_or, set, ltb, ◌==◌, if◌then◌else◌, ◌||◌,
  length,
}
use compile_service.Page.{RowInfo}

-- strcmp(a, b) < 0, byte by byte.
unfoldable pub str_lt : List ℕ → List ℕ → Bool
str_lt [] [] = false
str_lt [] (y ∷ ys) = true
str_lt (x ∷ xs) [] = false
str_lt (x ∷ xs) (y ∷ ys) =
    let rest = str_lt xs ys in if ltb x y then true else if x == y then rest else false

-- The inner loop of SortFileEntry from entry `j` on, `best` being the name at `min`.
unfoldable pub scan_min : RowInfo → ℕ → ℕ → List RowInfo → RowInfo × ℕ
scan_min best min j [] = (best, min)
scan_min best min j (y ∷ ys) =
    let less = str_lt y.name best.name in
    scan_min (if less then y else best) (if less then j else min) (suc j) ys

-- The entry at `min` changes places with the first: what stands first then, and what behind it.
unfoldable pub swapped_first : RowInfo → List RowInfo → ℕ → RowInfo
swapped_first x xs zero = x
swapped_first x xs (suc k) = get_or xs k x

unfoldable pub swapped_rest : RowInfo → List RowInfo → ℕ → List RowInfo
swapped_rest x xs zero = xs
swapped_rest x xs (suc k) = set xs k x

-- The outer loop on the entries from `i` on, with the rounds that are left.
unfoldable pub sort_loop : ℕ → List RowInfo → List RowInfo
sort_loop zero xs = xs
sort_loop (suc n) [] = []
sort_loop (suc n) (x ∷ xs) =
    let min = (scan_min x 0 1 xs).1 in swapped_first x xs min ∷ sort_loop n (swapped_rest x xs min)

-- SortFileEntry; `granted` says that there is memory for `temp`.
unfoldable pub sort_file_entry : Bool → List RowInfo → List RowInfo
unfolding sort_loop
sort_file_entry granted rows = if granted then sort_loop (length rows) rows else rows
