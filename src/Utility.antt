-- ===== src/Utility.antt =====
-- utility.c: command lines. A C string is the list of the bytes before its end.
pub mod Words
pub mod Divide
pub mod Grid
mod Tests
use compile_service.Common.{
  ℕ, ◌+◌, ◌-◌, Bool, true, false, ◌&&◌, List, [], ◌∷◌, ◌++◌, Option, none, some, ◌==◌,
  if◌then◌else◌, take, length, zero, suc, ltb, Outcome, ok, fault, ◌>>=◌,
}

-- `while( (i < len) && (src[i] == c) ) i++;`
unfoldable pub skip : ℕ → List ℕ → List ℕ
skip c [] = []
skip c (x ∷ xs) = let rest = skip c xs in if x == c then rest else x ∷ xs

-- The second loop. `out` is what has been written to `ret`, and `flag` says that it ends with `c`.
-- Each branch leaves `flag` as the test of this character says, so that one call serves them all.
unfoldable pub format_loop : ℕ → List ℕ → List ℕ → Bool → List ℕ × Bool
format_loop c [] out flag = (out, flag)
format_loop c (x ∷ xs) out flag =
    format_loop c xs (if (x == c) && flag then out else out ++ (x ∷ [])) (x == c)

-- `if( flag ) j--;`
unfoldable pub trim : List ℕ × Bool → List ℕ
trim (out, flag) = if flag then take (length out - 1) out else out

-- FormatByChar; `granted` says that `malloc` has a block.
unfoldable pub format_by_char : Bool → Option (List ℕ) → ℕ → Option (List ℕ)
unfolding skip format_loop trim
format_by_char granted none c = none
format_by_char granted (some []) c = none
format_by_char granted (some (x ∷ xs)) c =
    if granted then some (trim (format_loop c (skip c (x ∷ xs)) [] false)) else none

-- `while( s && *s ) ret += (*s++ == c);`
unfoldable pub count_from : ℕ → List ℕ → ℕ → ℕ
count_from c [] ret = ret
count_from c (x ∷ xs) ret = count_from c xs (ret + (if x == c then 1 else 0))

unfoldable pub char_count : Option (List ℕ) → ℕ → ℕ
unfolding count_from
char_count none c = 0
char_count (some s) c = count_from c s 0

-- A field of DivideByChar: the first `k` characters of what stands at `buf + j`, ended at `k`, or one
-- before when `k` is `col`. With no column at all it writes before the array.
unfoldable pub field : ℕ → List ℕ → Outcome (List ℕ)
field col s =
    let k = if ltb (length s) col then length s else col in
    if ltb k col then ok (take k s) else (if k == 0 then fault else ok (take (k - 1) s))

-- The loop of DivideByChar over `buf`, the last character being the separator that stands in place of
-- its end. `seg` are the characters from `buf + j` on that have been passed, and `row` is what is left
-- of the rows.
unfoldable pub divide_loop : ℕ → ℕ → List ℕ → List ℕ → ℕ → Outcome (List (List ℕ))
divide_loop c col [] seg row = ok []
divide_loop c col (x ∷ xs) seg zero = ok []
divide_loop c col (x ∷ xs) seg (suc row) =
    let found = divide_loop c col xs [] row in
    let longer = divide_loop c col xs (seg ++ (x ∷ [])) (suc row) in
    if x == c then (field col seg >>= λ s. found >>= λ rest. ok (s ∷ rest)) else longer

-- DivideByChar: the strings in the rows of `argv` that it has written, as many as it answers;
-- `argv` says whether there are rows.
unfoldable pub divide_by_char : Bool → Option (List ℕ) → ℕ → Bool → ℕ → ℕ → Outcome (List (List ℕ))
unfolding divide_loop
divide_by_char granted line c argv row col =
    if argv
    then elim (format_by_char granted line c) [
      | none ↦ ok []
      | some buf ↦ elim buf [
        | [] ↦ ok []
        | x ∷ xs ↦ divide_loop c col ((x ∷ xs) ++ (c ∷ [])) [] row
      ]
    ]
    else ok []
