-- ===== src/Text/Format.antt =====
-- How long the output of `sprintf` is, and that a block that is large enough takes a string.
use compile_service.Common.{
  ℕ, zero, suc, ◌/◌, ◌%◌, ◌^◌, ◌+◌, ◌≤◌, ◌<◌, ◌≡◌, List, [], ◌∷◌, none, some, ◌==◌, length,
  length-append, Malloc, ok, le→leb, arith, Bool-cases, inl, inr, ◌⊎◌, Option-cases,
}
use compile_service.Text.{digits_loop, decimal, sprintf, first, others, new_string, array_string}

abbrev pub total_length : List (List ℕ) → ℕ
total_length [] = 0
total_length (s ∷ args) = length s + total_length args

first-others-le :
    (args : List (List ℕ)) → length (first args) + total_length (others args) ≤ total_length args
first-others-le [] = omega arith
first-others-le (s ∷ args) = omega arith

pub length-sprintf-le :
    (fmt : List ℕ) (args : List (List ℕ))
    → length (sprintf fmt args) ≤ length fmt + total_length args
unfolding sprintf
length-sprintf-le [] args = omega arith
length-sprintf-le (x ∷ []) args = omega arith
length-sprintf-le (x ∷ y ∷ rest) args = elim (Bool-cases (x == b'%')) [
  | inl e ↦ rw e (
      omega (
        arith,
        length-append (first args) (sprintf rest (others args)),
        length-sprintf-le rest (others args),
        first-others-le args,
      ))
  | inr e ↦ rw e (omega (arith, length-sprintf-le (y ∷ rest) args))
]

-- A string that fits is written, if there is memory at all.
pub new_string_fits :
    (malloc : Malloc) (size : ℕ) (s : List ℕ)
    → length s + 1 ≤ size
    → (new_string malloc size s ≡ ok none) ⊎ (new_string malloc size s ≡ ok (some s))
unfolding new_string
new_string_fits malloc size s h = elim (Option-cases (malloc size)) [
  | inl e ↦ inl (rw (e, new_string))
  | inr (block, e) ↦ inr (rw (e, new_string, le→leb (length s + 1) size h))
]

pub new_string_refused :
    (malloc : Malloc) (size : ℕ) (s : List ℕ)
    → malloc size ≡ none
    → new_string malloc size s ≡ ok none
unfolding new_string
new_string_refused malloc size s e = rw (e, new_string)

-- An allocator that always has a block.
abbrev pub Always : Malloc → Type 0
Always malloc = (n : ℕ) → (block : List ℕ) × (malloc n ≡ some block)

pub new_string_granted :
    (malloc : Malloc) (size : ℕ) (s block : List ℕ)
    → malloc size ≡ some block
    → length s + 1 ≤ size
    → new_string malloc size s ≡ ok (some s)
unfolding new_string
new_string_granted malloc size s block e h = rw (e, new_string, le→leb (length s + 1) size h)

pub array_string_fits : (size : ℕ) (s : List ℕ) → length s < size → array_string size s ≡ ok s
unfolding array_string
array_string_fits size s h = rw (le→leb (length s + 1) size (omega arith))

digits_loop_length :
    (k rounds n : ℕ) (out : List ℕ)
    → n < 10 ^ suc k
    → length (digits_loop rounds n out) ≤ length out + suc k
unfolding digits_loop
digits_loop_length k zero n out h = omega arith
digits_loop_length zero (suc rounds) n out h = ground arith
digits_loop_length (suc k) (suc rounds) n out h =
    ground (arith, digits_loop_length k rounds (n / 10) ((b'0' + n % 10) ∷ out) (omega arith))

-- A number below 2 ^ 64 has at most 20 digits.
pub length-decimal-le : (n : ℕ) → n < 2 ^ 64 → length (decimal n) ≤ 20
unfolding decimal
length-decimal-le n h = omega (arith, digits_loop_length 19 (suc n) n [] (omega arith))

-- A number below 2 ^ 32 has at most 10 digits.
pub length-decimal-int : (n : ℕ) → n < 2 ^ 32 → length (decimal n) ≤ 10
unfolding decimal
length-decimal-int n h = omega (arith, digits_loop_length 9 (suc n) n [] (omega arith))
