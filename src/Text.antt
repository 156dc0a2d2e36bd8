-- ===== src/Text.antt =====
-- C strings, as the lists of their bytes up to the end: literals, `sprintf`, and strings in blocks.
pub mod Format
use Prim.Native.Char.{code}
use Prim.Native.String.{String}
use compile_service.Common.{
  ℕ, zero, suc, ◌+◌, ◌/◌, ◌%◌, List, [], ◌∷◌, ◌++◌, Option, none, some, ltb, leb, ◌==◌,
  if◌then◌else◌, length, Malloc, Outcome, ok, fault,
}

-- The bytes of a literal.
abbrev pub codes : String → List ℕ
codes String.[] = []
codes (String.◌∷◌ c s) = code c ∷ codes s

abbrev pub first : List (List ℕ) → List ℕ
first [] = []
first (s ∷ args) = s

abbrev pub others : List (List ℕ) → List (List ℕ)
others [] = []
others (s ∷ args) = args

-- sprintf with one-letter conversions, each of which prints the next argument, given as its text.
unfoldable pub sprintf : List ℕ → List (List ℕ) → List ℕ
sprintf [] args = []
sprintf (x ∷ []) args = x ∷ []
sprintf (x ∷ y ∷ rest) args =
    let converted = first args ++ sprintf rest (others args) in
    let plain = x ∷ sprintf (y ∷ rest) args in if x == b'%' then converted else plain

-- The decimal digits of a number; more rounds than digits are harmless.
unfoldable pub digits_loop : ℕ → ℕ → List ℕ → List ℕ
digits_loop zero n out = out
digits_loop (suc rounds) n out =
    let out' = (b'0' + n % 10) ∷ out in
    let more = digits_loop rounds (n / 10) out' in if ltb n 10 then out' else more

-- `%d` or `%ld` of a number that is not negative.
unfoldable pub decimal : ℕ → List ℕ
unfolding digits_loop
decimal n = digits_loop (suc n) n []

-- A block of `size` bytes from `malloc`, with a string and its end written to it.
unfoldable pub new_string : Malloc → ℕ → List ℕ → Outcome (Option (List ℕ))
new_string malloc size s = elim (malloc size) [
  | none ↦ ok none
  | some block ↦ if leb (length s + 1) size then ok (some s) else fault
]

-- What the string copies into an array of `size` bytes leave there.
unfoldable pub array_string : ℕ → List ℕ → Outcome (List ℕ)
array_string size s = if leb (length s + 1) size then ok s else fault
