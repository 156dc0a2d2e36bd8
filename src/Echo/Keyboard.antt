-- ===== src/Echo/Keyboard.antt =====
-- basic_material/select.c: a loop that waits for the keyboard and does something else now and then. The
-- calls of the system are parameters; what is printed of the input are its bytes.
use compile_service.Common.{
  ℕ, zero, suc, ◌+◌, ◌/◌, ◌%◌, ◌≤◌, ◌≡◌, ap, ap₂, ◌∙◌, List, [], ◌∷◌, Option, none, some, ltb,
  if◌then◌else◌, length, replicate, Outcome, ok, fault, ◌>>=◌, poke, arith, Bool-cases, inl, inr,
}

-- What `select` answers, with the answer of `read` where there is input.
pub data Answer : Type 0 where
  input : Option (List ℕ) → Answer
  timeout : Answer
  error : Answer

-- The static counter, the array, what has been printed of the input, the last one first, and how often
-- "do something else" has.
pub record Keyboard : Type 0 where
  pub count : ℕ
  pub buf : List ℕ
  pub lines : List (List ℕ)
  pub others : ℕ

-- `s[len] = 0` after a `read`; an answer of -1 leads before the array.
unfoldable pub read_line : Option (List ℕ) → Keyboard → Outcome Keyboard
read_line none st = fault
read_line (some bytes) st = poke st.buf 0 bytes >>= λ buf.
    poke buf (length bytes) (0 ∷ []) >>= λ buf'.
    ok (record st { buf = buf'; lines = bytes ∷ st.lines })

unfoldable pub tick : Keyboard → Keyboard
tick st =
    if ltb 100 (st.count + 1)
    then record st { count = 0; others = st.others + 1 }
    else record st { count = st.count + 1 }

-- The loop, as long as `select` answers.
unfoldable pub keyboard : List Answer → Keyboard → Outcome Keyboard
unfolding read_line tick
keyboard [] st = ok st
keyboard (input answer ∷ answers) st = read_line answer st >>= λ st'. keyboard answers st'
keyboard (timeout ∷ answers) st = keyboard answers (tick st)
keyboard (error ∷ answers) st = ok st

-- After any number of timeouts, from a counter of at most 100: "do something else" has been printed once
-- for each 101 of them, counted from the counter's value, the counter is what is left, and nothing else
-- has changed.
pub keyboard-timeouts :
    (n : ℕ) (st : Keyboard)
    → st.count ≤ 100
    → keyboard (replicate n timeout) st
      ≡ ok (record st { count = (st.count + n) % 101; others = st.others + (st.count + n) / 101 })
unfolding keyboard tick
keyboard-timeouts zero st h =
    ap₂ (λ (c : ℕ) (o : ℕ). ok (record st { count = c; others = o })) (omega arith) (omega arith)
keyboard-timeouts (suc n) st h = elim (Bool-cases (ltb 100 (st.count + 1))) [
  | inl e ↦
      let ticked : tick st ≡ record st { count = 0; others = st.others + 1 } = rw (e, tick) in
      ap (keyboard (replicate n timeout)) ticked
      ∙ keyboard-timeouts n (record st { count = 0; others = st.others + 1 }) (omega arith)
      ∙ ap₂ (λ (c : ℕ) (o : ℕ). ok (record st { count = c; others = o })) (ground (arith, e))
          (ground (arith, e))
  | inr e ↦
      let ticked : tick st ≡ record st { count = st.count + 1 } = rw (e, tick) in
      ap (keyboard (replicate n timeout)) ticked
      ∙ keyboard-timeouts n (record st { count = st.count + 1 }) (ground (arith, e))
      ∙ ap₂ (λ (c : ℕ) (o : ℕ). ok (record st { count = c; others = o })) (omega arith)
          (omega arith)
]
