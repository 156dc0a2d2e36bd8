-- ===== src/Utility/Divide.antt =====
-- DivideByChar writes the words of a line to its rows, cut to their columns.
use compile_service.Common.{
  ℕ, zero, suc, ◌-◌, ◌≡◌, ◌≢◌, refl, sym, ap, ◌∙◌, true, false, List, [], ◌∷◌, ◌++◌, map, some,
  ◌==◌, ==_refl, ltb, take, take_all, length, append_assoc, append-nil, Outcome, ok, All, arith,
  Bool-cases, inl, inr,
}
use compile_service.Utility.{field, divide_loop, divide_by_char}
use compile_service.Utility.Words.{
  words, join, joined_after, IsWord, words-IsWord, format_by_char-words,
}

-- A field has room for all but one of the columns.
field_lem : (col : ℕ) (s : List ℕ) → field (suc col) s ≡ ok (take col s)
unfolding field
field_lem col s = elim (Bool-cases (ltb (length s) (suc col))) [
  | inl e ↦
      rw (e, e) (ap ok (take_all (length s) s (omega arith) ∙ sym (take_all col s (ground arith))))
  | inr e ↦
      let no : ltb (suc col) (suc col) ≡ false = ground arith in
      let z : (suc col == 0) ≡ false = ground arith in
      let one : suc col - 1 ≡ col = omega arith in rw (e, no, z, one)
]

take_nil : (n : ℕ) → take {A = List ℕ} n [] ≡ []
take_nil zero = refl
take_nil (suc n) = refl

module _ (c col : ℕ) where
  abbrev loop : List ℕ → List ℕ → ℕ → Outcome (List (List ℕ))
  loop = divide_loop c (suc col)

  loop-zero : (xs seg : List ℕ) → loop xs seg zero ≡ ok []
  unfolding divide_loop
  loop-zero [] seg = refl
  loop-zero (x ∷ xs) seg = refl

  word_loop :
      (w rest seg : List ℕ) (row : ℕ) (found : List (List ℕ))
      → All (λ x. x ≢ c) w
      → loop rest [] row ≡ ok found
      → loop (w ++ (c ∷ rest)) seg (suc row) ≡ ok (take col (seg ++ w) ∷ found)
  unfolding divide_loop
  word_loop [] rest seg row found a e =
      rw (==_refl c, field_lem col seg, e)
        (ap (λ s. ok (take col s ∷ found)) (sym (append-nil seg)))
  word_loop (x ∷ w) rest seg row found (n, a) e =
      let miss : (x == c) ≡ false = ground arith in
      rw miss (
        word_loop w rest (seg ++ (x ∷ [])) row found a e
        ∙ ap (λ s. ok (take col s ∷ found)) (append_assoc seg (x ∷ []) w))

  words_loop :
      (w : List ℕ) (ws : List (List ℕ)) (row : ℕ)
      → All (λ x. x ≢ c) w
      → All (IsWord c) ws
      → loop ((w ++ joined_after c ws) ++ (c ∷ [])) [] (suc row)
        ≡ ok (map (take col) (take (suc row) (w ∷ ws)))
  unfolding joined_after
  words_loop w [] row a bs =
      ap (λ s. loop (s ++ (c ∷ [])) [] (suc row)) (append-nil w)
      ∙ word_loop w [] [] row [] a (unfold divide_loop in refl)
      ∙ ap (λ s. ok (take col w ∷ map (take col) s)) (sym (take_nil row))
  words_loop w (v ∷ ws) zero a (_, bs) =
      let rest = (v ++ joined_after c ws) ++ (c ∷ []) in
      ap (λ s. loop s [] 1) (append_assoc w (c ∷ (v ++ joined_after c ws)) (c ∷ []))
      ∙ word_loop w rest [] zero [] a (loop-zero rest [])
  words_loop w (v ∷ ws) (suc row) a ((_, b), bs) =
      let rest = (v ++ joined_after c ws) ++ (c ∷ []) in
      ap (λ s. loop s [] (suc (suc row))) (append_assoc w (c ∷ (v ++ joined_after c ws)) (c ∷ []))
      ∙ word_loop w rest [] (suc row) (map (take col) (take (suc row) (v ∷ ws))) a
          (words_loop v ws row b bs)

  buf_lem :
      (ws : List (List ℕ)) (row : ℕ)
      → All (IsWord c) ws
      → elim (join c ws) [ [] ↦ ok [] | x ∷ xs ↦ loop ((x ∷ xs) ++ (c ∷ [])) [] row ]
        ≡ ok (map (take col) (take row ws))
  unfolding join
  buf_lem [] row a = ap (λ s. ok (map (take col) s)) (sym (take_nil row))
  buf_lem ([] ∷ ws) row ((n, _), _) = absurd (n refl)
  buf_lem ((x ∷ w) ∷ ws) zero a = loop-zero (((x ∷ w) ++ joined_after c ws) ++ (c ∷ [])) []
  buf_lem ((x ∷ w) ∷ ws) (suc row) ((_, b), bs) = words_loop (x ∷ w) ws row b bs

  -- DivideByChar, given memory and at least one column, on a line that is not empty: its rows get the
  -- words of the line in order, as many as there are rows for, each cut to one character less than
  -- there are columns; no row is written outside.
  pub divide_by_char-words :
      (x : ℕ) (xs : List ℕ) (row : ℕ)
      → divide_by_char true (some (x ∷ xs)) c true row (suc col)
        ≡ ok (map (take col) (take row (words c (x ∷ xs))))
  unfolding divide_by_char
  divide_by_char-words x xs row =
      let (out, e, same, _, _) = format_by_char-words c x xs in
      rw (e, divide_by_char, same) (buf_lem (words c (x ∷ xs)) row (words-IsWord c (x ∷ xs)))
