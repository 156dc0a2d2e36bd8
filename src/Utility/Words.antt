-- ===== src/Utility/Words.antt =====
-- FormatByChar puts one separator between the words of a line, and none at the ends.
use compile_service.Common.{
  ℕ, ◌≡◌, refl, sym, ap, ◌∙◌, true, false, List, [], ◌∷◌, ◌++◌, some, ◌==◌, if◌then◌else◌,
  append_assoc, append-nil, length-append, take-append_length, Bool-cases, inl, inr, arith, ◌≢◌,
  All, ==_iff, ==_refl,
}
use compile_service.Utility.{skip, format_loop, trim, format_by_char}

-- A word that has begun, unless it is empty, and the words behind it.
abbrev emit : List ℕ × List (List ℕ) → List (List ℕ)
emit ([], ws) = ws
emit (x ∷ w, ws) = (x ∷ w) ∷ ws

-- The characters up to the next separator, and the words behind it.
unfoldable pub cut : ℕ → List ℕ → List ℕ × List (List ℕ)
cut c [] = ([], [])
cut c (x ∷ xs) = let (w, ws) = cut c xs in if x == c then ([], emit (w, ws)) else (x ∷ w, ws)

-- The words of a line: the longest runs without the separator.
unfoldable pub words : ℕ → List ℕ → List (List ℕ)
words c xs = emit (cut c xs)

-- Each word with a separator before it.
unfoldable pub joined_after : ℕ → List (List ℕ) → List ℕ
joined_after c [] = []
joined_after c (w ∷ ws) = c ∷ (w ++ joined_after c ws)

unfoldable pub join : ℕ → List (List ℕ) → List ℕ
join c [] = []
join c (w ∷ ws) = w ++ joined_after c ws

trim_last : (out : List ℕ) (c : ℕ) → trim (out ++ (c ∷ []), true) ≡ out
unfolding trim
trim_last out c = rw (length-append out (c ∷ [])) (take-append_length _ out (c ∷ []) (omega arith))

-- The loop inside a word, and between two.
loop_both :
    (c : ℕ) (xs : List ℕ)
    → ((out : List ℕ)
        → trim (format_loop c xs out false) ≡ out ++ ((cut c xs).0 ++ joined_after c (cut c xs).1))
      × ((out : List ℕ)
          → trim (format_loop c xs (out ++ (c ∷ [])) true) ≡ out ++ joined_after c (words c xs))
unfolding format_loop cut words joined_after
loop_both c [] =
    (λ out. unfold trim in sym (append-nil out), λ out. trim_last out c ∙ sym (append-nil out))
loop_both c (x ∷ xs) =
    let (word, gap) = loop_both c xs in
    elim (Bool-cases (x == c)) [
      | inl e ↦
          let same : x ≡ c = (==_iff x c).0 e in
          (λ out. rw (same, ==_refl c) (gap out), λ out. rw (same, ==_refl c) (gap out))
      | inr e ↦ (
        λ out. rw e (word (out ++ (x ∷ [])) ∙ append_assoc out (x ∷ []) _),
        λ out. rw e (
            word ((out ++ (c ∷ [])) ++ (x ∷ []))
            ∙ append_assoc (out ++ (c ∷ [])) (x ∷ []) _
            ∙ append_assoc out (c ∷ []) _),
      )
    ]

skip-words : (c : ℕ) (s : List ℕ) → words c (skip c s) ≡ words c s
unfolding skip words cut
skip-words c [] = refl
skip-words c (x ∷ xs) = elim (Bool-cases (x == c)) [
  | inl e ↦ rw e (skip-words c xs)
  | inr e ↦ rw e (rw e)
]

-- What is left begins with a word, if it is not empty.
join-skip :
    (c : ℕ) (s : List ℕ)
    → (cut c (skip c s)).0 ++ joined_after c (cut c (skip c s)).1 ≡ join c (words c (skip c s))
unfolding skip words cut join joined_after
join-skip c [] = refl
join-skip c (x ∷ xs) = elim (Bool-cases (x == c)) [
  | inl e ↦ rw e (join-skip c xs)
  | inr e ↦ rw e (rw e)
]

-- No separator, and not empty.
abbrev pub IsWord : ℕ → List ℕ → Type 0
IsWord c w = (w ≢ []) × All (λ x. x ≢ c) w

emit-IsWord :
    (c : ℕ) (w : List ℕ) (ws : List (List ℕ))
    → All (λ x. x ≢ c) w
    → All (IsWord c) ws
    → All (IsWord c) (emit (w, ws))
emit-IsWord c [] ws h hs = hs
emit-IsWord c (x ∷ w) ws h hs = ((λ e. cc, h), hs)

cut-IsWord : (c : ℕ) (xs : List ℕ) → All (λ x. x ≢ c) (cut c xs).0 × All (IsWord c) (cut c xs).1
unfolding cut
cut-IsWord c [] = (tt, tt)
cut-IsWord c (x ∷ xs) =
    let (h, hs) = cut-IsWord c xs in
    elim (Bool-cases (x == c)) [
      | inl e ↦ rw e (tt, emit-IsWord c (cut c xs).0 (cut c xs).1 h hs)
      | inr e ↦ rw e ((ground arith, h), hs)
    ]

pub words-IsWord : (c : ℕ) (xs : List ℕ) → All (IsWord c) (words c xs)
unfolding words
words-IsWord c xs = let (h, hs) = cut-IsWord c xs in emit-IsWord c (cut c xs).0 (cut c xs).1 h hs

cut-append :
    (c : ℕ) (w : List ℕ) (ws : List (List ℕ))
    → All (λ x. x ≢ c) w
    → cut c (joined_after c ws) ≡ ([], ws)
    → cut c (w ++ joined_after c ws) ≡ (w, ws)
unfolding cut
cut-append c [] ws h e = e
cut-append c (x ∷ w) ws (hx, h) e =
    let miss : (x == c) ≡ false = ground arith in rw (miss, cut-append c w ws h e)

cut-joined_after :
    (c : ℕ) (ws : List (List ℕ)) → All (IsWord c) ws → cut c (joined_after c ws) ≡ ([], ws)
unfolding cut joined_after
cut-joined_after c [] h = refl
cut-joined_after c ([] ∷ ws) h = absurd (h.0.0 refl)
cut-joined_after c ((x ∷ w) ∷ ws) ((n, h), hs) =
    rw (==_refl c, cut-append c (x ∷ w) ws h (cut-joined_after c ws hs))

pub words-join : (c : ℕ) (ws : List (List ℕ)) → All (IsWord c) ws → words c (join c ws) ≡ ws
unfolding words join
words-join c [] h = unfold cut in refl
words-join c ([] ∷ ws) h = absurd (h.0.0 refl)
words-join c ((x ∷ w) ∷ ws) ((n, h), hs) =
    ap emit (cut-append c (x ∷ w) ws h (cut-joined_after c ws hs))

format_lem :
    (c x : ℕ) (xs : List ℕ)
    → format_by_char true (some (x ∷ xs)) c ≡ some (join c (words c (x ∷ xs)))
unfolding format_by_char
format_lem c x xs = ap some (
    (loop_both c (skip c (x ∷ xs))).0 []
    ∙ join-skip c (x ∷ xs)
    ∙ ap (join c) (skip-words c (x ∷ xs)))

-- Given memory, FormatByChar answers every line that is not empty with the words of the line, the
-- longest runs without the separator, joined by one separator each; and the answer has the same
-- words as the line.
pub format_by_char-words :
    (c x : ℕ) (xs : List ℕ)
    → (out : List ℕ) × (format_by_char true (some (x ∷ xs)) c ≡ some out)
      × (out ≡ join c (words c (x ∷ xs)))
      × (words c out ≡ words c (x ∷ xs))
      × All (IsWord c) (words c out)
format_by_char-words c x xs =
    let ws = words-IsWord c (x ∷ xs) in
    let same = words-join c (words c (x ∷ xs)) ws in
    (join c (words c (x ∷ xs)), format_lem c x xs, refl, same, rw same ws)
