-- ===== src/MsgParser/Receive/Loop.antt =====
-- ToRecv ends, and what it takes from the descriptor is what it puts into the buffer, in order.
use compile_service.Common.{
  ℕ, zero, suc, ◌+◌, ◌-◌, ◌^◌, ◌≤◌, ◌<◌, ◌≡◌, refl, sym, ap, ap₂, ◌∙◌, List, [], ◌∷◌, ◌++◌, drop,
  length, arith, length-append, append_assoc, ok, Outcome, poke, poke-append, lt→ltb, le→ltb-false,
  inl, inr, ◌⊎◌, length-drop, drop-drop,
}
use native.Mathlib.Decide.{dec_lt}
use compile_service.Reader.{IsSteady, Reader, Read, got, failed, Read-cases}
use compile_service.MsgParser.Receive.{recv_loop, recv_rounds, to_recv}

module _ (reader : Reader) where
  open reader use {World, read, pending, read_got, read_failed}

  -- A steady reader fills the buffer, or has no byte left.
  abbrev pub Fills : ℕ → ℕ → World → Type 0
  Fills n size w' = IsSteady reader → (n ≡ size) ⊎ (pending w' ≡ [])

  -- `pre` lies before the place where the next byte goes, and `rest` from there on.
  abbrev pub Receives : World → List ℕ → List ℕ → ℕ → ℕ → Outcome (ℕ × List ℕ × World) → Type 0
  Receives w pre rest size i out =
      (bs : List ℕ) × (w' : World) × (out
        ≡ ok (i + length bs, pre ++ (bs ++ drop (length bs) rest), w'))
      × (pending w ≡ bs ++ pending w')
      × (i + length bs ≤ size)
      × Fills (i + length bs) size w'

  after : {w w' : World} {n : ℕ} {a : Read} → read w n ≡ (a, w') → (read w n).1 ≡ w'
  after e = ap (λ (x : Read × World). x.1) e

  module _ (rounds : ℕ) (w w' : World) (block : List ℕ) (off size retry i : ℕ)
      (big : size < 2 ^ 31) where
    recv_done : size ≤ i → recv_loop reader (suc rounds) w block off size retry i ≡ ok (i, block, w)
    unfolding recv_loop
    recv_done h = rw (le→ltb-false i size h, recv_loop)

    recv_failed :
        i < size
        → read w (size - i) ≡ (failed, w')
        → recv_loop reader (suc rounds) w block off size retry i ≡ ok (i, block, w')
    unfolding recv_loop
    recv_failed h e = rw (lt→ltb i size h, lt→ltb size (2 ^ 31) big, e, recv_loop, after e)

    recv_tired :
        i < size
        → 5 < retry
        → read w (size - i) ≡ (got [], w')
        → recv_loop reader (suc rounds) w block off size retry i ≡ ok (i, block, w')
    unfolding recv_loop
    recv_tired h t e =
        rw (lt→ltb i size h, lt→ltb size (2 ^ 31) big, e, recv_loop, lt→ltb 5 retry t, after e)

    recv_again :
        i < size
        → retry ≤ 5
        → read w (size - i) ≡ (got [], w')
        → recv_loop reader (suc rounds) w block off size retry i
          ≡ recv_loop reader rounds w' block off size (retry + 1) i
    unfolding recv_loop
    recv_again h t e =
        rw
          (lt→ltb i size h, lt→ltb size (2 ^ 31) big, e, recv_loop, le→ltb-false 5 retry t, after e)

    recv_bytes :
        (b : ℕ) (bs block' : List ℕ)
        → i < size
        → read w (size - i) ≡ (got (b ∷ bs), w')
        → poke block (off + i) (b ∷ bs) ≡ ok block'
        → recv_loop reader (suc rounds) w block off size retry i
          ≡ recv_loop reader rounds w' block' off size retry (i + length (b ∷ bs))
    unfolding recv_loop
    recv_bytes b bs block' h e k =
        rw (lt→ltb i size h, lt→ltb size (2 ^ 31) big, e, recv_loop, after e, k)

  module _ (w w' : World) (pre rest : List ℕ) (size i : ℕ)
      (out : Outcome (ℕ × List ℕ × World)) where
    Receives-nothing :
        out ≡ ok (i, pre ++ rest, w')
        → pending w ≡ pending w'
        → i ≤ size
        → Fills i size w'
        → Receives w pre rest size i out
    Receives-nothing e p h full =
        let z : i + 0 ≡ i = omega arith in ([], w', rw z e, p, omega arith, rw z full)

    Receives-more :
        (bs : List ℕ)
        → pending w ≡ bs ++ pending w'
        → Receives w' (pre ++ bs) (drop (length bs) rest) size (i + length bs) out
        → Receives w pre rest size i out
    Receives-more bs p (cs, w'', e, q, h, full) =
        let n = length-append bs cs in
        (
          bs ++ cs,
          w'',
          e
              ∙ ap₂ (λ (n : ℕ) block. ok (n, block, w'')) (omega (arith, n))
                  (rw (
                    append_assoc pre bs,
                    append_assoc bs cs,
                    drop-drop (length cs) (length bs) rest,
                    n,
                  )),
          p ∙ ap (◌++◌ bs) q ∙ sym (append_assoc bs cs _),
          omega (arith, n),
          let z : i + length bs + length cs ≡ i + length (bs ++ cs) = omega (arith, n) in
              rw z at full,
        )

  no_failure : (w w' : World) (n : ℕ) → 0 < n → IsSteady reader → read w n ≡ (failed, w') → ⊥
  no_failure w w' n h steady e =
      let (bs, gives, none_left) = steady w n h in
      differ (sym gives ∙ ap (λ (x : Read × World). x.0) e)
    where
      differ : {bs : List ℕ} → got bs ≡ failed → ⊥
      differ e = cc

  no_more :
      (w w' : World) (n : ℕ) → 0 < n → IsSteady reader → read w n ≡ (got [], w') → pending w' ≡ []
  no_more w w' n h steady e =
      let (bs, gives, none_left) = steady w n h in
      sym (read_got w w' n [] e).1 ∙ none_left (same (sym gives ∙ ap (λ (x : Read × World). x.0) e))
    where
      same : {bs : List ℕ} → got bs ≡ got [] → bs ≡ []
      same e = cc

  recv_loop_lem :
      (rounds : ℕ) (w : World) (pre rest : List ℕ) (off size retry i : ℕ)
      → size < 2 ^ 31
      → length pre ≡ off + i
      → i ≤ size
      → size ≤ i + length rest
      → retry ≤ 6
      → size - i + (6 - retry) < rounds
      → Receives w pre rest size i (recv_loop reader rounds w (pre ++ rest) off size retry i)
  recv_loop_lem zero w pre rest off size retry i big e le room tries enough = absurd (omega arith)
  recv_loop_lem (suc rounds) w pre rest off size retry i big e le room tries enough =
      elim (dec_lt i size) [
        | no h ↦
            Receives-nothing w w pre rest size i _
              (recv_done rounds w w (pre ++ rest) off size retry i big (omega arith)) refl le
              (λ steady. inl (omega arith))
        | yes h ↦ elim (Read-cases (read w (size - i))) [
          | inl (w', r) ↦
              Receives-nothing w w' pre rest size i _
                (recv_failed rounds w w' (pre ++ rest) off size retry i big h r)
                (read_failed w w' (size - i) r) le
                (λ steady. absurd (no_failure w w' (size - i) (omega arith) steady r))
          | inr ([], w', r) ↦ elim (dec_lt 5 retry) [
            | yes t ↦
                Receives-nothing w w' pre rest size i _
                  (recv_tired rounds w w' (pre ++ rest) off size retry i big h t r)
                  (read_got w w' (size - i) [] r).1 le
                  (λ steady. inr (no_more w w' (size - i) (omega arith) steady r))
            | no t ↦
                let (bs, w'', f, q, fits, full) =
                  recv_loop_lem rounds w' pre rest off size (retry + 1) i big e le room
                    (omega arith) (omega arith) in
                (
                  bs,
                  w'',
                  recv_again rounds w w' (pre ++ rest) off size retry i big h (omega arith) r ∙ f,
                  (read_got w w' (size - i) [] r).1 ∙ q,
                  fits,
                  full,
                )
          ]
          | inr (b ∷ bs, w', r) ↦
              let (fits, split) = read_got w w' (size - i) (b ∷ bs) r in
              let n = length-append pre (b ∷ bs) in
              let d = length-drop (length (b ∷ bs)) rest in
              let copied = poke-append pre (b ∷ bs) rest (off + i) e (omega arith) in
              Receives-more w w' pre rest size i _ (b ∷ bs) split (
                rw
                  (
                    recv_bytes rounds w w' (pre ++ rest) off size retry i big b bs _ h r copied,
                    ← append_assoc pre (b ∷ bs) (drop (length (b ∷ bs)) rest),
                  )
                  (recv_loop_lem rounds w' (pre ++ (b ∷ bs)) (drop (length (b ∷ bs)) rest) off size
                    retry (i + length (b ∷ bs)) big (omega (arith, n, e)) (omega arith)
                    (omega (arith, d)) tries (omega arith)))
        ]
      ]

  pub to_recv_full :
      (w : World) (front room : List ℕ) (size : ℕ)
      → size < 2 ^ 31
      → size ≤ length room
      → (bs : List ℕ) × (w' : World) × (to_recv reader w (front ++ room) (length front) size
          ≡ ok (length bs, front ++ (bs ++ drop (length bs) room), w'))
        × (pending w ≡ bs ++ pending w')
        × (length bs ≤ size)
        × Fills (length bs) size w'
  unfolding to_recv
  to_recv_full w front room size big fits =
      let (bs, w', e, p, h, full) =
        recv_loop_lem (recv_rounds size) w front room (length front) size 0 0 big (omega arith)
          (omega arith) (omega arith) (omega arith) (omega arith) in
      let z : 0 + length bs ≡ length bs = omega arith in
      (bs, w', rw z at e, p, omega arith, rw z at full)

  -- ToRecv always ends. Into a buffer with room for `size` bytes it puts exactly the bytes that it
  -- takes from the descriptor, in their order and from the start of the buffer, at most `size`; the
  -- bytes before and behind them stay as they were. The answer is the number of these bytes.
  pub to_recv_lem :
      (w : World) (front room : List ℕ) (size : ℕ)
      → size < 2 ^ 31
      → size ≤ length room
      → (bs : List ℕ) × (w' : World) × (to_recv reader w (front ++ room) (length front) size
          ≡ ok (length bs, front ++ (bs ++ drop (length bs) room), w'))
        × (pending w ≡ bs ++ pending w')
        × (length bs ≤ size)
  to_recv_lem w front room size big fits =
      let (bs, w', e, p, h, full) = to_recv_full w front room size big fits in (bs, w', e, p, h)
