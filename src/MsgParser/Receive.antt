-- ===== src/MsgParser/Receive.antt =====
-- ToRecv: read from a descriptor until a number of bytes has come, an error, or a run of empty reads.
pub mod Loop
use compile_service.Common.{
  ℕ, zero, suc, ◌+◌, ◌-◌, ◌^◌, ◌≤◌, ◌<◌, ◌≡◌, refl, sym, ap, ◌∙◌, Bool, true, false, ◌&&◌, List, [],
  ◌∷◌, ◌++◌, take, drop, length, arith, length-append, append_assoc, append-nil, ok, stuck, Outcome,
  ◌>>=◌, poke, poke-append, ltb, lt→ltb, le→ltb-false, inl, inr, length-drop, Bool-cases, ltb→lt,
  ltb-false→le,
}
use compile_service.Reader.{Reader, Read, got, failed, Read-cases}

-- Each round brings a byte or uses up one of seven empty reads.
abbrev pub recv_rounds : ℕ → ℕ
recv_rounds size = size + 8

module _ (reader : Reader) where
  open reader use {World, read, pending, read_got, read_failed}

  -- The loop at `i` bytes and `retry` empty reads. `i < size` compares signed numbers. The buffer
  -- starts at `off` in its block. `stuck` means that the rounds ran out.
  unfoldable pub recv_loop : ℕ → World → List ℕ → ℕ → ℕ → ℕ → ℕ → Outcome (ℕ × List ℕ × World)
  recv_loop zero w block off size retry i = stuck
  recv_loop (suc rounds) w block off size retry i = elim (ltb i size && ltb size (2 ^ 31)) [
    | false ↦ ok (i, block, w)
    | true ↦
        let (answer, w') = read w (size - i) in
        elim answer [
          | failed ↦ ok (i, block, w')
          | got [] ↦ elim (ltb 5 retry) [
            | true ↦ ok (i, block, w')
            | false ↦ recv_loop rounds w' block off size (retry + 1) i
          ]
          | got (b ∷ bs) ↦ poke block (off + i) (b ∷ bs) >>= λ block'.
              recv_loop rounds w' block' off size retry (i + length (b ∷ bs))
        ]
  ]

  -- ToRecv(fd, block + off, size): the number of bytes, and the block with them.
  unfoldable pub to_recv : World → List ℕ → ℕ → ℕ → Outcome (ℕ × List ℕ × World)
  unfolding recv_loop
  to_recv w block off size = recv_loop (recv_rounds size) w block off size 0 0
