-- ===== src/Response/Send/Delivery.antt =====
-- What of a file has gone over the connection when FileReqHandler answers 1.
use compile_service.Common.{
  ℕ, zero, suc, ◌+◌, ◌-◌, ◌%◌, ◌^◌, ◌≤◌, ◌<◌, ◌≡◌, refl, sym, ap, ◌∙◌, Bool, true, List, [], ◌∷◌,
  ◌++◌, Option, none, some, ◌==◌, ltb, take, take_all, length, length-append, length-take,
  length-zero, ap₂, append_assoc, append-nil, ok, arith, Bool-cases, inl, inr, ◌⊎◌, ==_iff,
}
use compile_service.Reader.{Reader, Read, got, failed}
use compile_service.Sender.{Sender, Send-cases}
use compile_service.TcpClient.{Client, send_raw}
use compile_service.Response.Send.{add_answer, copy_loop, send_contents}

reply_cases :
    (r : Read) → (r ≡ failed) ⊎ ((r ≡ got []) ⊎ ((x : ℕ) × (xs : List ℕ) × (r ≡ got (x ∷ xs))))
reply_cases failed = inl refl
reply_cases (got []) = inr (inl refl)
reply_cases (got (x ∷ xs)) = inr (inr (x, xs, refl))

module _ (S : Sender) (F : Reader) where
  -- What a run of the loop has done that starts with `ret` and ends with `ret'`: `out` has been sent,
  -- `f` calls of `send` have failed, and each of them stands for at least one byte of the file.
  record IsCopied (w : S.World) (f : F.World) (ret ret' : ℕ) (w' : S.World) : Type 0 where
    out : List ℕ
    fails : ℕ
    sent_eq : S.sent w' ≡ S.sent w ++ out
    bytes_le : length out + fails ≤ length (F.pending f)
    ret_eq : ret' ≡ (ret + length out + (2 ^ 32 - fails)) % 2 ^ 32
    all_eq : length out ≡ length (F.pending f) → out ≡ F.pending f

  nothing-IsCopied : (w : S.World) (f : F.World) (ret : ℕ) → ret < 2 ^ 32 → IsCopied w f ret ret w
  nothing-IsCopied w f ret h = record {
    out = [];
    fails = 0;
    sent_eq = sym (append-nil (S.sent w));
    bytes_le = omega arith;
    ret_eq = omega arith;
    all_eq = λ e. sym (length-zero (F.pending f) (sym e));
  }

  module _ (w w1 w' : S.World) (f f' : F.World) (ret ret' : ℕ) (bs : List ℕ)
      (small : length (F.pending f) < 2 ^ 31) (split : F.pending f ≡ bs ++ F.pending f')
      (some_bytes : 0 < length bs) where
    sizes : length (F.pending f) ≡ length bs + length (F.pending f')
    sizes = ap length split ∙ length-append bs (F.pending f')

    failed-IsCopied :
        S.sent w1 ≡ S.sent w
        → IsCopied w1 f' (add_answer ret none) ret' w'
        → IsCopied w f ret ret' w'
    failed-IsCopied e c = record {
      out = c.out;
      fails = suc c.fails;
      sent_eq = c.sent_eq ∙ ap (λ s. s ++ c.out) e;
      bytes_le = omega (arith, sizes, c.bytes_le);
      ret_eq = omega (arith, sizes, c.bytes_le, c.ret_eq);
      all_eq = λ h. absurd (omega (arith, sizes, c.bytes_le));
    }

    sent-IsCopied :
        (k : ℕ)
        → k ≤ length bs
        → S.sent w1 ≡ S.sent w ++ take k bs
        → IsCopied w1 f' (add_answer ret (some k)) ret' w'
        → IsCopied w f ret ret' w'
    sent-IsCopied k h e c =
        let size : length (take k bs ++ c.out) ≡ k + length c.out =
          omega (arith, length-append (take k bs) c.out, length-take k bs) in
        record {
          out = take k bs ++ c.out;
          fails = c.fails;
          sent_eq = c.sent_eq ∙ ap (λ s. s ++ c.out) e ∙ append_assoc (S.sent w) (take k bs) c.out;
          bytes_le = omega (arith, sizes, c.bytes_le, size);
          ret_eq = omega (arith, sizes, c.bytes_le, c.ret_eq, size);
          all_eq = λ g.
              let full : length bs ≤ k = omega (arith, sizes, c.bytes_le, size) in
              let rest : length c.out ≡ length (F.pending f') =
                omega (arith, sizes, c.bytes_le, size) in
              ap₂ ◌++◌ (take_all k bs full) (c.all_eq rest) ∙ sym split;
        }

  pub copy_loop_step :
      (rounds : ℕ) (w w1 : S.World) (c : Client) (f : F.World) (ret x : ℕ) (xs : List ℕ)
      (a : Option ℕ)
      → (F.read f 1024).0 ≡ got (x ∷ xs)
      → S.send w (x ∷ xs) ≡ (a, w1)
      → copy_loop S F (suc rounds) w (some c) f ret
        ≡ copy_loop S F rounds w1 (some c) (F.read f 1024).1 (add_answer ret a)
  unfolding copy_loop send_raw
  copy_loop_step rounds w w1 c f ret x xs a e g =
      let sent =
        ap (λ r. copy_loop S F rounds r.1 (some c) (F.read f 1024).1 (add_answer ret r.0)) g in
      rw (e, copy_loop) sent

  -- With a round for each byte and one more the loop ends.
  copy_loop_lem :
      (rounds : ℕ) (w : S.World) (c : Client) (f : F.World) (ret : ℕ)
      → length (F.pending f) < rounds
      → length (F.pending f) < 2 ^ 31
      → ret < 2 ^ 32
      → (ret' : ℕ) × (w' : S.World) × (copy_loop S F rounds w (some c) f ret ≡ ok (ret', w'))
        × IsCopied w f ret ret' w'
  unfolding copy_loop
  copy_loop_lem zero w c f ret h small m = absurd (omega arith)
  copy_loop_lem (suc rounds) w c f ret h small m = elim (reply_cases (F.read f 1024).0) [
    | inl e ↦ (ret, w, rw (e, copy_loop), nothing-IsCopied w f ret m)
    | inr (inl e) ↦ (ret, w, rw (e, copy_loop), nothing-IsCopied w f ret m)
    | inr (inr (x, xs, e)) ↦
        let f' = (F.read f 1024).1 in
        let (_, split) = F.read_got f f' 1024 (x ∷ xs) (ap (λ r. (r, f')) e) in
        let size = sizes w w w f f' ret ret (x ∷ xs) small split (omega arith) in
        elim (Send-cases (S.send w (x ∷ xs))) [
          | inl (w1, g) ↦
              let (ret', w', run, c') =
                copy_loop_lem rounds w1 c f' (add_answer ret none) (omega (arith, size))
                  (omega (arith, size)) (omega arith) in
              (
                ret',
                w',
                copy_loop_step rounds w w1 c f ret x xs _ e g ∙ run,
                failed-IsCopied w w1 w' f f' ret ret' (x ∷ xs) small split (omega arith)
                    (S.send_none w w1 (x ∷ xs) g) c',
              )
          | inr (k, w1, g) ↦
              let (le, eq) = S.send_some w w1 (x ∷ xs) k g in
              let (ret', w', run, c') =
                copy_loop_lem rounds w1 c f' (add_answer ret (some k)) (omega (arith, size))
                  (omega (arith, size)) (omega arith) in
              (
                ret',
                w',
                copy_loop_step rounds w w1 c f ret x xs _ e g ∙ run,
                sent-IsCopied w w1 w' f f' ret ret' (x ∷ xs) small split (omega arith) k le eq c',
              )
        ]
  ]

  -- The loop goes on after a `send` that fails or that takes less than it was given, but the sum of
  -- the answers does not reach the size then.
  pub send_contents_lem :
      (rounds : ℕ) (w : S.World) (c : Client) (f : F.World) (head : List ℕ)
      → length (F.pending f) < rounds
      → length (F.pending f) < 2 ^ 31
      → (answer : Bool) × (w' : S.World) × (send_contents S F rounds w (some c) f head
          ≡ ok (answer, w'))
        × (answer ≡ true → (k : ℕ) × (S.sent w' ≡ S.sent w ++ (take k head ++ F.pending f)))
  unfolding send_contents send_raw
  send_contents_lem rounds w c f head h small = elim (Send-cases (S.send w head)) [
    | inl (w1, g) ↦ (
      0 == length (F.pending f) % 2 ^ 32,
      w1,
      rw (g, send_contents),
      λ e.
          let none_left : F.pending f ≡ [] = length-zero (F.pending f) (ground arith) in
          (
            0,
            S.send_none w w1 head g
                ∙ sym (append-nil (S.sent w))
                ∙ ap (λ s. S.sent w ++ s) (sym none_left),
          ),
    )
    | inr (k, w1, g) ↦ elim (Bool-cases (ltb 0 k)) [
      | inr z ↦ (
        0 == length (F.pending f) % 2 ^ 32,
        w1,
        rw (g, send_contents, z),
        λ e.
            let none_left : F.pending f ≡ [] = length-zero (F.pending f) (ground arith) in
            (
              k,
              (S.send_some w w1 head k g).1
                  ∙ ap (λ s. S.sent w ++ s)
                      (sym (append-nil (take k head)) ∙ ap (λ s. take k head ++ s) (sym none_left)),
            ),
      )
      | inl z ↦
          let (ret', w', run, c') = copy_loop_lem rounds w1 c f 0 h small (omega arith) in
          (
            ret' == length (F.pending f) % 2 ^ 32,
            w',
            rw (g, send_contents, z) (rw run),
            λ e.
                let same : ret' ≡ length (F.pending f) % 2 ^ 32 = (==_iff ret' _).0 e in
                let all : length c'.out ≡ length (F.pending f) =
                  omega (arith, same, c'.ret_eq, c'.bytes_le) in
                (
                  k,
                  c'.sent_eq
                      ∙ ap₂ ◌++◌ (S.send_some w w1 head k g).1 (c'.all_eq all)
                      ∙ append_assoc (S.sent w) (take k head) (F.pending f),
                ),
          )
    ]
  ]
