-- ===== src/Response/Send/Success.antt =====
-- FileReqHandler on a connection that takes every byte.
use compile_service.Common.{
  ℕ, zero, suc, ◌+◌, ◌%◌, ◌^◌, ◌<◌, ◌≡◌, ◌≢◌, refl, ap, ◌∙◌, Bool, true, List, [], ◌∷◌, Option,
  none, some, ◌==◌, lt→ltb, length, length-append, Outcome, ok, ◌>>=◌, arith, ◌⊎◌, inl, inr,
}
use compile_service.Text.{sprintf}
use compile_service.Text.Format.{Always}
use compile_service.Reader.{IsSteady, Reader, got}
use compile_service.Sender.{IsWhole, Sender}
use compile_service.TcpClient.{Client, send_raw}
use compile_service.Response.Paths.Join.{full_path}
use compile_service.Response.Entries.{Files}
use compile_service.Response.Html.{Memory}
use compile_service.Response.Send.{
  file_format, file_head, add_answer, copy_loop, send_contents, request_handler,
}
use compile_service.Response.Send.Delivery.{copy_loop_step}
use compile_service.Response.Send.Requests.{request_handler-send_contents}

list_cases : (bs : List ℕ) → (bs ≡ []) ⊎ ((x : ℕ) × (xs : List ℕ) × (bs ≡ x ∷ xs))
list_cases [] = inl refl
list_cases (x ∷ xs) = inr (x, xs, refl)

file_head_positive : (content : List ℕ) → 0 < length (file_head content)
unfolding file_head file_format sprintf
file_head_positive content = omega arith

module _ (S : Sender) (F : Reader) (whole : IsWhole S) (steady : IsSteady F) where
  loop_end :
      (rounds : ℕ) (w : S.World) (c : Client) (f : F.World) (ret : ℕ)
      → (F.read f 1024).0 ≡ got []
      → copy_loop S F (suc rounds) w (some c) f ret ≡ ok (ret, w)
  unfolding copy_loop
  loop_end rounds w c f ret e = rw (e, copy_loop)

  copy_all :
      (rounds : ℕ) (w : S.World) (c : Client) (f : F.World) (ret : ℕ)
      → length (F.pending f) < rounds
      → ret + length (F.pending f) < 2 ^ 32
      → (w' : S.World) × (copy_loop S F rounds w (some c) f ret
          ≡ ok (ret + length (F.pending f), w'))
  copy_all zero w c f ret h small = absurd (omega arith)
  copy_all (suc rounds) w c f ret h small =
      let (bs, e, last) = steady f 1024 (omega arith) in
      elim (list_cases bs) [
        | inl g ↦
            let same : ret ≡ ret + length (F.pending f) = omega (arith, ap length (last g)) in
            (w, loop_end rounds w c f ret (e ∙ ap got g) ∙ ap (λ n. ok (n, w)) same)
        | inr (x, xs, g) ↦
            let f' = (F.read f 1024).1 in
            let (_, split) = F.read_got f f' 1024 (x ∷ xs) (ap (λ r. (r, f')) (e ∙ ap got g)) in
            let size : length (F.pending f) ≡ length (x ∷ xs) + length (F.pending f') =
              ap length split ∙ length-append (x ∷ xs) (F.pending f') in
            let (w1, sent) = whole w (x ∷ xs) in
            let ret1 = add_answer ret (some (length (x ∷ xs))) in
            let (w', run) =
              copy_all rounds w1 c f' ret1 (omega (arith, size)) (omega (arith, size)) in
            let total : ret1 + length (F.pending f') ≡ ret + length (F.pending f) =
              omega (arith, size) in
            (
              w',
              copy_loop_step S F rounds w w1 c f ret x xs (some (length (x ∷ xs))) (e ∙ ap got g)
                    sent
                  ∙ run
                  ∙ ap (λ n. ok (n, w')) total,
            )
      ]

  send_contents-true :
      (rounds : ℕ) (w : S.World) (c : Client) (f : F.World) (head : List ℕ)
      → 0 < length head
      → length (F.pending f) < rounds
      → length (F.pending f) < 2 ^ 31
      → (w' : S.World) × (send_contents S F rounds w (some c) f head ≡ ok (true, w'))
  unfolding send_contents send_raw
  send_contents-true rounds w c f head some_head h small =
      let (w1, sent) = whole w head in
      let (w', run) = copy_all rounds w1 c f 0 h (omega arith) in
      let equal : ((0 + length (F.pending f)) == length (F.pending f) % 2 ^ 32) ≡ true =
        ground arith in
      (
        w',
        rw (sent, send_contents, lt→ltb 0 (length head) some_head)
            (ap
                (λ (o : Outcome (ℕ × S.World)).
                  o >>= λ end. ok (end.0 == length (F.pending f) % 2 ^ 32, end.1))
                run
              ∙ ap (λ b. ok (b, w')) equal),
      )

  -- RequestHandler with memory, on a path that is an open file of less than 2 ^ 31 bytes and no
  -- directory, when the connection takes every byte and no read fails: it answers 1.
  pub request_handler_served :
      (M : Memory) (rounds : ℕ) (files : Files) (open_file : List ℕ → Option F.World) (w : S.World)
      (c : Client) (req root : List ℕ) (f : F.World)
      → Always M.malloc
      → root ≢ []
      → files.exists (full_path root req) ≡ true
      → files.opendir (full_path root req) ≡ none
      → open_file (full_path root req) ≡ some f
      → length (F.pending f) < rounds
      → length (F.pending f) < 2 ^ 31
      → (w' : S.World) × (request_handler S F rounds M files open_file w
            (some c)
            (some req)
            (some root)
          ≡ ok (some true, w'))
  request_handler_served M rounds files open_file w c req root f always rooted there plain opens h
        small =
      let (w', e) =
        send_contents-true rounds w c f (file_head (F.pending f)) (file_head_positive (F.pending f))
          h small in
      (
        w',
        request_handler-send_contents S F M always rounds files open_file w c req root f rooted
              there plain opens
            ∙ ap (λ (o : Outcome (Bool × S.World)). o >>= λ r. ok (some r.0, r.1)) e,
      )
