-- ===== src/MsgParser/Descriptor/Takes.antt =====
-- What one call of MParser_ReadFd takes from the descriptor, and its part behind the header.
use compile_service.Common.{
  ℕ, ◌+◌, ◌^◌, ◌≤◌, ◌<◌, ◌≡◌, sym, ap, ◌∙◌, List, [], ◌++◌, Option, drop, length, arith,
  length-append, append_assoc, append-nil, subst, length-drop, Malloc, inl, inr, ◌⊎◌, ok, Outcome,
  ◌>>=◌,
}
use compile_service.Message.{Message, sizeof_message, load_header, store_header, n2h}
use compile_service.Message.Wire.{decode_header}
use compile_service.Reader.{Reader, IsSteady}
use compile_service.MsgParser.{MsgParser, sub32, finish}
use compile_service.MsgParser.Receive.Loop.{to_recv_full}
use compile_service.MsgParser.Descriptor.{recv_payload, read_fd_body, enter_fd_body}
use compile_service.MsgParser.Spec.{frame_size, assemble, Loaded, Repr}
use compile_service.MsgParser.Assemble.{frame_size-append}
use compile_service.MsgParser.Progress.{
  loaded_more, loaded_more-Loaded, finish_lem, Grants, to_mid_state-Loaded,
}

module _ (reader : Reader) where
  open reader use {World, pending}

  -- Behind a steady reader, the message is whole, or no byte is left.
  abbrev pub Settles : List ℕ → World → Type 0
  Settles all w' = IsSteady reader → (length all ≡ frame_size all) ⊎ (pending w' ≡ [])

  -- The reader took `new` from the descriptor, which makes it `all`, answered as `assemble` does,
  -- and took no byte behind the message.
  abbrev pub Took :
      World
      → List ℕ
      → List ℕ
      → MsgParser
      → World
      → Outcome (Option Message × MsgParser × World)
      → Type 0
  Took w all new q w' out =
      (out ≡ ok ((assemble all).1, q, w'))
      × (pending w ≡ new ++ pending w')
      × (length all ≤ frame_size all)
      × Repr q (assemble all).0
      × Settles all w'

  abbrev pub Takes : World → List ℕ → Outcome (Option Message × MsgParser × World) → Type 0
  Takes w bs out = (new : List ℕ) × (q : MsgParser) × (w' : World) × Took w (bs ++ new) new q w' out

  pub Takes-same :
      {w : World} {bs bs' : List ℕ} {out out' : Outcome (Option Message × MsgParser × World)}
      → bs' ≡ bs
      → out ≡ out'
      → Takes w bs' out'
      → Takes w bs out
  Takes-same {w} {bs} {bs'} {out} {out'} b e t =
      subst (Takes w bs) (sym e) (subst (λ xs. Takes w xs out') b t)

  pub Takes-after :
      {w w' : World} (bs new : List ℕ) (out : Outcome (Option Message × MsgParser × World))
      → pending w ≡ new ++ pending w'
      → Takes w' (bs ++ new) out
      → Takes w bs out
  Takes-after {w} bs new out q (more, r, w'', t) = (
    new ++ more,
    r,
    w'',
    subst (λ all. Took w all (new ++ more) r w'' out) (append_assoc bs new more)
        (t.0, q ∙ ap (◌++◌ new) t.1 ∙ sym (append_assoc new more _), t.2, t.3, t.4),
  )

  module _ (w : World) (p : MsgParser) (m : Message) (hd got tail : List ℕ)
      (l : Loaded p m hd got tail) where
    recv_payload_lem :
        (new : List ℕ) × (w' : World) × (recv_payload reader w p p.msg
          ≡ ok (loaded_more p m got new (drop (length new) tail), w'))
        × (pending w ≡ new ++ pending w')
        × (length new ≤ length tail)
        × (IsSteady reader → (length new ≡ length tail) ⊎ (pending w' ≡ []))
    unfolding recv_payload
    recv_payload_lem =
        let (new, w', e, q, h, full) =
          to_recv_full reader w got tail p.need (omega (arith, l.need_eq, l.length_eq, l.modest))
            (omega (arith, l.need_eq)) in
        let offset : sub32 m.head.length p.need ≡ length got =
          rw (l.head_eq, l.need_eq) (omega (arith, l.length_eq, l.modest)) in
        let left : sub32 p.need (length new) ≡ length (drop (length new) tail) =
          rw (l.need_eq)
            (omega (arith, l.need_eq, l.length_eq, l.modest, length-drop (length new) tail)) in
        (
          new,
          w',
          ap (recv_payload reader w p) l.holds ∙ rw (offset, l.payload_eq, e, left),
          q,
          omega (arith, l.need_eq),
          λ steady. elim (full steady) [
            | inl n ↦ inl (n ∙ l.need_eq)
            | inr none_left ↦ inr none_left
          ],
        )

    framed :
        (new : List ℕ)
        → (length (hd ++ (got ++ new)) ≡ length hd + length got + length new)
          × (frame_size (hd ++ (got ++ new)) ≡ sizeof_message + (decode_header hd).length)
    framed new = (
      omega (arith, length-append hd (got ++ new), length-append got new),
      frame_size-append hd (got ++ new) l.head_size,
    )

    pub read_fd_body_lem : Takes w (hd ++ got) (read_fd_body reader w p)
    unfolding read_fd_body
    read_fd_body_lem =
        let (new, w', e, q, h, full) = recv_payload_lem in
        let d = length-drop (length new) tail in
        let (r, f, s) =
          finish_lem _ _ hd (got ++ new) (drop (length new) tail)
            (loaded_more-Loaded hd got new (drop (length new) tail) tail l (omega arith)) in
        (
          new,
          r,
          w',
          subst (λ all. Took w all new r w' (read_fd_body reader w p))
              (sym (append_assoc hd got new))
              (
                ap (λ o. o >>= λ x. ok ((finish x.0).0, (finish x.0).1, x.1)) e
                    ∙ ap (λ (x : Option Message × MsgParser). ok (x.0, x.1, w')) f,
                q,
                omega (arith, framed new, l.length_eq, l.head_size),
                s,
                λ steady. elim (full steady) [
                  | inl n ↦ inl (omega (arith, framed new, l.length_eq, l.head_size, n))
                  | inr none_left ↦ inr none_left
                ],
              ),
        )

  pub enter_fd_body_lem :
      (malloc : Malloc) (w : World) (p : MsgParser) (hd : List ℕ)
      → Grants malloc
      → p.cache ≡ hd
      → length hd ≡ sizeof_message
      → (decode_header hd).length < 2 ^ 31
      → Takes w hd (enter_fd_body reader malloc w p)
  unfolding enter_fd_body decode_header n2h
  enter_fd_body_lem malloc w p hd grants c e h =
      let (q, m, tail, r, l) =
        to_mid_state-Loaded malloc (record p { cache = store_header (n2h (load_header p.cache)) })
          hd (ap (λ b. store_header (n2h (load_header b))) c) grants e h in
      Takes-same (append-nil hd) (rw (r, enter_fd_body)) (read_fd_body_lem w q m hd [] tail l)
