-- ===== src/MsgParser/Descriptor/Refines.antt =====
-- MParser_ReadFd refines `assemble` too, and takes from the descriptor the bytes of one message only.
use compile_service.Common.{
  ℕ, ◌^◌, ◌≤◌, ◌<◌, ◌≡◌, refl, sym, ap, ◌∙◌, Bool, true, false, List, [], ◌++◌, none, some, drop,
  length, if◌then◌else◌, arith, length-append, append_assoc, append-nil, length-drop, Malloc, inl,
  inr, ◌⊎◌, ok, ◌>>=◌, ==_refl, lt→==-false_left,
}
use native.Mathlib.Decide.{dec_lt}
use compile_service.Message.{sizeof_message}
use compile_service.Message.Wire.{decode_header, decode_header-append}
use compile_service.Reader.{Reader, IsSteady}
use compile_service.MsgParser.{MsgParser, sub32}
use compile_service.MsgParser.Receive.{to_recv}
use compile_service.MsgParser.Receive.Loop.{to_recv_full}
use compile_service.MsgParser.Descriptor.{
  read_fd_body, enter_fd_body, read_fd_head, mparser_read_fd,
}
use compile_service.MsgParser.Descriptor.Takes.{
  Settles, Takes, Takes-same, Takes-after, read_fd_body_lem, enter_fd_body_lem,
}
use compile_service.MsgParser.Spec.{
  frame_size, assemble, Waiting, Repr, in_header, in_payload, IsModest,
}
use compile_service.MsgParser.Assemble.{assemble_short, frame_size_least}
use compile_service.MsgParser.Progress.{Grants}
use compile_service.MsgParser.Memory.{drop_whole}

module _ (reader : Reader) where
  open reader use {World, pending}

  module _ (malloc : Malloc) (w : World) (p : MsgParser) (got tail : List ℕ)
      (wt : Waiting p got tail) where
    recv_cache_lem :
        (new : List ℕ) × (w' : World) × (to_recv reader w p.cache
            (sub32 sizeof_message p.need)
            p.need
          ≡ ok (length new, got ++ (new ++ drop (length new) tail), w'))
        × (pending w ≡ new ++ pending w')
        × (length new ≤ p.need)
        × (IsSteady reader → (length new ≡ p.need) ⊎ (pending w' ≡ []))
    recv_cache_lem =
        let (new, w', e, q, h, full) =
          to_recv_full reader w got tail p.need (omega (arith, wt.need_eq, wt.cache_size))
            (omega (arith, wt.need_eq)) in
        let offset : sub32 sizeof_message p.need ≡ length got =
          rw wt.need_eq (omega (arith, wt.cache_size)) in
        (new, w', rw (offset, wt.cache_eq) e, q, h, full)

    read_fd_head_few :
        (new : List ℕ) (w' : World)
        → to_recv reader w p.cache (sub32 sizeof_message p.need) p.need
          ≡ ok (length new, got ++ (new ++ drop (length new) tail), w')
        → pending w ≡ new ++ pending w'
        → length new < p.need
        → (IsSteady reader → (length new ≡ p.need) ⊎ (pending w' ≡ []))
        → Takes reader w got (read_fd_head reader malloc w p)
    unfolding read_fd_head
    read_fd_head_few new w' e q h full =
        let d = length-drop (length new) tail in
        let n = length-append got new in
        let short : assemble (got ++ new) ≡ (got ++ new, none) =
          assemble_short (got ++ new) (omega (arith, wt.cache_size, wt.need_eq)) in
        let state : MsgParser = record p {
          cache = got ++ (new ++ drop (length new) tail);
          need = sub32 p.need (length new);
        } in
        let run : read_fd_head reader malloc w p ≡ ok (none, state, w') =
          rw (e, read_fd_head, lt→==-false_left (length new) p.need h) in
        let held : Repr state (got ++ new) =
          in_header (drop (length new) tail)
            (record {
              header_clear = wt.header_clear;
              no_msg = wt.no_msg;
              cache_eq = sym (append_assoc got new (drop (length new) tail));
              cache_size = omega (arith, wt.cache_size, wt.need_eq);
              need_eq = omega (arith, wt.cache_size, wt.need_eq);
            })
            (omega (arith, wt.need_eq)) in
        (
          new,
          state,
          w',
          (
            rw short run,
            q,
            omega (arith, wt.cache_size, wt.need_eq, frame_size_least (got ++ new)),
            rw short held,
            λ steady. elim (full steady) [
              | inl n ↦ absurd (omega arith)
              | inr none_left ↦ inr none_left
            ],
          ),
        )

    read_fd_head_whole :
        (new : List ℕ) (w' : World)
        → Grants malloc
        → IsModest (got ++ pending w)
        → to_recv reader w p.cache (sub32 sizeof_message p.need) p.need
          ≡ ok (length new, got ++ (new ++ drop (length new) tail), w')
        → pending w ≡ new ++ pending w'
        → length new ≡ p.need
        → Takes reader w got (read_fd_head reader malloc w p)
    unfolding read_fd_head
    read_fd_head_whole new w' grants modest e q h =
        let hd = got ++ new in
        let size : length hd ≡ sizeof_message =
          omega (arith, wt.cache_size, wt.need_eq, length-append got new) in
        let filled : got ++ (new ++ drop (length new) tail) ≡ hd =
          rw (h ∙ wt.need_eq, drop_whole tail, append-nil new) in
        let whole : got ++ pending w ≡ hd ++ pending w' =
          ap (◌++◌ got) q ∙ sym (append_assoc got new (pending w')) in
        let declared : (decode_header hd).length < 2 ^ 31 =
          rw (whole, decode_header-append hd (pending w') size) at
            (modest (omega (arith, ap length whole, length-append hd (pending w'), size))) in
        let run : read_fd_head reader malloc w p
            ≡ enter_fd_body reader malloc w' (record p { cache = hd }) =
          rw (
            e ∙ ap (λ (b : List ℕ). ok (length new, b, w')) filled,
            h,
            read_fd_head,
            ==_refl p.need,
          ) in
        Takes-after reader got new _ q (
          Takes-same reader refl run (
            enter_fd_body_lem reader malloc w' (record p { cache = hd }) hd grants refl size
              declared))

    read_fd_head_lem :
        Grants malloc
        → IsModest (got ++ pending w)
        → Takes reader w got (read_fd_head reader malloc w p)
    read_fd_head_lem grants modest =
        let (new, w', e, q, h, full) = recv_cache_lem in
        elim (dec_lt (length new) p.need) [
          | yes few ↦ read_fd_head_few new w' e q few full
          | no many ↦ read_fd_head_whole new w' grants modest e q (omega arith)
        ]

  header_cases :
      (malloc : Malloc) (w : World) (p : MsgParser) (b : Bool)
      → p.header ≡ b
      → mparser_read_fd reader malloc (some p) (some w) ≡ (
          (if b then read_fd_body reader w p else read_fd_head reader malloc w p) >>= λ x.
          ok (x.0, some x.1, some x.2))
  unfolding mparser_read_fd
  header_cases malloc w p b h =
      ap
        (λ b. (if b then read_fd_body reader w p else read_fd_head reader malloc w p) >>= λ x.
          ok (x.0, some x.1, some x.2))
        h

  pub mparser_read_fd_full :
      (malloc : Malloc) (w : World) (p : MsgParser) (bs : List ℕ)
      → Grants malloc
      → Repr p bs
      → IsModest (bs ++ pending w)
      → (new : List ℕ) × (q : MsgParser) × (w' : World) × (mparser_read_fd reader malloc
            (some p)
            (some w)
          ≡ ok ((assemble (bs ++ new)).1, some q, some w'))
        × (pending w ≡ new ++ pending w')
        × (length (bs ++ new) ≤ frame_size (bs ++ new))
        × Repr q (assemble (bs ++ new)).0
        × Settles reader (bs ++ new) w'
  mparser_read_fd_full malloc w p bs grants (in_header tail wt pos) modest =
      let (new, q, w', t) = read_fd_head_lem malloc w p bs tail wt grants modest in
      (
        new,
        q,
        w',
        header_cases malloc w p false wt.header_clear
            ∙ ap (λ o. o >>= λ x. ok (x.0, some x.1, some x.2)) t.0,
        t.1,
        t.2,
        t.3,
        t.4,
      )
  mparser_read_fd_full malloc w p bs grants (in_payload m hd got tail l e pos) modest =
      let (new, q, w', t) =
        Takes-same reader (sym e) refl (read_fd_body_lem reader w p m hd got tail l) in
      (
        new,
        q,
        w',
        header_cases malloc w p true l.header_set
            ∙ ap (λ o. o >>= λ x. ok (x.0, some x.1, some x.2)) t.0,
        t.1,
        t.2,
        t.3,
        t.4,
      )

  -- A parser that holds the bytes `bs` takes some bytes `new` from the descriptor, and answers as
  -- `assemble` does on `bs ++ new`; it holds the bytes that are left. What it took are the next bytes
  -- of the descriptor, and none behind the end of the message. So no byte is lost or read twice, and
  -- no write leaves its object. The allocator has a block for the message, and its length fits an `int`.
  pub mparser_read_fd-assemble :
      (malloc : Malloc) (w : World) (p : MsgParser) (bs : List ℕ)
      → Grants malloc
      → Repr p bs
      → IsModest (bs ++ pending w)
      → (new : List ℕ) × (q : MsgParser) × (w' : World) × (mparser_read_fd reader malloc
            (some p)
            (some w)
          ≡ ok ((assemble (bs ++ new)).1, some q, some w'))
        × (pending w ≡ new ++ pending w')
        × (length (bs ++ new) ≤ frame_size (bs ++ new))
        × Repr q (assemble (bs ++ new)).0
  mparser_read_fd-assemble malloc w p bs grants held modest =
      let (new, q, w', e, split, le, r, settled) =
        mparser_read_fd_full malloc w p bs grants held modest in
      (new, q, w', e, split, le, r)
