-- ===== src/Earlier/Same.antt =====
-- Messages that arrive whole, or as a header and a payload, give the same with both parsers.
use compile_service.Common.{
  ℕ, ◌^◌, ◌<◌, ◌≡◌, refl, sym, ap, ◌∙◌, List, [], ◌∷◌, ◌++◌, Option, none, some, Malloc, Outcome,
  ok, ◌>>=◌, drop, length, length-drop, length-zero, append-nil, All, arith, ◌⊎◌, inl, inr, ◌==◌,
  if◌then◌else◌,
}
use compile_service.Message.{Message}
use compile_service.Message.Wire.{wire_header}
use compile_service.MsgParser.{MsgParser, init_state, block_size, sub32}
use compile_service.MsgParser.Spec.{Repr}
use compile_service.MsgParser.Progress.{
  Grants, init_state-Repr, block_size_modest, length-store_header,
}
use compile_service.MsgParser.Pieces.{IsMessage, wire, read_pieces, cons_some, joined}
use compile_service.MsgParser.Stream.{Cut, IsCut, all_pieces, messages, read_pieces-messages}
use compile_service.Earlier.{cleared, hand_out, earlier_body, earlier_rest, earlier_parser}
use compile_service.Earlier.Whole.{Repr-IsIdle, headed, earlier_head_lem, parser_set, first_piece}

-- MParser_ReadMem of the first parser on one piece after the other; the messages that come out.
unfoldable pub earlier_pieces :
    Malloc → MsgParser → List (List ℕ) → Outcome (List Message × MsgParser)
earlier_pieces malloc p [] = ok ([], p)
earlier_pieces malloc p (piece ∷ pieces) = do
  (ret, q) ← earlier_parser malloc p piece
  (rest, r) ← earlier_pieces malloc q pieces
  ok (cons_some ret rest, r)

pub cleared-Repr : (r : MsgParser) → length r.cache ≡ 12 → Repr (cleared r) []
unfolding cleared init_state
cleared-Repr r e = init_state-Repr r e

sub32_self : (n : ℕ) → n < 2 ^ 32 → sub32 n n ≡ 0
sub32_self n h = omega arith

pub handed : (r : MsgParser) → r.need ≡ 0 → hand_out r ≡ (r.msg, cleared r)
unfolding hand_out
handed r e = ap (λ n. if n == 0 then (r.msg, cleared r) else (none, r)) e

module _ (malloc : Malloc) (grants : Grants malloc) (m : Message) (v : IsMessage m) where
  -- A payload in one piece.
  payload_whole :
      (p : MsgParser)
      → Repr p []
      → (q : MsgParser) × (earlier_body malloc (headed p m.head) m.payload ≡ ok (some m, q))
        × Repr q []
  payload_whole p held =
      let (block, g, size) = grants m.head.length v.modest in
      let asked : malloc (block_size m.head.length) ≡ some block =
        ap malloc (block_size_modest m.head.length v.modest) ∙ g in
      let behind : drop (length m.payload) (drop 12 block) ≡ [] = length-zero _ (
        omega (
          arith,
          length-drop (length m.payload) (drop 12 block),
          length-drop 12 block,
          size,
          v.counted,
        )) in
      let whole : m.payload ++ drop (length m.payload) (drop 12 block) ≡ m.payload =
        ap (λ (b : List ℕ). m.payload ++ b) behind ∙ append-nil m.payload in
      let r : MsgParser = record (headed p m.head) {
        need = sub32 m.head.length (length m.payload);
        msg = some (record {
          head = m.head;
          payload = m.payload ++ drop (length m.payload) (drop 12 block);
        });
      } in
      let none_left : r.need ≡ 0 =
        ap (sub32 m.head.length) (sym v.counted)
        ∙ sub32_self m.head.length (omega (arith, v.modest)) in
      (
        cleared r,
        first_piece malloc p m.head m.payload block (Repr-IsIdle p held) v.fields asked size
              (omega (arith, v.counted))
            ∙ ap ok (handed r none_left)
            ∙ ap (λ (b : List ℕ). ok (some (record m { payload = b }), cleared r)) whole,
        cleared-Repr r (length-store_header m.head),
      )

  rest_some :
      (q : MsgParser) (mem : List ℕ)
      → 0 < length mem
      → earlier_rest malloc q mem ≡ earlier_body malloc q mem
  unfolding earlier_rest
  rest_some q [] h = absurd (omega arith)
  rest_some q (b ∷ mem) h = refl

  module _ (filled : 0 < length m.payload) (p : MsgParser) (held : Repr p []) where
    in_one : (q : MsgParser) × (earlier_parser malloc p (wire m) ≡ ok (some m, q)) × Repr q []
    in_one =
        let (q, e, s) = payload_whole p held in
        (
          q,
          earlier_head_lem malloc p m.head m.payload (Repr-IsIdle p held) v.fields
              ∙ rest_some (headed p m.head) m.payload filled
              ∙ e,
          s,
        )

    in_two :
        (q : MsgParser) × (earlier_parser malloc p (wire_header m.head)
          ≡ ok (none, headed p m.head))
        × (earlier_parser malloc (headed p m.head) m.payload ≡ ok (some m, q))
        × Repr q []
    unfolding earlier_rest
    in_two =
        let (q, e, s) = payload_whole p held in
        (
          q,
          ap (earlier_parser malloc p) (sym (append-nil (wire_header m.head)))
              ∙ earlier_head_lem malloc p m.head [] (Repr-IsIdle p held) v.fields,
          parser_set malloc (headed p m.head) m.payload filled refl ∙ e,
          s,
        )

-- A message that comes in one piece, or as its header and its payload.
abbrev pub IsSimple : Cut → Type 0
IsSimple c =
    (0 < length c.0.payload)
    × ((c.1 ≡ wire c.0 ∷ []) ⊎ (c.1 ≡ wire_header c.0.head ∷ c.0.payload ∷ []))

simple-IsCut : (c : Cut) → IsMessage c.0 → IsSimple c → IsCut c
simple-IsCut (m, pieces) v (pos, inl e) = (v, ap joined e ∙ append-nil (wire m))
simple-IsCut (m, pieces) v (pos, inr e) =
    (v, ap joined e ∙ ap (λ (b : List ℕ). wire_header m.head ++ b) (append-nil m.payload))

All-IsCut : (cs : List Cut) → All (λ c. IsMessage c.0 × IsSimple c) cs → All IsCut cs
All-IsCut [] a = tt
All-IsCut (c ∷ cs) ((v, s), a) = (simple-IsCut c v s, All-IsCut cs a)

module _ (malloc : Malloc) where
  pub pieces_step :
      (p q r : MsgParser) (piece : List ℕ) (pieces : List (List ℕ)) (ret : Option Message)
      (ms : List Message)
      → earlier_parser malloc p piece ≡ ok (ret, q)
      → earlier_pieces malloc q pieces ≡ ok (ms, r)
      → earlier_pieces malloc p (piece ∷ pieces) ≡ ok (cons_some ret ms, r)
  unfolding earlier_pieces
  pieces_step p q r piece pieces ret ms e f = rw (e, f)

  earlier_messages :
      (cs : List Cut) (p : MsgParser)
      → Grants malloc
      → Repr p []
      → All (λ c. IsMessage c.0 × IsSimple c) cs
      → (q : MsgParser) × (earlier_pieces malloc p (all_pieces cs) ≡ ok (messages cs, q))
        × Repr q []
  earlier_messages [] p grants held a = (p, unfold earlier_pieces in refl, held)
  earlier_messages ((m, pieces) ∷ cs) p grants held ((v, (pos, inl e)), a) =
      let (q, f, s) = in_one malloc grants m v pos p held in
      let (r, g, t) = earlier_messages cs q grants s a in
      (
        r,
        ap (λ (x : List (List ℕ)). earlier_pieces malloc p (x ++ all_pieces cs)) e
            ∙ pieces_step p q r (wire m) (all_pieces cs) (some m) (messages cs) f g,
        t,
      )
  earlier_messages ((m, pieces) ∷ cs) p grants held ((v, (pos, inr e)), a) =
      let (q, f1, f2, s) = in_two malloc grants m v pos p held in
      let (r, g, t) = earlier_messages cs q grants s a in
      (
        r,
        ap (λ (x : List (List ℕ)). earlier_pieces malloc p (x ++ all_pieces cs)) e
            ∙ pieces_step p (headed p m.head) r (wire_header m.head) (m.payload ∷ all_pieces cs)
                none (m ∷ messages cs) f1
                (pieces_step (headed p m.head) q r m.payload (all_pieces cs) (some m) (messages cs)
                  f2 g),
        t,
      )

  -- On messages with a payload that come one by one, each in one piece or as its header and its
  -- payload, the first parser and the present one do the same: both give every message, in order and
  -- unchanged, and hold no byte then.
  pub earlier_pieces-read_pieces :
      (cs : List Cut) (p p' : MsgParser)
      → Grants malloc
      → Repr p []
      → Repr p' []
      → All (λ c. IsMessage c.0 × IsSimple c) cs
      → (q : MsgParser) × (q' : MsgParser) × (earlier_pieces malloc p (all_pieces cs)
          ≡ ok (messages cs, q))
        × (read_pieces malloc p' (all_pieces cs) ≡ ok (messages cs, q'))
        × Repr q []
        × Repr q' []
  earlier_pieces-read_pieces cs p p' grants held held' a =
      let (q, e, s) = earlier_messages cs p grants held a in
      let (q', e', s') = read_pieces-messages malloc grants cs p' held' (All-IsCut cs a) in
      (q, q', e, e', s, s')
