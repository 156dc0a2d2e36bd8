-- ===== src/TcpClient/RoundTrip.antt =====
-- Messages from TcpClient_SendMsg on one side to TcpClient_RecvMsg on the other.
use compile_service.Common.{
  ℕ, zero, suc, ◌≡◌, refl, sym, ap, ◌∙◌, true, List, [], ◌∷◌, ◌++◌, Option, none, some, take_all,
  length, append_assoc, append-nil, Malloc, Outcome, ok, ◌>>=◌, All, arith,
}
use compile_service.Message.{Message}
use compile_service.Sender.{Sender, IsWhole}
use compile_service.Reader.{Reader, IsSteady}
use compile_service.MsgParser.{MsgParser}
use compile_service.MsgParser.Spec.{Repr}
use compile_service.MsgParser.Progress.{Grants}
use compile_service.MsgParser.Pieces.{IsMessage, wire, cons_some}
use compile_service.MsgParser.Descriptor.Whole.{mparser_read_fd-wire}
use compile_service.TcpClient.{Client, send_msg, recv_msg, not_failed}
use compile_service.TcpClient.Messages.{IsObject, send_whole}

-- The bytes of messages, one behind the other.
abbrev pub wires : List Message → List ℕ
wires [] = []
wires (m ∷ ms) = wire m ++ wires ms

-- TcpClient_SendMsg for one message after the other.
abbrev pub send_all : (S : Sender) → S.World → Client → List Message → Outcome S.World
send_all S w c [] = ok w
send_all S w c (m ∷ ms) = send_msg S w (some c) (some m) >>= λ r. send_all S r.2 c ms

-- A client's parser after a call, which leaves it in place.
abbrev pub with_parser : Client → Option MsgParser → Client
with_parser c none = c
with_parser c (some p) = record c { parser = p }

-- `n` calls of TcpClient_RecvMsg.
abbrev pub recv_all :
    (reader : Reader)
    → Malloc
    → ℕ
    → Client
    → Option (Reader.World reader)
    → Outcome (List Message × Client)
recv_all reader malloc zero c w = ok ([], c)
recv_all reader malloc (suc n) c w = recv_msg reader malloc (some c) w >>= λ (m, p, w').
    recv_all reader malloc n (with_parser c p) w' >>= λ (ms, c'). ok (cons_some m ms, c')

IsObject-IsMessage : (m : Message) → IsObject m → IsMessage m
IsObject-IsMessage m v = record {
  fields = v.head_fits;
  counted = sym v.whole;
  modest = omega (arith, v.int_size);
}

module _ (S : Sender) (whole : IsWhole S) where
  send_one :
      (w : S.World) (c : Client) (m : Message)
      → IsObject m
      → (w' : S.World) × (send_msg S w (some c) (some m) ≡ ok (true, some m, w'))
        × (S.sent w' ≡ S.sent w ++ wire m)
  send_one w c m v =
      let (w', e) = whole w (wire m) in
      (
        w',
        send_whole S w c m v ∙ ap (λ (r : Option ℕ × S.World). ok (not_failed r.0, some m, r.1)) e,
        (S.send_some w w' (wire m) (length (wire m)) e).1
            ∙ ap (λ bs. S.sent w ++ bs) (take_all (length (wire m)) (wire m) (omega arith)),
      )

  send_all_lem :
      (ms : List Message) (w : S.World) (c : Client)
      → All IsObject ms
      → (w' : S.World) × (send_all S w c ms ≡ ok w') × (S.sent w' ≡ S.sent w ++ wires ms)
  send_all_lem [] w c v = (w, refl, sym (append-nil (S.sent w)))
  send_all_lem (m ∷ ms) w c (v, vs) =
      let (w1, run, s1) = send_one w c m v in
      let (w2, runs, s2) = send_all_lem ms w1 c vs in
      (
        w2,
        rw run runs,
        s2 ∙ ap (λ bs. bs ++ wires ms) s1 ∙ append_assoc (S.sent w) (wire m) (wires ms),
      )

module _ (reader : Reader) (steady : IsSteady reader) (malloc : Malloc)
    (grants : Grants malloc) where
  recv_all_lem :
      (ms : List Message) (w : Reader.World reader) (c : Client)
      → All IsObject ms
      → Repr c.parser []
      → Reader.pending reader w ≡ wires ms
      → (c' : Client) × (recv_all reader malloc (length ms) c (some w) ≡ ok (ms, c'))
        × Repr c'.parser []
  unfolding recv_msg
  recv_all_lem [] w c v idle e = (c, refl, idle)
  recv_all_lem (m ∷ ms) w c (v, vs) idle e =
      let (q, w', run, left, held) =
        mparser_read_fd-wire m (IsObject-IsMessage m v) reader malloc w c.parser (wires ms) steady
          grants idle e in
      let (c', runs, idle') = recv_all_lem ms w' (record c { parser = q }) vs held left in
      (c', rw (run, runs), idle')

-- Messages that TcpClient_SendMsg puts on a connection, one after the other, when it takes every byte:
-- their bytes in network order go out, in order and nothing else; and a client with a fresh parser,
-- whose descriptor has just these bytes to give and no read of which fails, gets the messages from as
-- many calls of TcpClient_RecvMsg, in order, each of them unchanged, and its parser holds no byte then.
-- The message objects are as long as their headers say, with a size that fits an `int`, and the
-- allocator has the blocks.
pub send_all-recv_all :
    (S : Sender) (reader : Reader) (malloc : Malloc) (ms : List Message) (w : S.World)
    (r : Reader.World reader) (c d : Client)
    → IsWhole S
    → IsSteady reader
    → Grants malloc
    → All IsObject ms
    → Repr d.parser []
    → Reader.pending reader r ≡ wires ms
    → (w' : S.World) × (d' : Client) × (send_all S w c ms ≡ ok w')
      × (S.sent w' ≡ S.sent w ++ wires ms)
      × (recv_all reader malloc (length ms) d (some r) ≡ ok (ms, d'))
      × Repr d'.parser []
send_all-recv_all S reader malloc ms w r c d whole steady grants v idle e =
    let (w', sends, sent) = send_all_lem S whole ms w c v in
    let (d', gets, held) = recv_all_lem reader steady malloc grants ms r d v idle e in
    (w', d', sends, sent, gets, held)
