-- ===== src/UdpPoint/Tests.antt =====
-- Datagrams at concrete inputs.
use compile_service.Common.{
  ℕ, ◌≡◌, refl, false, List, [], ◌∷◌, Option, none, some, take, length, ok, arith,
}
use compile_service.Message.Wire.{wire_header}
use compile_service.MsgParser.{MsgParser, init_state}
use compile_service.MsgParser.Spec.{Repr}
use compile_service.MsgParser.Progress.{init_state-Repr}
use compile_service.MsgParser.Pieces.{wire}
use compile_service.Samples.{zeros, parser}
use compile_service.Samples.Messages.{zeros-Grants, hello, hello_fields}
use compile_service.UdpPoint.{Point, Peer, Datagrams, temp_size, point_send_msg, point_recv_msg}
use compile_service.UdpPoint.Exchange.{point_send_msg_lem, point_recv_msg-wire}

abbrev Queue : Type 0
Queue = List (List ℕ × Peer)

abbrev first_bytes : Queue → ℕ → Option (List ℕ × Peer)
first_bytes [] n = none
first_bytes (d ∷ ds) n = some (take n d.0, d.1)

abbrev taken_off : Queue → Queue
taken_off [] = []
taken_off (d ∷ ds) = ds

-- A socket whose datagrams have come; every one that is sent is refused.
abbrev socket : Datagrams
socket = record {
  World = Queue;
  peek = first_bytes;
  receive = λ w n. (first_bytes w n, taken_off w);
  send_to = λ w bytes remote port. (false, w);
}

abbrev point : Point
point = record { fd = some 4; parser = init_state parser; user_data = none }

abbrev sender : Peer
sender = record { ip = 49 ∷ []; port = 8888 }

abbrev queue : Queue
queue = (wire hello, sender) ∷ []

next : socket.peek queue temp_size ≡ some (wire hello, sender)
unfolding wire_header
next = refl

taken : socket.receive queue (length (wire hello)) ≡ (some (wire hello, sender), [])
unfolding wire_header
taken = refl

point_send_msg_lem_example :
    point_send_msg socket [] (some point) (some hello) (some (49 ∷ [])) 8888
    ≡ ok (false, some hello, [])
point_send_msg_lem_example =
    point_send_msg_lem socket [] point hello (49 ∷ []) 8888
      (record { head_fits = hello_fields; whole = refl; int_size = omega arith })

point_recv_msg-wire_example :
    (q : MsgParser) × (point_recv_msg socket zeros queue (some point)
      ≡ ok (some (hello, sender), some q, []))
    × Repr q []
unfolding wire_header
point_recv_msg-wire_example =
    point_recv_msg-wire socket zeros queue [] point hello sender zeros-Grants
      (record { fields = hello_fields; counted = refl; modest = omega arith })
      (init_state-Repr parser refl) (omega arith) next taken
