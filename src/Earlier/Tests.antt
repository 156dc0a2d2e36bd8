-- ===== src/Earlier/Tests.antt =====
-- The first parser at concrete inputs.
use compile_service.Common.{◌++◌, some, ◌≡◌, refl, List, [], ◌∷◌, ok, take, arith, All, inl, inr}
use compile_service.Message.{Message}
use compile_service.Message.Wire.{wire_header}
use compile_service.MsgParser.{MsgParser}
use compile_service.MsgParser.Spec.{Repr}
use compile_service.MsgParser.Pieces.{wire, IsMessage, read_pieces}
use compile_service.MsgParser.Stream.{Cut, all_pieces}
use compile_service.Samples.Connection.{script-IsSteady}
use compile_service.Earlier.Clients.{clients_loop, clients_loop-mixed}
use compile_service.Samples.{script, zeros}
use compile_service.Samples.Messages.{
  zeros-Grants, idle, idle-Repr, hello, hello_fields, hello-IsMessage,
}
use compile_service.Earlier.Same.{earlier_pieces, IsSimple, earlier_pieces-read_pieces}
use compile_service.Earlier.Lost.{earlier_pieces-overwritten}

abbrev cuts : List Cut
cuts = (hello, wire hello ∷ []) ∷ (hello, wire_header hello.head ∷ hello.payload ∷ []) ∷ []

cuts-IsSimple : All (λ (c : Cut). IsMessage c.0 × IsSimple c) cuts
cuts-IsSimple =
    ((hello-IsMessage, (omega arith, inl refl)), ((hello-IsMessage, (omega arith, inr refl)), tt))

earlier_pieces-read_pieces_example :
    (q : MsgParser) × (q' : MsgParser) × (earlier_pieces zeros idle (all_pieces cuts)
      ≡ ok (hello ∷ hello ∷ [], q))
    × (read_pieces zeros idle (all_pieces cuts) ≡ ok (hello ∷ hello ∷ [], q'))
    × Repr q []
    × Repr q' []
earlier_pieces-read_pieces_example =
    earlier_pieces-read_pieces zeros cuts idle idle zeros-Grants idle-Repr idle-Repr cuts-IsSimple

earlier_pieces-overwritten_example :
    (d : Message) × (q : MsgParser) × (earlier_pieces zeros idle
        (wire_header hello.head ∷ (0x68 ∷ []) ∷ (0x69 ∷ []) ∷ [])
      ≡ ok (d ∷ [], q))
    × (d.head ≡ hello.head)
    × (take 1 d.payload ≡ 0x69 ∷ [])
    × Repr q []
earlier_pieces-overwritten_example =
    earlier_pieces-overwritten zeros zeros-Grants hello.head hello_fields (omega arith) idle
      (0x68 ∷ []) (0x69 ∷ []) idle-Repr (omega arith) (omega arith) refl

clients_loop-mixed_example :
    (q : MsgParser) × (clients_loop script zeros
        ((wire_header hello.head ++ (0x68 ∷ []), 3) ∷ (0x69 ∷ 1 ∷ 2 ∷ [], 0) ∷ [])
        (some idle)
      ≡ ok (hello ∷ [], some q))
    × Repr q []
unfolding wire_header
clients_loop-mixed_example =
    clients_loop-mixed script zeros script-IsSteady zeros-Grants hello hello-IsMessage 3
      (wire_header hello.head ++ (0x68 ∷ [])) (0x69 ∷ []) (1 ∷ 2 ∷ []) idle
      (wire_header hello.head ++ (0x68 ∷ [])) (0x69 ∷ 1 ∷ 2 ∷ []) refl (omega arith) refl refl
      idle-Repr
