-- ===== src/Ownership.antt =====
-- Who owns which block: the operations that make and delete parsers, clients, datagram sockets and
-- servers (`msg_parser.c`, `tcp_client.c`, `udp_point.c`, `tcp_server.c`), and MParser_Del of
-- `basic_material/message1/msg_parser.c`, as what they allocate and free. The records hold the
-- addresses that the objects of those files hold.
pub mod Deleted
mod Tests
use compile_service.Common.{
  ℕ, Bool, true, false, List, [], ◌∷◌, ◌++◌, Option, none, some, if◌then◌else◌, Outcome, ok, ◌>>=◌,
}
use compile_service.Heap.{Heap, allocate, free, owned_pointer}

-- A parser, at `self`, and the message that it is building.
pub record ParserBlocks : Type 0 where
  pub self : ℕ
  pub msg : Option ℕ

-- A client or a datagram socket: its own block and its parser's.
pub record ClientBlocks : Type 0 where
  pub self : ℕ
  pub parser : ParserBlocks

pub record ServerBlocks : Type 0 where
  pub self : ℕ
  pub clients : List (Option ClientBlocks)

abbrev pub owned_parser : ParserBlocks → List ℕ
owned_parser p = owned_pointer p.msg ++ (p.self ∷ [])

abbrev pub owned_client : Option ClientBlocks → List ℕ
owned_client none = []
owned_client (some c) = owned_parser c.parser ++ (c.self ∷ [])

abbrev pub owned_clients : List (Option ClientBlocks) → List ℕ
owned_clients [] = []
owned_clients (c ∷ cs) = owned_client c ++ owned_clients cs

abbrev pub owned_server : ServerBlocks → List ℕ
owned_server s = owned_clients s.clients ++ (s.self ∷ [])

-- InitState, on the blocks.
unfoldable pub reset_blocks : ParserBlocks → Heap → Outcome (ParserBlocks × Heap)
reset_blocks p heap = free p.msg heap >>= λ heap'. ok (record p { msg = none }, heap')

-- MParser_New, whose `calloc` gives a block or none; InitState then frees no message.
unfoldable pub make_parser : Option ℕ → Heap → Option ParserBlocks × Heap
make_parser none heap = (none, heap)
make_parser (some a) heap = (some (record { self = a; msg = none }), a ∷ heap)

unfoldable pub mparser_del : Option ParserBlocks → Heap → Outcome Heap
mparser_del none heap = ok heap
mparser_del (some p) heap = free p.msg heap >>= λ heap'. free (some p.self) heap'

-- MParser_Del of the earlier parser.
unfoldable pub earlier_del : Option ParserBlocks → Heap → Outcome Heap
earlier_del none heap = ok heap
earlier_del (some p) heap = elim p.msg [
  | none ↦ ok heap
  | some m ↦ free (some m) heap >>= λ heap'. free (some p.self) heap'
]

-- TcpClient_From: `block` is the answer of its `malloc`, `calloc` that of MParser_New's. The parser
-- is made only behind a block.
unfoldable pub make_client : Option ℕ → Option ℕ → Heap → Outcome (Option ClientBlocks × Heap)
unfolding make_parser
make_client none calloc heap = ok (none, heap)
make_client (some a) calloc heap =
    let (parser, heap') = make_parser calloc (a ∷ heap) in
    elim parser [
      | none ↦ free (some a) heap' >>= λ heap''. ok (none, heap'')
      | some p ↦ ok (some (record { self = a; parser = p }), heap')
    ]

-- TcpClient_Del; TcpClient_Close, which it calls first, resets the parser.
unfoldable pub client_del : Option ClientBlocks → Heap → Outcome Heap
unfolding reset_blocks mparser_del
client_del none heap = ok heap
client_del (some c) heap = reset_blocks c.parser heap >>= λ (parser, heap').
    mparser_del (some parser) heap' >>= λ heap''. free (some c.self) heap''

-- UdpPoint_New: `ready` says that neither `socket` nor `bind` fails. On a failure the parser, if
-- there is one, and the point are freed again.
unfoldable pub make_point : Option ℕ → Option ℕ → Bool → Heap → Outcome (Option ClientBlocks × Heap)
unfolding make_parser mparser_del
make_point none calloc ready heap = ok (none, heap)
make_point (some a) calloc ready heap =
    let (parser, heap') = make_parser calloc (a ∷ heap) in
    let undone = mparser_del parser heap' >>= λ freed. free (some a) freed in
    elim parser [
      | none ↦ undone >>= λ heap''. ok (none, heap'')
      | some p ↦
          if ready
          then ok (some (record { self = a; parser = p }), heap')
          else (undone >>= λ heap''. ok (none, heap''))
    ]

unfoldable pub point_del : Option ClientBlocks → Heap → Outcome Heap
unfolding mparser_del
point_del none heap = ok heap
point_del (some c) heap = mparser_del (some c.parser) heap >>= λ heap'. free (some c.self) heap'

-- The loop of TcpServer_Stop.
unfoldable pub clients_del : List (Option ClientBlocks) → Heap → Outcome Heap
unfolding client_del
clients_del [] heap = ok heap
clients_del (c ∷ cs) heap = client_del c heap >>= λ heap'. clients_del cs heap'

-- TcpServer_Stop leaves every place empty.
abbrev pub emptied : List (Option ClientBlocks) → List (Option ClientBlocks)
emptied [] = []
emptied (c ∷ cs) = none ∷ emptied cs

unfoldable pub stop_blocks : Option ServerBlocks → Heap → Outcome (Option ServerBlocks × Heap)
unfolding clients_del
stop_blocks none heap = ok (none, heap)
stop_blocks (some s) heap = clients_del s.clients heap >>= λ heap'.
    ok (some (record s { clients = emptied s.clients }), heap')

-- TcpServer_Del
unfoldable pub server_del : Option ServerBlocks → Heap → Outcome Heap
unfolding stop_blocks
server_del server heap = stop_blocks server heap >>= λ (stopped, heap'). elim stopped [
  | none ↦ ok heap'
  | some s ↦ free (some s.self) heap'
]
