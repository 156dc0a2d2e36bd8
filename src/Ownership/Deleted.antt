-- ===== src/Ownership/Deleted.antt =====
-- Deleting an object frees all that it owns, each block once.
use mathlib.Core.List.{Perm}
use compile_service.Common.{
  ==_refl, ℕ, ◌≡◌, refl, sym, >>=_assoc, ◌∙◌, Bool, true, false, List, [], ◌∷◌, ◌++◌, Option, none,
  some, ok, ◌>>=◌,
}
use compile_service.Heap.{Heap, free, owned_pointer, Frees, free-Frees, nothing-Frees, then-Frees}
use compile_service.Ownership.{
  ParserBlocks, ClientBlocks, ServerBlocks, owned_parser, owned_client, owned_clients, owned_server,
  reset_blocks, mparser_del, earlier_del, client_del, point_del, clients_del, stop_blocks,
  server_del, emptied, make_client, make_point, make_parser,
}

mparser_del-Frees : (p : ParserBlocks) → Frees (mparser_del (some p)) (owned_parser p)
unfolding mparser_del
mparser_del-Frees p =
    then-Frees (free p.msg) (free (some p.self)) (owned_pointer p.msg) (p.self ∷ [])
      (free-Frees p.msg) (free-Frees (some p.self))

-- UdpPoint_Del frees the point and its parser, with the message that the parser is building.
pub point_del-Frees : (c : Option ClientBlocks) → Frees (point_del c) (owned_client c)
unfolding point_del
point_del-Frees none = nothing-Frees
point_del-Frees (some c) =
    then-Frees (mparser_del (some c.parser)) (free (some c.self)) (owned_parser c.parser)
      (c.self ∷ []) (mparser_del-Frees c.parser) (free-Frees (some c.self))

-- The reset in TcpClient_Close frees the message, and MParser_Del finds none.
client_del-point_del :
    (c : Option ClientBlocks) (heap : Heap) → client_del c heap ≡ point_del c heap
unfolding client_del point_del mparser_del reset_blocks free
client_del-point_del none heap = refl
client_del-point_del (some c) heap =
    let at_self = λ (h : Heap). free (some c.self) h in
    let close = λ (h : Heap). ok (record c.parser { msg = none }, h) in
    >>=_assoc (free c.parser.msg heap) close
      (λ (parser, h). mparser_del (some parser) h >>= at_self)
    ∙ sym (>>=_assoc (free c.parser.msg heap) (free (some c.parser.self)) at_self)

client_del-Frees : (c : Option ClientBlocks) → Frees (client_del c) (owned_client c)
client_del-Frees c heap rest p =
    let (heap', run, q) = point_del-Frees c heap rest p in
    (heap', client_del-point_del c heap ∙ run, q)

clients_del-Frees : (cs : List (Option ClientBlocks)) → Frees (clients_del cs) (owned_clients cs)
unfolding clients_del
clients_del-Frees [] = nothing-Frees
clients_del-Frees (c ∷ cs) =
    then-Frees (client_del c) (clients_del cs) (owned_client c) (owned_clients cs)
      (client_del-Frees c) (clients_del-Frees cs)

-- TcpServer_Del of a server whose blocks are all live, each of them once: it returns, so that it frees
-- no block twice and none that is not live, and what is live then are the other blocks. The blocks
-- of a server are its own, those of its clients, their parsers, and the messages half built.
pub server_del_lem :
    (s : ServerBlocks) (heap rest : Heap)
    → Perm heap (owned_server s ++ rest)
    → (heap' : Heap) × (server_del (some s) heap ≡ ok heap') × Perm heap' rest
unfolding server_del stop_blocks
server_del_lem s heap rest p =
    let (heap', run, q) =
      then-Frees (clients_del s.clients) (free (some s.self)) (owned_clients s.clients)
        (s.self ∷ []) (clients_del-Frees s.clients) (free-Frees (some s.self)) heap rest p in
    (
      heap',
      >>=_assoc (clients_del s.clients heap)
            (λ h. ok (some (record s { clients = emptied s.clients }), h))
            (λ (stopped, h). elim stopped [ none ↦ ok h | some t ↦ free (some t.self) h ])
          ∙ run,
      q,
    )

-- TcpClient_From and then TcpClient_Del of what it answers, whichever of the allocations fail: the
-- live blocks are as they were.
pub make_client-client_del :
    (block calloc : Option ℕ) (heap : Heap)
    → (made : Option ClientBlocks) × (heap' : Heap) × (make_client block calloc heap
        ≡ ok (made, heap'))
      × (client_del made heap' ≡ ok heap)
unfolding make_client make_parser client_del mparser_del reset_blocks free
make_client-client_del none calloc heap = (none, heap, refl, refl)
make_client-client_del (some a) none heap = (none, heap, rw (==_refl a), refl)
make_client-client_del (some a) (some p) heap = (
  some (record { self = a; parser = record { self = p; msg = none } }),
  p ∷ a ∷ heap,
  refl,
  rw (==_refl p, ==_refl a),
)

-- UdpPoint_New and then UdpPoint_Del of what it answers, whichever of `malloc`, MParser_New, `socket`
-- and `bind` fail: the live blocks are as they were.
pub make_point-point_del :
    (block calloc : Option ℕ) (ready : Bool) (heap : Heap)
    → (made : Option ClientBlocks) × (heap' : Heap) × (make_point block calloc ready heap
        ≡ ok (made, heap'))
      × (point_del made heap' ≡ ok heap)
unfolding make_point make_parser point_del mparser_del free
make_point-point_del none calloc ready heap = (none, heap, refl, refl)
make_point-point_del (some a) none ready heap = (none, heap, rw (==_refl a), refl)
make_point-point_del (some a) (some p) false heap = (none, heap, rw (==_refl p, ==_refl a), refl)
make_point-point_del (some a) (some p) true heap = (
  some (record { self = a; parser = record { self = p; msg = none } }),
  p ∷ a ∷ heap,
  refl,
  rw (==_refl p, ==_refl a),
)

-- What MParser_Del of the earlier parser leaves behind.
abbrev pub leaked : ParserBlocks → List ℕ
leaked p = elim p.msg [ none ↦ p.self ∷ [] | some m ↦ [] ]

earlier_del_at :
    (a : ℕ) (msg : Option ℕ) (heap rest : Heap)
    → let p : ParserBlocks = record { self = a; msg = msg } in
      Perm heap (owned_parser p ++ rest)
      → (heap' : Heap) × (earlier_del (some p) heap ≡ ok heap') × Perm heap' (leaked p ++ rest)
unfolding earlier_del mparser_del
earlier_del_at a none heap rest q = (heap, refl, q)
earlier_del_at a (some m) heap rest q =
    mparser_del-Frees (record { self = a; msg = some m }) heap rest q

-- MParser_Del of `basic_material/message1`: the parser is freed with the message that it is building,
-- and when it is building none, it is not freed at all.
pub earlier_del_lem :
    (p : ParserBlocks) (heap rest : Heap)
    → Perm heap (owned_parser p ++ rest)
    → (heap' : Heap) × (earlier_del (some p) heap ≡ ok heap') × Perm heap' (leaked p ++ rest)
earlier_del_lem p = earlier_del_at p.self p.msg
