-- ===== src/Ownership/Tests.antt =====
-- A server with two clients, one of which has a message half built, at concrete addresses.
use mathlib.Core.List.{Perm}
use mathlib.Core.List.Perm
use compile_service.Common.{◌≡◌, refl, false, [], ◌∷◌, Option, none, some, ok, fault}
use compile_service.Heap.{Heap, free}
use compile_service.Ownership.{
  ClientBlocks, ServerBlocks, server_del, client_del, make_point, point_del, clients_del,
  reset_blocks, mparser_del,
}
use compile_service.Ownership.Deleted.{server_del_lem, make_point-point_del}

abbrev waiting : ClientBlocks
waiting = record { self = 20; parser = record { self = 21; msg = none } }

abbrev halfway : ClientBlocks
halfway = record { self = 30; parser = record { self = 31; msg = some 32 } }

abbrev server : ServerBlocks
server = record { self = 10; clients = none ∷ some waiting ∷ some halfway ∷ [] }

server_del_lem_example :
    (heap' : Heap) × (server_del (some server) (21 ∷ 20 ∷ 32 ∷ 31 ∷ 30 ∷ 10 ∷ 5 ∷ []) ≡ ok heap')
    × Perm heap' (5 ∷ [])
server_del_lem_example =
    server_del_lem server (21 ∷ 20 ∷ 32 ∷ 31 ∷ 30 ∷ 10 ∷ 5 ∷ []) (5 ∷ [])
      (Perm.refl (21 ∷ 20 ∷ 32 ∷ 31 ∷ 30 ∷ 10 ∷ 5 ∷ []))

-- The same client in two places would be freed twice.
twice : clients_del (some waiting ∷ some waiting ∷ []) (20 ∷ 21 ∷ []) ≡ fault
unfolding clients_del client_del reset_blocks mparser_del free
twice = refl

make_point-point_del_example :
    (made : Option ClientBlocks) × (heap' : Heap) × (make_point (some 40) (some 41) false (5 ∷ [])
      ≡ ok (made, heap'))
    × (point_del made heap' ≡ ok (5 ∷ []))
make_point-point_del_example = make_point-point_del (some 40) (some 41) false (5 ∷ [])
