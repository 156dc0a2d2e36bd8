-- ===== src/MsgParser/Tests.antt =====
-- The parser on the bytes of basic_material/message/test.c, and the theorems at concrete inputs.
use compile_service.Common.{
  ℕ, ◌+◌, ◌^◌, ◌≤◌, ◌≡◌, refl, List, [], ◌∷◌, ◌++◌, none, some, false, drop, length, replicate,
  length-replicate, arith, Malloc, ok, fault, poke, if◌then◌else◌, leb, le→leb,
}
use compile_service.Message.{
  Header, Message, ntohs, ntohl, store16, store32, load16, load32, store_header, load_header, n2h,
}
use compile_service.Message.Wire.{wire_header, decode_header}
use compile_service.Samples.{script}
use compile_service.MsgParser.{
  MsgParser, init_state, mparser_read_mem, read_parser, read_head, read_body, enter_body,
  to_mid_state, to_last_state, finish, copy_header, copy_payload, memcpy_at, part, block_size,
}
use compile_service.MsgParser.Spec.{assemble, frame_size, Repr}
use compile_service.MsgParser.Progress.{Grants, init_state-Repr}
use compile_service.MsgParser.Memory.{mparser_read_mem-assemble}
use compile_service.MsgParser.Pieces.{wire, read_pieces}
use compile_service.MsgParser.Stream.{Cut, all_pieces, read_pieces-messages}
use compile_service.MsgParser.Hostile.{mparser_read_mem-overflow, mparser_read_mem-long}
use compile_service.MsgParser.Receive.{to_recv}
use compile_service.MsgParser.Receive.Loop.{to_recv_lem}
use compile_service.MsgParser.Descriptor.{mparser_read_fd}
use compile_service.MsgParser.Descriptor.Refines.{mparser_read_fd-assemble}

-- An allocator that has every block, filled with zeros.
zeros : Malloc
zeros n = some (replicate n 0)

zeros-Grants : Grants zeros
unfolding zeros
zeros-Grants n h = (replicate (12 + n) 0, refl, length-replicate (12 + n) 0)

abbrev blank : MsgParser
blank = record { cache = replicate 12 0; header = false; need = 0; msg = none }

fresh : MsgParser
fresh = init_state blank

fresh-Repr : Repr fresh []
unfolding fresh
fresh-Repr = init_state-Repr blank refl

abbrev sent_header : Header
sent_header = record { type = 1; cmd = 2; index = 3; total = 4; length = 4 }

abbrev sent : Message
sent = record { head = sent_header; payload = 0x11 ∷ 0x12 ∷ 0x13 ∷ 0x14 ∷ [] }

abbrev head_bytes : List ℕ
head_bytes = 0 ∷ 1 ∷ 0 ∷ 2 ∷ 0 ∷ 3 ∷ 0 ∷ 4 ∷ 0 ∷ 0 ∷ 0 ∷ 4 ∷ []

abbrev payload_bytes : List ℕ
payload_bytes = 0x11 ∷ 0x12 ∷ 0x13 ∷ 0x14 ∷ []

sent_bytes : wire sent ≡ head_bytes ++ payload_bytes
unfolding wire_header
sent_bytes = refl

two_pieces :
    read_pieces zeros fresh (head_bytes ∷ payload_bytes ∷ [])
    ≡ ok (sent ∷ [], record (init_state blank) { cache = store_header sent_header })
unfolding read_pieces read_parser read_head read_body enter_body to_mid_state to_last_state finish
    copy_header copy_payload memcpy_at part block_size fresh zeros init_state n2h ntohs ntohl
    store16 store32 load16 load32 store_header load_header poke
two_pieces = refl

declared_length : (decode_header (head_bytes ++ payload_bytes)).length ≡ 4
unfolding decode_header load_header n2h load32 ntohl
declared_length = refl

mparser_read_mem-assemble_example :
    (q : MsgParser) × (mparser_read_mem zeros (some fresh) (some (head_bytes ++ payload_bytes))
      ≡ ok ((assemble (head_bytes ++ payload_bytes)).1, some q))
    × Repr q (assemble (head_bytes ++ payload_bytes)).0
mparser_read_mem-assemble_example =
    mparser_read_mem-assemble zeros fresh [] (head_bytes ++ payload_bytes) zeros-Grants fresh-Repr
      (λ h. omega (arith, declared_length))

abbrev cuts : List Cut
cuts =
    (sent, (0 ∷ 1 ∷ 0 ∷ []) ∷ [] ∷ drop 3 (head_bytes ++ payload_bytes) ∷ [])
    ∷ (sent, head_bytes ∷ payload_bytes ∷ [])
    ∷ []

read_pieces-messages_example :
    (q : MsgParser) × (read_pieces zeros fresh (all_pieces cuts) ≡ ok (sent ∷ sent ∷ [], q))
    × Repr q []
unfolding wire_header
read_pieces-messages_example =
    read_pieces-messages zeros zeros-Grants cuts fresh fresh-Repr
      ((omega arith, refl), ((omega arith, refl), tt))

abbrev hostile_header : Header
hostile_header = record { type = 1; cmd = 2; index = 3; total = 4; length = 0xffff_ffff }

mparser_read_mem-overflow_example :
    mparser_read_mem zeros (some fresh) (some (wire_header hostile_header ++ (7 ∷ []))) ≡ fault
unfolding zeros
mparser_read_mem-overflow_example =
    mparser_read_mem-overflow zeros fresh hostile_header (7 ∷ []) (replicate 11 0) fresh-Repr
      (omega arith) (omega arith) refl refl

-- An allocator that has blocks below 2 ^ 63 bytes.
bounded : Malloc
bounded n = if leb (2 ^ 63) n then none else some (replicate n 0)

bounded_refuses : (n : ℕ) → 2 ^ 63 ≤ n → bounded n ≡ none
unfolding bounded
bounded_refuses n h = rw (le→leb (2 ^ 63) n h)

abbrev long_header : Header
long_header = record { type = 1; cmd = 2; index = 3; total = 4; length = 0x8000_0000 }

mparser_read_mem-long_example :
    (q : MsgParser) × (mparser_read_mem bounded
        (some fresh)
        (some (wire_header long_header ++ (7 ∷ [])))
      ≡ ok (none, some q))
    × Repr q []
mparser_read_mem-long_example =
    mparser_read_mem-long bounded fresh long_header (7 ∷ []) bounded_refuses fresh-Repr
      (omega arith) (omega arith) (omega arith)

to_recv_lem_example :
    (bs w' : List ℕ) × (to_recv script (1 ∷ 2 ∷ 3 ∷ []) (9 ∷ 0 ∷ 0 ∷ []) 1 2
      ≡ ok (length bs, 9 ∷ (bs ++ drop (length bs) (0 ∷ 0 ∷ [])), w'))
    × (◌≡◌ {A = List ℕ} (1 ∷ 2 ∷ 3 ∷ []) (bs ++ w'))
    × (length bs ≤ 2)
to_recv_lem_example =
    to_recv_lem script (1 ∷ 2 ∷ 3 ∷ []) (9 ∷ []) (0 ∷ 0 ∷ []) 2 (omega arith) (omega arith)

mparser_read_fd-assemble_example :
    (new : List ℕ) × (q : MsgParser) × (w' : List ℕ) × (mparser_read_fd script zeros
        (some fresh)
        (some (head_bytes ++ payload_bytes))
      ≡ ok ((assemble new).1, some q, some w'))
    × (head_bytes ++ payload_bytes ≡ new ++ w')
    × (length new ≤ frame_size new)
    × Repr q (assemble new).0
mparser_read_fd-assemble_example =
    mparser_read_fd-assemble script zeros (head_bytes ++ payload_bytes) fresh [] zeros-Grants
      fresh-Repr (λ h. omega (arith, declared_length))
