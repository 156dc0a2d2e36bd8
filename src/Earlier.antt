-- ===== src/Earlier.antt =====
-- The first parser, basic_material/message/msg_parser.c, whose MParser_ReadMem
-- basic_material/message1/msg_parser.c keeps. Its state is that of the present parser.
pub mod Whole
pub mod Same
pub mod Lost
pub mod Clients
mod Tests
use compile_service.Common.{
  ℕ, ◌≤◌, Bool, true, false, List, [], ◌∷◌, Option, none, some, Malloc, Outcome, ok, fault, ◌>>=◌,
  poke, leb, ltb, ◌==◌, if◌then◌else◌, take, drop, length, replicate,
}
use compile_service.Message.{Message, sizeof_message, load_header, store_header, n2h}
use compile_service.MsgParser.{MsgParser, block_size, copy_header, sub32, part}

-- MParser_Reset on a parser, which frees a message that is there.
unfoldable pub cleared : MsgParser → MsgParser
cleared p = record p { header = false; need = sizeof_message; msg = none }

unfoldable pub earlier_reset : Option MsgParser → Option MsgParser
earlier_reset none = none
earlier_reset (some p) = some (cleared p)

-- MParser_New: `granted` says that `calloc` has the zeros.
unfoldable pub earlier_new : Bool → Option MsgParser
earlier_new granted = earlier_reset (
    if granted
    then some (record { cache = replicate 12 0; header = false; need = 0; msg = none })
    else none)

-- The block for the message, if there is none yet. Without memory there is still none.
unfoldable pub ensure_msg : Malloc → MsgParser → Option Message → Outcome MsgParser
ensure_msg malloc p (some m) = ok p
ensure_msg malloc p none = elim (malloc (block_size p.need)) [
  | none ↦ ok p
  | some block ↦ copy_header p.cache block >>= λ m. ok (record p { msg = some m })
]

-- `memcpy(p->msg->payload, mem, len)`: the offset that was computed is not used.
unfoldable pub overwrite : MsgParser → List ℕ → Option Message → Outcome MsgParser
overwrite p mem none = ok p
overwrite p mem (some m) =
    let len = part p.need mem in
    poke m.payload 0 (take len mem) >>= λ payload.
    ok (record p { need = sub32 p.need len; msg = some (record m { payload = payload }) })

-- `if(!p->need)` with what follows.
unfoldable pub hand_out : MsgParser → Option Message × MsgParser
hand_out p = if p.need == 0 then (p.msg, cleared p) else (none, p)

-- MParser_ReadMem once the header is parsed.
unfoldable pub earlier_body : Malloc → MsgParser → List ℕ → Outcome (Option Message × MsgParser)
earlier_body malloc p mem = do
  q ← ensure_msg malloc p p.msg
  r ← overwrite q mem q.msg
  ok (hand_out r)

-- The recursive call: `header` is set, and with no byte left it does nothing.
unfoldable pub earlier_rest : Malloc → MsgParser → List ℕ → Outcome (Option Message × MsgParser)
earlier_rest malloc p [] = ok (none, p)
earlier_rest malloc p (b ∷ mem) = earlier_body malloc p (b ∷ mem)

-- The header's branch, `need` being `p->need`. A piece with fewer bytes is dropped.
unfoldable pub earlier_head : Malloc → MsgParser → ℕ → List ℕ → Outcome (Option Message × MsgParser)
earlier_head malloc p need mem =
    if leb need (length mem)
    then (poke p.cache 0 (take need mem) >>= λ cache.
        let head = n2h (load_header cache) in
        earlier_rest malloc
          (record p { cache = store_header head; header = true; need = head.length })
          (drop need mem))
    else ok (none, p)

unfoldable pub earlier_parser : Malloc → MsgParser → List ℕ → Outcome (Option Message × MsgParser)
earlier_parser malloc p [] = ok (none, p)
earlier_parser malloc p (b ∷ mem) =
    if p.header then earlier_body malloc p (b ∷ mem) else earlier_head malloc p p.need (b ∷ mem)

unfoldable pub earlier_read_mem :
    Malloc → Option MsgParser → Option (List ℕ) → Outcome (Option Message × Option MsgParser)
earlier_read_mem malloc none mem = ok (none, none)
earlier_read_mem malloc (some p) none = ok (none, some p)
earlier_read_mem malloc (some p) (some mem) =
    earlier_parser malloc p mem >>= λ r. ok (r.0, some r.1)
