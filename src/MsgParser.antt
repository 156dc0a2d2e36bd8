-- ===== src/MsgParser.antt =====
-- msg_parser.c: the incremental parser of protocol messages, from memory and from a descriptor.
-- `int need` and the other 32-bit numbers are bit patterns: -1 is 2 ^ 32 - 1.
mod Tests
pub mod Assemble
pub mod Progress
pub mod Body
pub mod Spec
pub mod Memory
pub mod Pieces
pub mod Stream
pub mod Hostile
pub mod Receive
pub mod Descriptor
use compile_service.Common.{
  ℕ, zero, suc, ◌+◌, ◌-◌, ◌*◌, ◌%◌, ◌^◌, Bool, true, false, ◌&&◌, List, [], ◌∷◌, Option, none, some,
  Malloc, Outcome, ok, fault, stuck, ◌>>=◌, poke, leb, ltb, ◌==◌, if◌then◌else◌, take, drop, length,
  replicate,
}
use compile_service.Message.{Message, Header, sizeof_message, load_header, store_header, n2h}

-- `header` says that the header has been parsed, `need` how many bytes are still wanted.
pub record MsgParser : Type 0 where
  pub cache : List ℕ
  pub header : Bool
  pub need : ℕ
  pub msg : Option Message

unfoldable pub init_state : MsgParser → MsgParser
init_state p = record p { header = false; need = sizeof_message; msg = none }

-- `sizeof(p->cache) + p->need`: the `int` is extended with its sign to the 64 bits of `size_t`.
unfoldable pub block_size : ℕ → ℕ
block_size need =
    (sizeof_message + (if ltb need (2 ^ 31) then need else need + 2 ^ 64 - 2 ^ 32)) % 2 ^ 64

-- `*p->msg = p->cache` writes twelve bytes, whatever the block's size.
unfoldable pub copy_header : List ℕ → List ℕ → Outcome Message
copy_header cache block =
    if leb sizeof_message (length block)
    then ok (record { head = load_header cache; payload = drop sizeof_message block })
    else fault

unfoldable pub to_mid_state : Malloc → MsgParser → Outcome (Bool × MsgParser)
to_mid_state malloc p =
    let need = (load_header p.cache).length in
    elim (malloc (block_size need)) [
      | none ↦ ok (false, record p { header = true; need = need; msg = none })
      | some block ↦ copy_header p.cache block >>= λ m.
          ok (true, record p { header = true; need = need; msg = some m })
    ]

unfoldable pub to_last_state : MsgParser → Option Message × MsgParser
to_last_state p = if p.header && (p.need == 0) then (p.msg, record p { msg = none }) else (none, p)

-- `if( ret = ToLastState(p) ) InitState(p);`
unfoldable pub finish : MsgParser → Option Message × MsgParser
finish p =
    let (ret, q) = to_last_state p in
    elim ret [ none ↦ (none, q) | some m ↦ (some m, init_state q) ]

unfoldable pub mparser_new : Bool → Option MsgParser
unfolding init_state
mparser_new granted =
    if granted
    then some (init_state (record { cache = replicate 12 0; header = false; need = 0; msg = none }))
    else none

unfoldable pub mparser_reset : Option MsgParser → Option MsgParser
mparser_reset none = none
mparser_reset (some p) = some (init_state p)

-- memcpy(block + offset, mem, len) with `int` arguments: a negative one reaches far outside.
unfoldable pub memcpy_at : List ℕ → ℕ → List ℕ → ℕ → Outcome (List ℕ)
memcpy_at block offset mem len =
    if ltb offset (2 ^ 31) && ltb len (2 ^ 31) then poke block offset (take len mem) else fault

-- a - b in 32 bits.
abbrev pub sub32 : ℕ → ℕ → ℕ
sub32 a b = (a + 2 ^ 32 - b) % 2 ^ 32

-- `(p->need < length) ? p->need : length`, compared as unsigned numbers.
unfoldable pub part : ℕ → List ℕ → ℕ
part need mem = if ltb need (length mem) then need else length mem

unfoldable pub copy_payload : MsgParser → List ℕ → Option Message → Outcome MsgParser
copy_payload p mem none = ok p
copy_payload p mem (some m) =
    let len = part p.need mem in
    memcpy_at m.payload (sub32 m.head.length p.need) mem len >>= λ payload.
    ok (record p { need = sub32 p.need len; msg = some (record m { payload = payload }) })

-- MParser_ReadMem once the header is parsed.
unfoldable pub read_body : MsgParser → List ℕ → Outcome (Option Message × MsgParser)
read_body p mem = do q ← copy_payload p mem p.msg; ok (finish q)

-- The header is complete: convert it in place, get the block, and go on with the rest. The
-- recursive call of MParser_ReadMem finds `header` set, so it is `read_body`.
unfoldable pub enter_body : Malloc → MsgParser → List ℕ → Outcome (Option Message × MsgParser)
enter_body malloc p rest = do
  (done, q) ← to_mid_state malloc (record p { cache = store_header (n2h (load_header p.cache)) })
  if done then read_body q rest else ok (none, init_state q)

unfoldable pub read_head : Malloc → MsgParser → List ℕ → Outcome (Option Message × MsgParser)
read_head malloc p mem = do
  let len = part p.need mem
  cache ← memcpy_at p.cache (sub32 sizeof_message p.need) mem len
  if p.need == len
      then enter_body malloc (record p { cache = cache }) (drop p.need mem)
      else ok (none, record p { cache = cache; need = sub32 p.need len })

unfoldable pub read_parser : Malloc → MsgParser → List ℕ → Outcome (Option Message × MsgParser)
read_parser malloc p mem = if p.header then read_body p mem else read_head malloc p mem

-- The bytes of `mem` are the `length` bytes that the caller announces.
unfoldable pub mparser_read_mem :
    Malloc → Option MsgParser → Option (List ℕ) → Outcome (Option Message × Option MsgParser)
mparser_read_mem malloc none mem = ok (none, none)
mparser_read_mem malloc (some p) none = ok (none, some p)
mparser_read_mem malloc (some p) (some mem) = do
  (ret, q) ← read_parser malloc p mem
  ok (ret, some q)
