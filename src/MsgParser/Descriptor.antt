-- ===== src/MsgParser/Descriptor.antt =====
-- MParser_ReadFd: the parser fed from a descriptor, which is asked for no byte behind the message.
pub mod Takes
pub mod Refines
pub mod Whole
use compile_service.Common.{
  ℕ, ◌+◌, ◌^◌, ◌%◌, ◌-◌, Bool, true, false, List, Option, none, some, Malloc, ok, Outcome, ◌>>=◌,
  ◌==◌, if◌then◌else◌,
}
use compile_service.Message.{Message, Header, sizeof_message, load_header, store_header, n2h}
use compile_service.MsgParser.{MsgParser, init_state, to_mid_state, finish, sub32}
use compile_service.Reader.{Reader}
use compile_service.MsgParser.Receive.{to_recv}

module _ (reader : Reader) where
  open reader use {World}

  unfoldable pub recv_payload : World → MsgParser → Option Message → Outcome (MsgParser × World)
  recv_payload w p none = ok (p, w)
  recv_payload w p (some m) = do
    (len, payload, w') ← to_recv reader w m.payload (sub32 m.head.length p.need) p.need
    ok (record p { need = sub32 p.need len; msg = some (record m { payload = payload }) }, w')

  -- MParser_ReadFd once the header is parsed.
  unfoldable pub read_fd_body : World → MsgParser → Outcome (Option Message × MsgParser × World)
  read_fd_body w p = do (q, w') ← recv_payload w p p.msg; let (ret, r) = finish q; ok (ret, r, w')

  -- The recursive call finds `header` set, so it is `read_fd_body`.
  unfoldable pub enter_fd_body :
      Malloc → World → MsgParser → Outcome (Option Message × MsgParser × World)
  enter_fd_body malloc w p = do
    (done, q) ← to_mid_state malloc (record p { cache = store_header (n2h (load_header p.cache)) })
    if done then read_fd_body w q else ok (none, init_state q, w)

  unfoldable pub read_fd_head :
      Malloc → World → MsgParser → Outcome (Option Message × MsgParser × World)
  read_fd_head malloc w p = do
    (len, cache, w') ← to_recv reader w p.cache (sub32 sizeof_message p.need) p.need
    if len == p.need
        then enter_fd_body malloc w' (record p { cache = cache })
        else ok (none, record p { cache = cache; need = sub32 p.need len }, w')

  -- The descriptor is the reader; `none` is the descriptor -1.
  unfoldable pub mparser_read_fd :
      Malloc
      → Option MsgParser
      → Option World
      → Outcome (Option Message × Option MsgParser × Option World)
  mparser_read_fd malloc p none = ok (none, p, none)
  mparser_read_fd malloc none (some w) = ok (none, none, some w)
  mparser_read_fd malloc (some p) (some w) = do
    (ret, q, w') ← if p.header then read_fd_body w p else read_fd_head malloc w p
    ok (ret, some q, some w')
