-- ===== src/TcpClient.antt =====
-- tcp_client.c: a connected stream socket with a parser for the messages that arrive on it. The
-- calls of the system are parameters; `none` is the descriptor -1.
pub mod Messages
pub mod RoundTrip
mod Tests
use compile_service.Common.{
  ℕ, ◌+◌, Bool, true, false, not, ◌&&◌, List, [], ◌∷◌, ◌++◌, Option, none, some, ◌==◌,
  if◌then◌else◌, take, length, leb, ltb, ◌^◌, Malloc, poke, Outcome, ok, fault, ◌>>=◌,
}
use compile_service.Message.{Message, store_header, message_size, message_h2n, message_n2h}
use compile_service.Sender.{Sender}
use compile_service.Reader.{Reader}
use compile_service.MsgParser.{MsgParser, init_state, mparser_reset}
use compile_service.MsgParser.Descriptor.{mparser_read_fd}

-- `user_data` is the user's pointer `data`.
pub record Client : Type 0 where
  pub fd : Option ℕ
  pub parser : MsgParser
  pub user_data : Option ℕ

-- TcpClient_From; `granted` says that `malloc(sizeof(Client))` gives a block, and `parser` is the
-- answer of MParser_New.
unfoldable pub client_from : Bool → Option MsgParser → Option ℕ → Option Client
client_from granted none fd = none
client_from granted (some p) fd =
    if granted then some (record { fd = fd; parser = p; user_data = none }) else none

unfoldable pub client_new : Bool → Option MsgParser → Option Client
unfolding client_from
client_new granted parser = client_from granted parser none

-- The bytes of a message object in the host's memory.
abbrev pub object_bytes : Message → List ℕ
object_bytes m = store_header m.head ++ m.payload

-- What `send` may read of an object of these bytes: `len` bytes from its start. A negative `len`,
-- one whose pattern is 2 ^ 31 or more, turns into a huge size.
abbrev pub readable : List ℕ → ℕ → Outcome (List ℕ)
readable bytes len =
    if leb len (length bytes) && ltb len (2 ^ 31) then ok (take len bytes) else fault

-- `ret != -1`
abbrev pub not_failed : Option ℕ → Bool
not_failed none = false
not_failed (some k) = true

module _ (S : Sender) where
  -- TcpClient_SendRaw; an answer of `none` is -1, and without a client or a buffer it is 0.
  unfoldable pub send_raw : S.World → Option Client → Option (List ℕ) → Option ℕ × S.World
  send_raw w none buf = (some 0, w)
  send_raw w (some c) none = (some 0, w)
  send_raw w (some c) (some buf) = S.send w buf

  -- The middle of TcpClient_SendMsg: the converted object is sent and converted back.
  unfoldable pub send_converted :
      S.World → ℕ → Option Message → Outcome (Bool × Option Message × S.World)
  send_converted w len none = fault
  send_converted w len (some m) = readable (object_bytes m) len >>= λ bytes.
      let r = S.send w bytes in ok (not_failed r.0, message_n2h (some m), r.1)

  -- TcpClient_SendMsg: the answer, what the message object holds then, and the descriptor.
  unfoldable pub send_msg :
      S.World → Option Client → Option Message → Outcome (Bool × Option Message × S.World)
  unfolding send_converted
  send_msg w none msg = ok (false, msg, w)
  send_msg w (some c) none = ok (false, none, w)
  send_msg w (some c) (some m) = send_converted w (message_size (some m)) (message_h2n (some m))

-- TcpClient_RecvMsg; the descriptor is the reader's state, `none` being -1.
unfoldable pub recv_msg :
    (reader : Reader)
    → Malloc
    → Option Client
    → Option (Reader.World reader)
    → Outcome (Option Message × Option MsgParser × Option (Reader.World reader))
recv_msg reader malloc none w = ok (none, none, w)
recv_msg reader malloc (some c) w = mparser_read_fd reader malloc (some c.parser) w

-- TcpClient_RecvRaw: the answer, `none` being -1, and the buffer. `recv` says which bytes the system
-- writes, at most as many as it is asked for.
unfoldable pub client_recv_raw :
    (Option ℕ → ℕ → Option (List ℕ))
    → Option Client
    → Option (List ℕ)
    → ℕ
    → Outcome (Option ℕ × Option (List ℕ))
client_recv_raw recv none buf len = ok (some 0, buf)
client_recv_raw recv (some c) none len = ok (some 0, none)
client_recv_raw recv (some c) (some buf) len = elim (recv c.fd len) [
  | none ↦ ok (none, some buf)
  | some bytes ↦ poke buf 0 bytes >>= λ buf'. ok (some (length bytes), some buf')
]

-- TcpClient_IsValid; `tcpi_state fd` is what `getsockopt` leaves in the structure of zeros.
abbrev pub tcp_established : ℕ
tcp_established = 1

unfoldable pub client_is_valid : (Option ℕ → ℕ) → Option Client → Bool
client_is_valid tcpi_state none = false
client_is_valid tcpi_state (some c) = tcpi_state c.fd == tcp_established

-- TcpClient_Connect: whether the client is connected, and the client with its new descriptor.
-- `socket` is the answer of `socket(2)`, `connects` whether `connect(2)` does not fail on it.
unfoldable pub client_connect :
    (Option ℕ → ℕ)
    → Option ℕ
    → (ℕ → List ℕ → ℕ → Bool)
    → Option Client
    → Option (List ℕ)
    → ℕ
    → Bool × Option Client
client_connect tcpi_state socket connects none ip port = (false, none)
client_connect tcpi_state socket connects (some c) none port =
    (client_is_valid tcpi_state (some c), some c)
client_connect tcpi_state none connects (some c) (some ip) port =
    if client_is_valid tcpi_state (some c)
    then (true, some c)
    else (false, some (record c { fd = none }))
client_connect tcpi_state (some fd) connects (some c) (some ip) port =
    if client_is_valid tcpi_state (some c)
    then (true, some c)
    else (connects fd ip port, some (record c { fd = some fd }))

-- TcpClient_Close: what is left of the client, its parser after MParser_Reset.
unfoldable pub client_close : Option Client → Option Client
client_close none = none
client_close (some c) = some (record c { fd = none; parser = init_state c.parser })

unfoldable pub client_set_data : Option Client → Option ℕ → Option Client
client_set_data none user_data = none
client_set_data (some c) value = some (record c { user_data = value })

unfoldable pub client_get_data : Option Client → Option ℕ
client_get_data none = none
client_get_data (some c) = c.user_data

-- TcpClient_Available: what the peek answers, `none` being -1.
unfoldable pub client_available : (Option ℕ → Option ℕ) → Option Client → Option ℕ
client_available peek none = none
client_available peek (some c) = peek c.fd

-- TcpClient_SetOpt and TcpClient_GetOpt pass the answer of the system on.
unfoldable pub client_set_opt : (Option ℕ → Option ℕ) → Option Client → Option ℕ
client_set_opt setsockopt none = none
client_set_opt setsockopt (some c) = setsockopt c.fd

unfoldable pub client_get_opt : (Option ℕ → Option ℕ) → Option Client → Option ℕ
client_get_opt getsockopt none = none
client_get_opt getsockopt (some c) = getsockopt c.fd
