-- ===== src/UdpPoint.antt =====
-- udp_point.c: a datagram socket with a parser. The calls of the system are parameters; `none` is the
-- descriptor or the answer -1.
pub mod Exchange
mod Tests
use compile_service.Common.{
  ℕ, Bool, true, false, List, [], ◌∷◌, Option, none, some, if◌then◌else◌, length, take, Malloc,
  Outcome, ok, fault, ◌>>=◌,
}
use compile_service.Message.{Message, message_size, message_h2n, message_n2h}
use compile_service.MsgParser.{MsgParser, mparser_read_mem}
use compile_service.TcpClient.{object_bytes, readable}

-- `user_data` is the user's pointer `data`.
pub record Point : Type 0 where
  pub fd : Option ℕ
  pub parser : MsgParser
  pub user_data : Option ℕ

-- An address and a port, which `inet_ntoa` and `ntohs` give.
pub record Peer : Type 0 where
  pub ip : List ℕ
  pub port : ℕ

-- One datagram socket. `peek` answers the first bytes of the datagram that comes next and its sender,
-- `receive` the same with the datagram taken off.
pub record Datagrams : Type 1 where
  pub World : Type 0
  pub peek : World → ℕ → Option (List ℕ × Peer)
  pub receive : World → ℕ → Option (List ℕ × Peer) × World
  pub send_to : World → List ℕ → List ℕ → ℕ → Bool × World

-- The size of `g_temp`.
abbrev pub temp_size : ℕ
temp_size = 4096

-- UdpPoint_New; `granted` is the answer of `malloc(sizeof(Point))`, `bound` that of `bind`.
unfoldable pub point_new : Bool → Option MsgParser → Option ℕ → Bool → Option Point
point_new granted none fd bound = none
point_new granted (some p) none bound = none
point_new granted (some p) (some fd) bound =
    if granted
    then if bound then some (record { fd = some fd; parser = p; user_data = none }) else none
    else none

unfoldable pub point_from : Bool → Option MsgParser → Option ℕ → Option Point
point_from granted none fd = none
point_from granted (some p) fd =
    if granted then some (record { fd = fd; parser = p; user_data = none }) else none

-- ParseAddr into `*ip` and `*port`, each of which may be NULL.
unfoldable pub parse_addr : Peer → Option (List ℕ) → Option ℕ → Option (List ℕ) × Option ℕ
parse_addr peer none none = (none, none)
parse_addr peer (some ip) none = (some peer.ip, none)
parse_addr peer none (some port) = (none, some peer.port)
parse_addr peer (some ip) (some port) = (some peer.ip, some peer.port)

module _ (D : Datagrams) where
  -- UdpPoint_SendRaw
  unfoldable pub point_send_raw :
      D.World → Option Point → Option (List ℕ) → Option (List ℕ) → ℕ → Bool × D.World
  point_send_raw w none buf remote port = (false, w)
  point_send_raw w (some c) none remote port = (false, w)
  point_send_raw w (some c) (some buf) none port = (false, w)
  point_send_raw w (some c) (some buf) (some remote) port = D.send_to w buf remote port

  -- The middle of UdpPoint_SendMsg.
  unfoldable pub point_send_converted :
      D.World → Point → ℕ → Option Message → List ℕ → ℕ → Outcome (Bool × Option Message × D.World)
  point_send_converted w c len none remote port = fault
  point_send_converted w c len (some m) remote port = readable (object_bytes m) len >>= λ bytes.
      let r = point_send_raw w (some c) (some bytes) (some remote) port in
      ok (r.0, message_n2h (some m), r.1)

  -- UdpPoint_SendMsg: the answer, what the message object holds then, and the socket.
  unfoldable pub point_send_msg :
      D.World
      → Option Point
      → Option Message
      → Option (List ℕ)
      → ℕ
      → Outcome (Bool × Option Message × D.World)
  point_send_msg w none msg remote port = ok (false, msg, w)
  point_send_msg w (some c) none remote port = ok (false, none, w)
  point_send_msg w (some c) (some m) none port = ok (false, some m, w)
  point_send_msg w (some c) (some m) (some remote) port =
      point_send_converted w c (message_size (some m)) (message_h2n (some m)) remote port

  -- What the parser makes of the answer of the second `recvfrom`: the message with its sender, and
  -- the parser. Nothing is parsed on an answer of 0 or -1.
  unfoldable pub parse_datagram :
      Malloc
      → MsgParser
      → Option (List ℕ × Peer)
      → Outcome (Option (Message × Peer) × Option MsgParser)
  parse_datagram malloc p none = ok (none, some p)
  parse_datagram malloc p (some ([], peer)) = ok (none, some p)
  parse_datagram malloc p (some (x ∷ xs, peer)) =
      mparser_read_mem malloc (some p) (some (x ∷ xs)) >>= λ r.
      ok (elim r.0 [ none ↦ none | some m ↦ some (m, peer) ], r.1)

  -- UdpPoint_RecvMsg once `peek` has said how many bytes there are. With no block, or an answer of 0
  -- or -1 and so no block, `recvfrom` gets NULL: it fails unless the size is 0, and then it takes the
  -- datagram off.
  unfoldable pub receive_peeked :
      Malloc
      → D.World
      → MsgParser
      → Option (List ℕ × Peer)
      → Outcome (Option (Message × Peer) × Option MsgParser × D.World)
  receive_peeked malloc w p none = ok (none, some p, w)
  receive_peeked malloc w p (some ([], peer)) = ok (none, some p, (D.receive w 0).1)
  receive_peeked malloc w p (some (x ∷ xs, peer)) = elim (malloc (length (x ∷ xs))) [
    | none ↦ ok (none, some p, w)
    | some buf ↦
        let r = D.receive w (length (x ∷ xs)) in
        parse_datagram malloc p r.0 >>= λ q. ok (q.0, q.1, r.1)
  ]

  unfoldable pub point_recv_msg :
      Malloc
      → D.World
      → Option Point
      → Outcome (Option (Message × Peer) × Option MsgParser × D.World)
  point_recv_msg malloc w none = ok (none, none, w)
  point_recv_msg malloc w (some c) = receive_peeked malloc w c.parser (D.peek w temp_size)

  -- UdpPoint_RecvRaw: the answer with its sender, `none` in place of -1.
  unfoldable pub point_recv_raw :
      D.World → Option Point → Bool → ℕ → Option (List ℕ × Option Peer) × D.World
  point_recv_raw w none buf size = (some ([], none), w)
  point_recv_raw w (some c) false size = (some ([], none), w)
  point_recv_raw w (some c) true size =
      let r = D.receive w size in (elim r.0 [ none ↦ none | some a ↦ some (a.0, some a.1) ], r.1)

-- UdpPoint_Available: the number of bytes that the peek answers.
unfoldable pub point_available : (D : Datagrams) → Datagrams.World D → Option Point → Option ℕ
point_available D w none = none
point_available D w (some c) = elim (D.peek w temp_size) [
  | none ↦ none
  | some a ↦ some (length a.0)
]

unfoldable pub point_set_data : Option Point → Option ℕ → Option Point
point_set_data none value = none
point_set_data (some c) value = some (record c { user_data = value })

unfoldable pub point_get_data : Option Point → Option ℕ
point_get_data none = none
point_get_data (some c) = c.user_data

-- UdpPoint_SetOpt and UdpPoint_GetOpt pass the answer of the system on.
unfoldable pub point_set_opt : (Option ℕ → Option ℕ) → Option Point → Option ℕ
point_set_opt setsockopt none = none
point_set_opt setsockopt (some c) = setsockopt c.fd

unfoldable pub point_get_opt : (Option ℕ → Option ℕ) → Option Point → Option ℕ
point_get_opt getsockopt none = none
point_get_opt getsockopt (some c) = getsockopt c.fd
