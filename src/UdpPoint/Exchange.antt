-- ===== src/UdpPoint/Exchange.antt =====
-- A message in one datagram: what is sent, and what the receiver makes of it.
use compile_service.Common.{
  ℕ, ◌+◌, ◌^◌, ◌≤◌, ◌<◌, ◌≡◌, sym, ap, ◌∙◌, subst, List, [], ◌∷◌, some, length, append-nil, Malloc,
  ok, arith,
}
use compile_service.Message.{Header, Message, message_h2n}
use compile_service.Message.Wire.{decode_header-wire}
use compile_service.MsgParser.{MsgParser, mparser_read_mem}
use compile_service.MsgParser.Spec.{Repr, assemble, IsModest}
use compile_service.MsgParser.Progress.{Grants}
use compile_service.MsgParser.Memory.{mparser_read_mem-assemble}
use compile_service.MsgParser.Pieces.{IsMessage, wire, wire_size, assemble-wire}
use compile_service.TcpClient.Messages.{
  IsObject, converted, converted_bytes, restored, size_of_wire, readable_all,
}
use compile_service.UdpPoint.{
  Point, Peer, Datagrams, temp_size, point_send_raw, point_send_converted, point_send_msg,
  parse_datagram, receive_peeked, point_recv_msg,
}

module _ (D : Datagrams) where
  -- UdpPoint_SendMsg on a message object whose payload is as long as its header says and whose size
  -- fits an `int`: one datagram is sent, with the bytes of the message in network order, the answer
  -- is that of the system, and the object is in host order again.
  pub point_send_msg_lem :
      (w : D.World) (c : Point) (m : Message) (remote : List ℕ) (port : ℕ)
      → IsObject m
      → point_send_msg D w (some c) (some m) (some remote) port
        ≡ ok ((D.send_to w (wire m) remote port).0, some m, (D.send_to w (wire m) remote port).1)
  unfolding point_send_msg point_send_converted point_send_raw message_h2n converted
  point_send_msg_lem w c m remote port v =
      let small : length (wire m) < 2 ^ 31 = omega (arith, wire_size m, v.whole, v.int_size) in
      rw (
        size_of_wire m v,
        converted_bytes m v.head_fits,
        readable_all (wire m) small,
        restored m v.head_fits,
      )

  received :
      (malloc : Malloc) (w w' : D.World) (p q : MsgParser) (bs block : List ℕ) (peer : Peer)
      (m : Message)
      → 0 < length bs
      → malloc (length bs) ≡ some block
      → D.receive w (length bs) ≡ (some (bs, peer), w')
      → mparser_read_mem malloc (some p) (some bs) ≡ ok (some m, some q)
      → receive_peeked D malloc w p (some (bs, peer)) ≡ ok (some (m, peer), some q, w')
  unfolding receive_peeked parse_datagram
  received malloc w w' p q [] block peer m h b r e = absurd (omega arith)
  received malloc w w' p q (x ∷ xs) block peer m h b r e = rw (b, receive_peeked, r) (rw e)

  -- UdpPoint_RecvMsg on a datagram that holds exactly the bytes of a message, 4096 bytes at most, so
  -- that the look at it through `g_temp` sees it whole; with an allocator that has the block for
  -- every message shorter than 2 ^ 31 bytes; and with an idle parser: it answers that message and its
  -- sender, and the parser is idle again. A longer datagram is not covered.
  pub point_recv_msg-wire :
      (malloc : Malloc) (w w' : D.World) (c : Point) (m : Message) (peer : Peer)
      → Grants malloc
      → IsMessage m
      → Repr c.parser []
      → length (wire m) ≤ temp_size
      → D.peek w temp_size ≡ some (wire m, peer)
      → D.receive w (length (wire m)) ≡ (some (wire m, peer), w')
      → (q : MsgParser) × (point_recv_msg D malloc w (some c) ≡ ok (some (m, peer), some q, w'))
        × Repr q []
  unfolding point_recv_msg
  point_recv_msg-wire malloc w w' c m peer grants v held fits next taken =
      let modest : IsModest (wire m) = λ h. omega (
        arith,
        ap (λ (x : Header). x.length) (decode_header-wire m.head m.payload v.fields),
        v.modest,
      ) in
      let whole : assemble (wire m) ≡ ([], some m) =
        ap assemble (sym (append-nil (wire m))) ∙ assemble-wire m [] v in
      let (q, e, s) = mparser_read_mem-assemble malloc c.parser [] (wire m) grants held modest in
      let (block, b, _) = grants (length m.payload) (omega (arith, v.counted, v.modest)) in
      let size : 12 + length m.payload ≡ length (wire m) = omega (arith, wire_size m) in
      (
        q,
        rw next (
            received malloc w w' c.parser q (wire m) block peer m (omega (arith, size))
              (subst (λ n. malloc n ≡ some block) size b) taken
              (e ∙ ap (λ r. ok (r.1, some q)) whole)),
        subst (λ r. Repr q r.0) whole s,
      )
