-- ===== src/TcpClient/Messages.antt =====
-- What TcpClient_SendMsg puts on the wire, and what a closed client has left.
use compile_service.Common.{
  ℕ, ◌+◌, ◌^◌, ◌≤◌, ◌<◌, ◌≡◌, refl, ap, ◌∙◌, true, false, List, [], ◌++◌, none, some, take,
  take_all, length, le→leb, lt→ltb, ok, arith, ◌⊎◌, inl, inr,
}
use compile_service.Message.{
  Header, Message, h2n, sizeof_message, message_size, message_h2n, message_n2h,
}
use compile_service.Message.Wire.{IsHeader, n2h-h2n, store_header-h2n}
use compile_service.Sender.{Sender, Send-cases}
use compile_service.MsgParser.{init_state}
use compile_service.MsgParser.Spec.{Repr}
use compile_service.MsgParser.Progress.{init_state-Repr}
use compile_service.MsgParser.Pieces.{wire, wire_size}
use compile_service.TcpClient.{
  Client, send_msg, send_converted, object_bytes, readable, not_failed, client_close,
}

-- The message object holds what its header says, and its size is an `int`.
pub record IsObject (m : Message) : Type 0 where
  pub head_fits : IsHeader m.head
  pub whole : length m.payload ≡ m.head.length
  pub int_size : m.head.length + sizeof_message < 2 ^ 31

unfoldable pub converted : Message → Message
converted m = record m { head = h2n m.head }

pub converted_bytes : (m : Message) → IsHeader m.head → object_bytes (converted m) ≡ wire m
unfolding converted
converted_bytes m v = ap (λ b. b ++ m.payload) (store_header-h2n m.head v)

pub restored : (m : Message) → IsHeader m.head → message_n2h (some (converted m)) ≡ some m
unfolding converted message_n2h
restored m v = ap (λ (h : Header). some (record m { head = h })) (n2h-h2n m.head v)

pub size_of_wire : (m : Message) → IsObject m → message_size (some m) ≡ length (wire m)
unfolding message_size
size_of_wire m v = omega (arith, wire_size m, v.whole, v.int_size)

pub readable_all :
    (bytes : List ℕ) → length bytes < 2 ^ 31 → readable bytes (length bytes) ≡ ok bytes
readable_all bytes h = rw (
  le→leb (length bytes) (length bytes) (omega arith),
  lt→ltb (length bytes) (2 ^ 31) h,
  take_all (length bytes) bytes (omega arith),
)

module _ (S : Sender) where
  pub send_whole :
      (w : S.World) (c : Client) (m : Message)
      → IsObject m
      → send_msg S w (some c) (some m)
        ≡ ok (not_failed (S.send w (wire m)).0, some m, (S.send w (wire m)).1)
  unfolding send_msg send_converted message_h2n converted
  send_whole w c m v =
      let small : length (wire m) < 2 ^ 31 = omega (arith, wire_size m, v.whole, v.int_size) in
      rw (
        size_of_wire m v,
        converted_bytes m v.head_fits,
        readable_all (wire m) small,
        restored m v.head_fits,
      )

  -- TcpClient_SendMsg on a message object whose payload is as long as its header says and whose size
  -- fits an `int`: `send` gets the bytes of the message in network order, all of them and no others;
  -- the answer is 0 if the call fails, and nothing is sent then; otherwise the descriptor has taken
  -- the first bytes of the message. Either way the object is in host order again.
  pub send_msg_lem :
      (w : S.World) (c : Client) (m : Message)
      → IsObject m
      → ((w' : S.World) × (send_msg S w (some c) (some m) ≡ ok (false, some m, w'))
          × (S.sent w' ≡ S.sent w))
        ⊎ ((k : ℕ) × (w' : S.World) × (send_msg S w (some c) (some m) ≡ ok (true, some m, w'))
            × (S.send w (wire m) ≡ (some k, w'))
            × (k ≤ length (wire m))
            × (S.sent w' ≡ S.sent w ++ take k (wire m)))
  send_msg_lem w c m v = elim (Send-cases (S.send w (wire m))) [
    | inl (w', e) ↦ inl (
      w',
      send_whole w c m v ∙ ap (λ r. ok (not_failed r.0, some m, r.1)) e,
      S.send_none w w' (wire m) e,
    )
    | inr (k, w', e) ↦
        let (h, s) = S.send_some w w' (wire m) k e in
        inr (k, w', send_whole w c m v ∙ ap (λ r. ok (not_failed r.0, some m, r.1)) e, e, h, s)
  ]

-- TcpClient_Close leaves no descriptor, keeps the user's data, and forgets the part of a message
-- that had arrived: the parser stands as before the first byte.
pub client_close-Repr :
    (c : Client)
    → length c.parser.cache ≡ sizeof_message
    → (d : Client) × (client_close (some c) ≡ some d)
      × (d.fd ≡ none)
      × (d.user_data ≡ c.user_data)
      × Repr d.parser []
unfolding client_close
client_close-Repr c h = (
  record c { fd = none; parser = init_state c.parser },
  refl,
  refl,
  refl,
  init_state-Repr c.parser h,
)
