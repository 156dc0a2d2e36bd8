-- ===== src/MsgParser/Assemble.antt =====
-- What `assemble` answers on a header and a payload, and that it does not look past a message.
use compile_service.Common.{
  ℕ, ◌+◌, ◌≤◌, ◌<◌, ◌≡◌, sym, ◌∙◌, List, [], ◌++◌, none, some, lt→ltb, le→ltb-false, take, length,
  arith, length-append, drop-append_length, take-append_le,
}
use compile_service.Message.{sizeof_message}
use compile_service.Message.Wire.{decode_header, decode_header-append}
use compile_service.MsgParser.Spec.{frame_size, assemble}

pub assemble_short : (bs : List ℕ) → length bs < sizeof_message → assemble bs ≡ (bs, none)
unfolding assemble frame_size
assemble_short bs h = rw (lt→ltb (length bs) 12 h) (rw (lt→ltb (length bs) 12 h))

pub frame_size-append :
    (hd got : List ℕ)
    → length hd ≡ sizeof_message
    → frame_size (hd ++ got) ≡ sizeof_message + (decode_header hd).length
unfolding frame_size
frame_size-append hd got e = rw (
  le→ltb-false (length (hd ++ got)) 12 (omega (arith, length-append hd got)),
  decode_header-append hd got e,
)

pub frame_size_least : (bs : List ℕ) → sizeof_message ≤ frame_size bs
unfolding frame_size
frame_size_least bs = ground arith

pub assemble_partial :
    (hd got : List ℕ)
    → length hd ≡ sizeof_message
    → length got < (decode_header hd).length
    → assemble (hd ++ got) ≡ (hd ++ got, none)
unfolding assemble
assemble_partial hd got e h = rw (
    lt→ltb (length (hd ++ got)) (frame_size (hd ++ got))
      (omega (arith, frame_size-append hd got e, length-append hd got)))

pub assemble_whole :
    (hd got : List ℕ)
    → length hd ≡ sizeof_message
    → (decode_header hd).length ≤ length got
    → assemble (hd ++ got) ≡ (
      [],
      some (record { head = decode_header hd; payload = take (decode_header hd).length got }),
    )
unfolding assemble decode_header
assemble_whole hd got e h = rw (
  le→ltb-false (length (hd ++ got)) (frame_size (hd ++ got))
      (omega (arith, frame_size-append hd got e, length-append hd got)),
  decode_header-append hd got e,
  drop-append_length 12 hd got e,
)

-- Bytes behind a complete message are not looked at.
pub assemble_surplus :
    (hd got more : List ℕ)
    → length hd ≡ sizeof_message
    → (decode_header hd).length ≤ length got
    → assemble (hd ++ (got ++ more)) ≡ assemble (hd ++ got)
assemble_surplus hd got more e h =
    assemble_whole hd (got ++ more) e (omega (arith, length-append got more))
    ∙ rw (take-append_le (decode_header hd).length got more h) (sym (assemble_whole hd got e h))
