-- ===== src/MsgParser/Spec.antt =====
-- What the parser promises: it collects bytes, and a message is a header and the bytes it declares.
-- `Repr p bs` says that `p` holds `bs`, the bytes of a message of which more is to come.
use compile_service.Common.{
  ℕ, ◌+◌, ◌^◌, ◌≤◌, ◌<◌, ◌≡◌, true, false, List, [], ◌++◌, Option, none, some, ltb, take, drop,
  length, if◌then◌else◌,
}
use compile_service.Message.{Message, sizeof_message}
use compile_service.Message.Wire.{decode_header}
use compile_service.MsgParser.{MsgParser}

-- The size of the message that `bs` begins, as far as it is known.
unfoldable pub frame_size : List ℕ → ℕ
frame_size bs =
    if ltb (length bs) sizeof_message
    then sizeof_message
    else sizeof_message + (decode_header bs).length

-- From all bytes so far: the bytes that are kept, and the message if it is complete.
unfoldable pub assemble : List ℕ → List ℕ × Option Message
assemble bs = if ltb (length bs) (frame_size bs) then (bs, none) else (
  [],
  some (record {
    head = decode_header bs;
    payload = take (decode_header bs).length (drop sizeof_message bs);
  }),
)

-- `p` has the header `hd`, and `got` of the payload in a block with room for `tail` more.
pub record Loaded (p : MsgParser) (m : Message) (hd got tail : List ℕ) : Type 0 where
  pub header_set : p.header ≡ true
  pub holds : p.msg ≡ some m
  pub cache_size : length p.cache ≡ sizeof_message
  pub head_size : length hd ≡ sizeof_message
  pub head_eq : m.head ≡ decode_header hd
  pub payload_eq : m.payload ≡ got ++ tail
  pub length_eq : (decode_header hd).length ≡ length got + length tail
  pub need_eq : p.need ≡ length tail
  pub modest : (decode_header hd).length < 2 ^ 31

-- `p` has `got` of the twelve bytes of a header.
pub record Waiting (p : MsgParser) (got tail : List ℕ) : Type 0 where
  pub header_clear : p.header ≡ false
  pub no_msg : p.msg ≡ none
  pub cache_eq : p.cache ≡ got ++ tail
  pub cache_size : length got + length tail ≡ sizeof_message
  pub need_eq : p.need ≡ length tail

pub data Repr (p : MsgParser) (bs : List ℕ) : Type 0 where
  in_header : (tail : List ℕ) → Waiting p bs tail → 0 < length tail → Repr p bs
  in_payload :
      (m : Message) (hd got tail : List ℕ)
      → Loaded p m hd got tail
      → bs ≡ hd ++ got
      → 0 < length tail
      → Repr p bs

-- The length that the bytes declare, if they hold a header, fits an `int`.
abbrev pub IsModest : List ℕ → Type 0
IsModest bs = sizeof_message ≤ length bs → (decode_header bs).length < 2 ^ 31
