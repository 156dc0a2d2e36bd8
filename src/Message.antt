-- ===== src/Message.antt =====
-- message.h and message.c: the protocol message, its sizes, and its two byte orders.
-- The host is little-endian, as the x86-64 binaries in the repository are. An object of type
-- `Message` is its header, five numbers, and the bytes of its flexible array `payload`.
pub mod Wire
use compile_service.Common.{
  ℕ, ◌+◌, ◌*◌, ◌/◌, ◌%◌, ◌^◌, List, [], ◌∷◌, ◌++◌, Option, none, some, Malloc, Outcome, ok, fault,
  leb, take, drop, get_or, length, if◌then◌else◌,
}

pub record Header : Type 0 where
  pub type : ℕ
  pub cmd : ℕ
  pub index : ℕ
  pub total : ℕ
  pub length : ℕ

pub record Message : Type 0 where
  pub head : Header
  pub payload : List ℕ

-- sizeof(Message): four 16-bit fields and one of 32 bits, with no padding.
abbrev pub sizeof_message : ℕ
sizeof_message = 12

-- `ntohs` and `htons` on a little-endian host: the two bytes change places.
unfoldable pub ntohs : ℕ → ℕ
ntohs x = x % 2 ^ 8 * 2 ^ 8 + x / 2 ^ 8 % 2 ^ 8

unfoldable pub ntohl : ℕ → ℕ
ntohl x =
    x % 2 ^ 8 * 2 ^ 24
    + x / 2 ^ 8 % 2 ^ 8 * 2 ^ 16
    + x / 2 ^ 16 % 2 ^ 8 * 2 ^ 8
    + x / 2 ^ 24 % 2 ^ 8

-- The bytes of a number in the host's memory, lowest first, and the number that they hold.
unfoldable pub store16 : ℕ → List ℕ
store16 x = x % 2 ^ 8 ∷ x / 2 ^ 8 % 2 ^ 8 ∷ []

unfoldable pub store32 : ℕ → List ℕ
store32 x = x % 2 ^ 8 ∷ x / 2 ^ 8 % 2 ^ 8 ∷ x / 2 ^ 16 % 2 ^ 8 ∷ x / 2 ^ 24 % 2 ^ 8 ∷ []

unfoldable pub load16 : List ℕ → ℕ → ℕ
load16 b i = get_or b i 0 + get_or b (i + 1) 0 * 2 ^ 8

unfoldable pub load32 : List ℕ → ℕ → ℕ
load32 b i =
    get_or b i 0
    + get_or b (i + 1) 0 * 2 ^ 8
    + get_or b (i + 2) 0 * 2 ^ 16
    + get_or b (i + 3) 0 * 2 ^ 24

-- The twelve bytes of a header in memory.
unfoldable pub store_header : Header → List ℕ
store_header h =
    store16 h.type ++ (store16 h.cmd ++ (store16 h.index ++ (store16 h.total ++ store32 h.length)))

unfoldable pub load_header : List ℕ → Header
load_header b = record {
  type = load16 b 0;
  cmd = load16 b 2;
  index = load16 b 4;
  total = load16 b 6;
  length = load32 b 8;
}

-- Message_N2H on the header, which is all that it touches.
unfoldable pub n2h : Header → Header
n2h h = record {
  type = ntohs h.type;
  cmd = ntohs h.cmd;
  index = ntohs h.index;
  total = ntohs h.total;
  length = ntohl h.length;
}

-- Message_H2N: on this host `htons` and `htonl` are the same swaps.
unfoldable pub h2n : Header → Header
h2n h = record {
  type = ntohs h.type;
  cmd = ntohs h.cmd;
  index = ntohs h.index;
  total = ntohs h.total;
  length = ntohl h.length;
}

unfoldable pub message_n2h : Option Message → Option Message
message_n2h none = none
message_n2h (some m) = some (record m { head = n2h m.head })

unfoldable pub message_h2n : Option Message → Option Message
message_h2n none = none
message_h2n (some m) = some (record m { head = h2n m.head })

-- Message_Size: an `int`, as its bit pattern.
unfoldable pub message_size : Option Message → ℕ
message_size none = 0
message_size (some m) = (sizeof_message + m.head.length) % 2 ^ 32

-- The object that `memcpy(ret + 1, payload, length)` leaves. With no `payload` the bytes stay as
-- `malloc` gave them. A `payload` shorter than `length` is read past its end.
unfoldable pub fill_payload : Header → List ℕ → Option (List ℕ) → Outcome (Option Message)
fill_payload h block none = ok (some (record { head = h; payload = drop sizeof_message block }))
fill_payload h block (some payload) =
    if leb h.length (length payload)
    then ok (some (record { head = h; payload = take h.length payload }))
    else fault

unfoldable pub message_new : Malloc → ℕ → ℕ → ℕ → ℕ → Option (List ℕ) → ℕ → Outcome (Option Message)
unfolding fill_payload
message_new malloc type cmd index total payload length = elim (malloc (sizeof_message + length)) [
  | none ↦ ok none
  | some block ↦
      fill_payload
        (record { type = type; cmd = cmd; index = index; total = total; length = length }) block
        payload
]
