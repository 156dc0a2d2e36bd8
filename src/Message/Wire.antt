-- ===== src/Message/Wire.antt =====
-- The byte order on the wire, and that the two conversions undo one another.
use compile_service.Common.{
  ℕ, zero, suc, get_or, ◌+◌, ◌/◌, ◌%◌, ◌^◌, ◌<◌, ◌≡◌, refl, sym, ap, ◌∙◌, List, [], ◌∷◌, ◌++◌,
  arith, length, append-nil,
}
use compile_service.Message.{
  Header, sizeof_message, ntohs, ntohl, store16, store32, load16, load32, store_header, load_header,
  n2h, h2n,
}

-- Every field fits its C type.
pub record IsHeader (h : Header) : Type 0 where
  pub type_fits : h.type < 2 ^ 16
  pub cmd_fits : h.cmd < 2 ^ 16
  pub index_fits : h.index < 2 ^ 16
  pub total_fits : h.total < 2 ^ 16
  pub length_fits : h.length < 2 ^ 32

pub ntohs_involutive : (x : ℕ) → x < 2 ^ 16 → ntohs (ntohs x) ≡ x
unfolding ntohs
ntohs_involutive x h = omega arith

pub ntohl_involutive : (x : ℕ) → x < 2 ^ 32 → ntohl (ntohl x) ≡ x
unfolding ntohl
ntohl_involutive x h = omega arith

pub n2h-h2n : (h : Header) → IsHeader h → n2h (h2n h) ≡ h
unfolding n2h h2n
n2h-h2n h v = ground (
  arith,
  ntohs_involutive h.type,
  ntohs_involutive h.cmd,
  ntohs_involutive h.index,
  ntohs_involutive h.total,
  ntohl_involutive h.length,
)

-- Network order: highest byte first.
abbrev pub big16 : ℕ → List ℕ
big16 x = x / 2 ^ 8 ∷ x % 2 ^ 8 ∷ []

abbrev pub big32 : ℕ → List ℕ
big32 x = x / 2 ^ 24 ∷ x / 2 ^ 16 % 2 ^ 8 ∷ x / 2 ^ 8 % 2 ^ 8 ∷ x % 2 ^ 8 ∷ []

pub store16-ntohs : (x : ℕ) → x < 2 ^ 16 → store16 (ntohs x) ≡ big16 x
unfolding store16 ntohs
store16-ntohs x h = ground arith

pub store32-ntohl : (x : ℕ) → x < 2 ^ 32 → store32 (ntohl x) ≡ big32 x
unfolding store32 ntohl
store32-ntohl x h = ground arith

-- The twelve bytes that go over the network for a header.
unfoldable pub wire_header : Header → List ℕ
wire_header h =
    big16 h.type ++ (big16 h.cmd ++ (big16 h.index ++ (big16 h.total ++ big32 h.length)))

pub length-wire_header : (h : Header) → length (wire_header h) ≡ sizeof_message
unfolding wire_header
length-wire_header h = refl

-- In memory, a header after `Message_H2N` is in network order.
pub store_header-h2n : (h : Header) → IsHeader h → store_header (h2n h) ≡ wire_header h
unfolding store_header h2n wire_header
store_header-h2n h v = rw (
  store16-ntohs h.type v.type_fits,
  store16-ntohs h.cmd v.cmd_fits,
  store16-ntohs h.index v.index_fits,
  store16-ntohs h.total v.total_fits,
  store32-ntohl h.length v.length_fits,
)

-- What a receiver makes of the first twelve bytes of a message.
unfoldable pub decode_header : List ℕ → Header
decode_header b = n2h (load_header b)

pub decode_header-wire :
    (h : Header) (rest : List ℕ) → IsHeader h → decode_header (wire_header h ++ rest) ≡ h
unfolding wire_header decode_header n2h load_header load16 load32 ntohs ntohl
decode_header-wire h rest v = ground arith

pub decode_header-wire_header : (h : Header) → IsHeader h → decode_header (wire_header h) ≡ h
decode_header-wire_header h v =
    ap decode_header (sym (append-nil (wire_header h))) ∙ decode_header-wire h [] v

get_or-append : (xs ys : List ℕ) (i d : ℕ) → i < length xs → get_or (xs ++ ys) i d ≡ get_or xs i d
get_or-append [] ys i d h = absurd (omega arith)
get_or-append (x ∷ xs) ys zero d h = refl
get_or-append (x ∷ xs) ys (suc i) d h = get_or-append xs ys i d (omega arith)

load16-append : (xs ys : List ℕ) (i : ℕ) → i + 1 < length xs → load16 (xs ++ ys) i ≡ load16 xs i
unfolding load16
load16-append xs ys i h =
    rw (get_or-append xs ys i 0 (omega arith), get_or-append xs ys (i + 1) 0 h)

load32-append : (xs ys : List ℕ) (i : ℕ) → i + 3 < length xs → load32 (xs ++ ys) i ≡ load32 xs i
unfolding load32
load32-append xs ys i h = rw (
  get_or-append xs ys i 0 (omega arith),
  get_or-append xs ys (i + 1) 0 (omega arith),
  get_or-append xs ys (i + 2) 0 (omega arith),
  get_or-append xs ys (i + 3) 0 h,
)

-- Only the first twelve bytes count.
pub decode_header-append :
    (hd rest : List ℕ) → length hd ≡ sizeof_message → decode_header (hd ++ rest) ≡ decode_header hd
unfolding decode_header load_header
decode_header-append hd rest e = rw (
  load16-append hd rest 0 (omega arith),
  load16-append hd rest 2 (omega arith),
  load16-append hd rest 4 (omega arith),
  load16-append hd rest 6 (omega arith),
  load32-append hd rest 8 (omega arith),
)

-- What `memcpy` puts into the header's twelve bytes comes back from them.
pub load_header-store :
    (h : Header) (rest : List ℕ) → IsHeader h → load_header (store_header h ++ rest) ≡ h
unfolding load_header store_header load16 load32 store16 store32
load_header-store h rest v = ground arith

n2h-IsHeader : (h : Header) → IsHeader (n2h h)
unfolding n2h ntohs ntohl
n2h-IsHeader h = omega arith

-- So the header that `Message_N2H` converts in place reads as the decoded one.
pub load_header-decode :
    (hd rest : List ℕ) → load_header (store_header (decode_header hd) ++ rest) ≡ decode_header hd
unfolding decode_header
load_header-decode hd rest = load_header-store _ rest (n2h-IsHeader (load_header hd))

pub decode_header-IsHeader : (hd : List ℕ) → IsHeader (decode_header hd)
unfolding decode_header
decode_header-IsHeader hd = n2h-IsHeader (load_header hd)
