-- ===== src/MsgParser/Hostile.antt =====
-- Headers whose length does not fit an `int`: `need` is negative, and the sum that `malloc` gets
-- wraps around. With a length of 2 ^ 32 - 12 or more the block has fewer than twelve bytes, and the
-- copy of the header writes past its end.
use compile_service.Common.{
  ℕ, ◌+◌, ◌-◌, ◌^◌, ◌≤◌, ◌<◌, ◌≡◌, refl, sym, ap, ap₂, ◌∙◌, List, [], ◌++◌, none, some, true, false,
  length, arith, length-append, append-nil, Malloc, ok, fault, ◌>>=◌, take-append_length,
  drop-append_length,
}
use compile_service.Message.{Header, load_header, store_header, n2h}
use compile_service.Message.Wire.{
  decode_header, load_header-store, decode_header-wire_header, wire_header, length-wire_header,
  IsHeader,
}
use compile_service.MsgParser.{
  MsgParser, block_size, copy_header, to_mid_state, read_parser, enter_body, mparser_read_mem,
}
use compile_service.MsgParser.Spec.{Repr, in_header, in_payload}
use compile_service.MsgParser.Progress.{init_state-Repr, length-store_header}
use compile_service.MsgParser.Memory.{read_parser_clear, read_head_enter}

block_size_negative : (n : ℕ) → 2 ^ 32 - 12 ≤ n → n < 2 ^ 32 → block_size n ≡ n + 12 - 2 ^ 32
unfolding block_size
block_size_negative n h k = ground arith

copy_header_short : (cache block : List ℕ) → length block < 12 → copy_header cache block ≡ fault
unfolding copy_header
copy_header_short cache block h = ground arith

module _ (malloc : Malloc) (p : MsgParser) (block : List ℕ) where
  to_mid_state_short :
      malloc (block_size (load_header p.cache).length) ≡ some block
      → length block < 12
      → to_mid_state malloc p ≡ fault
  unfolding to_mid_state
  to_mid_state_short g h = rw (g, to_mid_state, copy_header_short p.cache block h)

converted :
    (h : Header) → IsHeader h → load_header (store_header (n2h (load_header (wire_header h)))) ≡ h
unfolding decode_header n2h
converted h v =
    ap (λ b. load_header (store_header b)) (decode_header-wire_header h v)
    ∙ ap load_header (sym (append-nil (store_header h)))
    ∙ load_header-store h [] v

-- An idle parser that is given a header goes on to the payload with that header in its cache.
enters :
    (malloc : Malloc) (p : MsgParser) (h : Header) (rest : List ℕ)
    → Repr p []
    → read_parser malloc p (wire_header h ++ rest)
      ≡ enter_body malloc (record p { cache = wire_header h }) rest
enters malloc p h rest (in_payload m hd got tail l e pos) =
    absurd (omega (arith, ap length e, l.head_size, length-append hd got))
enters malloc p h rest (in_header tail w pos) =
    let twelve : p.need ≡ 12 = omega (arith, w.need_eq, w.cache_size) in
    read_parser_clear malloc p _ w.header_clear
    ∙ read_head_enter malloc p [] tail (wire_header h ++ rest) w
        (omega (arith, w.cache_size, length-append (wire_header h) rest, length-wire_header h))
    ∙ ap₂ (λ hd xs. enter_body malloc (record p { cache = hd }) xs)
        (take-append_length p.need (wire_header h) rest (length-wire_header h ∙ sym twelve))
        (drop-append_length p.need (wire_header h) rest (length-wire_header h ∙ sym twelve))

-- What `malloc` is asked for, once the header is converted.
asks :
    (h : Header) (p : MsgParser)
    → IsHeader h
    → p.cache ≡ store_header (n2h (load_header (wire_header h)))
    → (load_header p.cache).length ≡ h.length
asks h p v e = ap (λ (x : Header). x.length) (ap load_header e ∙ converted h v)

-- A header that declares 2 ^ 32 - 12 bytes or more makes the parser write outside the block that it
-- gets, whatever follows: this holds of every idle parser and every allocator that has the few bytes.
pub mparser_read_mem-overflow :
    (malloc : Malloc) (p : MsgParser) (h : Header) (rest block : List ℕ)
    → Repr p []
    → IsHeader h
    → 2 ^ 32 - 12 ≤ h.length
    → malloc (h.length + 12 - 2 ^ 32) ≡ some block
    → length block ≡ h.length + 12 - 2 ^ 32
    → mparser_read_mem malloc (some p) (some (wire_header h ++ rest)) ≡ fault
unfolding mparser_read_mem enter_body
mparser_read_mem-overflow malloc p h rest block held v long g size =
    let start = record p { cache = store_header (n2h (load_header (wire_header h))) } in
    let small : to_mid_state malloc start ≡ fault =
      to_mid_state_short malloc start block
        (ap malloc
            (ap block_size (asks h start v refl) ∙ block_size_negative h.length long v.length_fits)
          ∙ g)
        (omega (arith, v.length_fits)) in
    ap (λ o. o >>= λ x. ok (x.0, some x.1)) (enters malloc p h rest held) ∙ rw (small, enter_body)

block_size_huge : (n : ℕ) → 2 ^ 31 ≤ n → n < 2 ^ 32 - 12 → 2 ^ 63 ≤ block_size n
unfolding block_size
block_size_huge n h k = ground arith

to_mid_state_refused :
    (malloc : Malloc) (p : MsgParser)
    → malloc (block_size (load_header p.cache).length) ≡ none
    → to_mid_state malloc p
      ≡ ok (false, record p { header = true; need = (load_header p.cache).length; msg = none })
unfolding to_mid_state
to_mid_state_refused malloc p g = rw (g, to_mid_state)

-- When there is no block for a message its header is dropped with all that came behind it in the
-- same piece: the parser answers none, and holds no byte. The next bytes count as a new header.
pub mparser_read_mem-refused :
    (malloc : Malloc) (p : MsgParser) (h : Header) (rest : List ℕ)
    → Repr p []
    → IsHeader h
    → malloc (block_size h.length) ≡ none
    → (q : MsgParser) × (mparser_read_mem malloc (some p) (some (wire_header h ++ rest))
        ≡ ok (none, some q))
      × Repr q []
unfolding mparser_read_mem enter_body
mparser_read_mem-refused malloc p h rest held v g =
    let start = record p { cache = store_header (n2h (load_header (wire_header h))) } in
    let none_given =
      to_mid_state_refused malloc start
        (ap (λ n. malloc (block_size n)) (asks h start v refl) ∙ g) in
    (
      _,
      ap (λ o. o >>= λ x. ok (x.0, some x.1)) (enters malloc p h rest held)
          ∙ rw (none_given, enter_body) refl,
      init_state-Repr
          (record start { header = true; need = (load_header start.cache).length; msg = none })
          (length-store_header _),
    )

-- A header that declares from 2 ^ 31 to 2 ^ 32 - 13 bytes, given to an idle parser, makes no access
-- outside an object: the size that `malloc` is asked for is 2 ^ 63 or more, which the allocator is
-- taken never to have, and the message is dropped. The parser answers none and is idle again, so that
-- the rest of the same piece is lost and the next bytes count as a new header.
pub mparser_read_mem-long :
    (malloc : Malloc) (p : MsgParser) (h : Header) (rest : List ℕ)
    → ((n : ℕ) → 2 ^ 63 ≤ n → malloc n ≡ none)
    → Repr p []
    → IsHeader h
    → 2 ^ 31 ≤ h.length
    → h.length < 2 ^ 32 - 12
    → (q : MsgParser) × (mparser_read_mem malloc (some p) (some (wire_header h ++ rest))
        ≡ ok (none, some q))
      × Repr q []
mparser_read_mem-long malloc p h rest limit held v lo hi =
    mparser_read_mem-refused malloc p h rest held v
      (limit (block_size h.length) (block_size_huge h.length lo hi))
