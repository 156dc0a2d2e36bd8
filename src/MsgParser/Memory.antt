-- ===== src/MsgParser/Memory.antt =====
-- MParser_ReadMem refines `assemble`: it collects the bytes that it is given, whatever the sizes of
-- the pieces, and hands out each message when its last byte arrives.
use compile_service.Common.{
  ℕ, ◌^◌, ◌≤◌, ◌<◌, ◌≡◌, refl, sym, ap, ◌∙◌, true, false, List, [], ◌++◌, none, some, ltb, take,
  drop, length, if◌then◌else◌, arith, length-append, append_assoc, append-nil, Bool-cases, inl, inr,
  ltb→lt, ltb-false→le, length-zero, length-drop, length-take, take_all, take-append-drop, Malloc,
  ok, ==_refl, lt→==-false, ◌>>=◌,
}
use compile_service.Message.{sizeof_message, load_header, store_header, n2h}
use compile_service.Message.Wire.{decode_header, decode_header-append}
use compile_service.MsgParser.{
  MsgParser, memcpy_at, sub32, read_body, enter_body, read_head, read_parser, mparser_read_mem,
}
use compile_service.MsgParser.Spec.{assemble, Waiting, Repr, in_header, in_payload, IsModest}
use compile_service.MsgParser.Assemble.{assemble_short}
use compile_service.MsgParser.Body.{Delivers, part_all, part_some, memcpy_at-append, read_body_lem}
use compile_service.MsgParser.Progress.{Grants, to_mid_state-Loaded}

enter_body_lem :
    (malloc : Malloc) (p : MsgParser) (hd rest : List ℕ)
    → Grants malloc
    → p.cache ≡ hd
    → length hd ≡ sizeof_message
    → (decode_header hd).length < 2 ^ 31
    → Delivers (hd ++ rest) (enter_body malloc p rest)
unfolding enter_body decode_header n2h
enter_body_lem malloc p hd rest grants c e h =
    let (q, m, tail, r, l) =
      to_mid_state-Loaded malloc (record p { cache = store_header (n2h (load_header p.cache)) }) hd
        (ap (λ b. store_header (n2h (load_header b))) c) grants e h in
    let (q', r', s) = read_body_lem q m hd [] tail rest l in (q', rw (r, enter_body) r', s)

pub drop_whole : (xs : List ℕ) → drop (length xs) xs ≡ []
drop_whole xs = length-zero _ (omega (arith, length-drop (length xs) xs))

module _ (malloc : Malloc) (p : MsgParser) (got tail mem : List ℕ) (w : Waiting p got tail) where
  copy_head :
      (n : ℕ)
      → n ≤ length mem
      → n ≤ length tail
      → memcpy_at p.cache (sub32 sizeof_message p.need) mem n
        ≡ ok (got ++ (take n mem ++ drop n tail))
  copy_head n h k =
      let offset : sub32 sizeof_message p.need ≡ length got =
        rw w.need_eq (omega (arith, w.cache_size)) in
      rw (offset, w.cache_eq)
        (memcpy_at-append got tail mem (length got) n refl h k (omega (arith, w.cache_size))
          (omega (arith, w.cache_size)))

  read_head_few : length mem < length tail → Delivers (got ++ mem) (read_head malloc p mem)
  unfolding read_head
  read_head_few h =
      let short : assemble (got ++ mem) ≡ (got ++ mem, none) =
        assemble_short (got ++ mem) (omega (arith, w.cache_size, length-append got mem)) in
      let copied : memcpy_at p.cache (sub32 sizeof_message p.need) mem (length mem)
          ≡ ok (got ++ (mem ++ drop (length mem) tail)) =
        copy_head (length mem) (omega arith) (omega arith)
        ∙ rw (take_all (length mem) mem (omega arith)) refl in
      let left : sub32 p.need (length mem) ≡ length (drop (length mem) tail) =
        omega (arith, w.need_eq, w.cache_size, length-drop (length mem) tail) in
      rw short (
        record p {
          cache = got ++ (mem ++ drop (length mem) tail);
          need = sub32 p.need (length mem);
        },
        rw (
          part_all p.need mem (omega (arith, w.need_eq)),
          copied,
          read_head,
          lt→==-false p.need (length mem) (omega (arith, w.need_eq)),
        ),
        in_header (drop (length mem) tail)
            (record {
              header_clear = w.header_clear;
              no_msg = w.no_msg;
              cache_eq = sym (append_assoc got mem (drop (length mem) tail));
              cache_size =
                  omega (arith, w.cache_size, length-append got mem, length-drop (length mem) tail);
              need_eq = left;
            })
            (omega (arith, length-drop (length mem) tail)),
      )

  -- The header is complete: its twelve bytes are in the cache, and the rest is for the payload.
  pub read_head_enter :
      length tail ≤ length mem
      → read_head malloc p mem
        ≡ enter_body malloc (record p { cache = got ++ take p.need mem }) (drop p.need mem)
  unfolding read_head
  read_head_enter h =
      let full : memcpy_at p.cache (sub32 sizeof_message p.need) mem p.need
          ≡ ok (got ++ take p.need mem) =
        copy_head p.need (omega (arith, w.need_eq)) (omega (arith, w.need_eq))
        ∙ rw (w.need_eq, drop_whole tail, append-nil (take (length tail) mem)) in
      rw (part_some p.need mem (omega (arith, w.need_eq)), ==_refl p.need, full, read_head)

  read_head_many :
      Grants malloc
      → length tail ≤ length mem
      → IsModest (got ++ mem)
      → Delivers (got ++ mem) (read_head malloc p mem)
  read_head_many grants h modest =
      let hd = got ++ take p.need mem in
      let size : length hd ≡ sizeof_message = omega (
        arith,
        w.cache_size,
        w.need_eq,
        length-append got (take p.need mem),
        length-take p.need mem,
      ) in
      let whole : got ++ mem ≡ hd ++ drop p.need mem =
        ap (◌++◌ got) (sym (take-append-drop p.need mem)) ∙ sym (append_assoc got _ _) in
      let declared : (decode_header hd).length < 2 ^ 31 =
        rw (whole, decode_header-append hd _ size) at
          (modest (omega (arith, w.cache_size, length-append got mem))) in
      let (q, r, s) =
        enter_body_lem malloc (record p { cache = hd }) hd (drop p.need mem) grants refl size
          declared in
      rw whole (q, read_head_enter h ∙ r, s)

pub read_parser_clear :
    (malloc : Malloc) (p : MsgParser) (mem : List ℕ)
    → p.header ≡ false
    → read_parser malloc p mem ≡ read_head malloc p mem
unfolding read_parser
read_parser_clear malloc p mem h = ap (λ b. if b then read_body p mem else read_head malloc p mem) h

read_parser_set :
    (malloc : Malloc) (p : MsgParser) (mem : List ℕ)
    → p.header ≡ true
    → read_parser malloc p mem ≡ read_body p mem
unfolding read_parser
read_parser_set malloc p mem h = ap (λ b. if b then read_body p mem else read_head malloc p mem) h

read_head_lem :
    (malloc : Malloc) (p : MsgParser) (got tail mem : List ℕ)
    → Waiting p got tail
    → Grants malloc
    → IsModest (got ++ mem)
    → Delivers (got ++ mem) (read_head malloc p mem)
read_head_lem malloc p got tail mem w grants modest =
    elim (Bool-cases (ltb (length mem) (length tail))) [
      | inl few ↦ read_head_few malloc p got tail mem w (ltb→lt _ _ few)
      | inr many ↦ read_head_many malloc p got tail mem w grants (ltb-false→le _ _ many) modest
    ]

pub read_parser_lem :
    (malloc : Malloc) (p : MsgParser) (bs mem : List ℕ)
    → Grants malloc
    → Repr p bs
    → IsModest (bs ++ mem)
    → Delivers (bs ++ mem) (read_parser malloc p mem)
read_parser_lem malloc p bs mem grants (in_header tail w pos) modest =
    let (q, r, s) = read_head_lem malloc p bs tail mem w grants modest in
    (q, read_parser_clear malloc p mem w.header_clear ∙ r, s)
read_parser_lem malloc p bs mem grants (in_payload m hd got tail l e pos) modest =
    let (q, r, s) = read_body_lem p m hd got tail mem l in
    rw (e, append_assoc hd got mem) (q, read_parser_set malloc p mem l.header_set ∙ r, s)

-- A parser that holds the bytes `bs` and is given `mem` answers as `assemble` does on `bs ++ mem`:
-- it hands out the message that these bytes complete, or none, and holds the bytes that are left.
-- No write leaves its object. The allocator has a block for the message, and the length that the
-- header declares fits an `int`.
pub mparser_read_mem-assemble :
    (malloc : Malloc) (p : MsgParser) (bs mem : List ℕ)
    → Grants malloc
    → Repr p bs
    → IsModest (bs ++ mem)
    → (q : MsgParser) × (mparser_read_mem malloc (some p) (some mem)
        ≡ ok ((assemble (bs ++ mem)).1, some q))
      × Repr q (assemble (bs ++ mem)).0
unfolding mparser_read_mem
mparser_read_mem-assemble malloc p bs mem grants held modest =
    let (q, r, s) = read_parser_lem malloc p bs mem grants held modest in
    (q, ap (λ o. o >>= λ x. ok (x.0, some x.1)) r, s)
