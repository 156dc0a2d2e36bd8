-- ===== src/Earlier/Whole.antt =====
-- Messages that arrive whole, or as a header and a payload, give the same with both parsers.
use compile_service.Common.{
  ℕ, ◌+◌, ◌≤◌, ◌<◌, ◌≡◌, refl, sym, ap, ◌∙◌, true, false, List, [], ◌∷◌, ◌++◌, none, some, Malloc,
  ok, ◌>>=◌, poke, poke-append, le→leb, if◌then◌else◌, drop, take_all, length, length-drop,
  length-zero, length-append, append-nil, take-append_length, drop-append_length, arith,
}
use compile_service.Message.{Header, Message, load_header, store_header}
use compile_service.Message.Wire.{
  wire_header, length-wire_header, decode_header, decode_header-wire_header, load_header-store,
  IsHeader,
}
use compile_service.MsgParser.{MsgParser, block_size, copy_header, sub32}
use compile_service.MsgParser.Spec.{Repr, in_header, in_payload}
use compile_service.MsgParser.Body.{part_all}
use compile_service.Earlier.{
  ensure_msg, overwrite, hand_out, earlier_body, earlier_rest, earlier_head, earlier_parser,
}

-- A parser between two messages.
pub record IsIdle (p : MsgParser) : Type 0 where
  pub header_clear : p.header ≡ false
  pub need_twelve : p.need ≡ 12
  pub no_msg : p.msg ≡ none
  pub cache_twelve : length p.cache ≡ 12

pub Repr-IsIdle : (p : MsgParser) → Repr p [] → IsIdle p
Repr-IsIdle p (in_payload m hd got tail l e pos) =
    absurd (omega (arith, ap length e, l.head_size, length-append hd got))
Repr-IsIdle p (in_header tail w pos) = record {
  header_clear = w.header_clear;
  need_twelve = omega (arith, w.need_eq, w.cache_size);
  no_msg = w.no_msg;
  cache_twelve = omega (arith, ap length w.cache_eq, w.cache_size);
}

-- A parser that has taken a header, and no byte of the payload.
abbrev pub headed : MsgParser → Header → MsgParser
headed p h = record p { cache = store_header h; header = true; need = h.length }

poke_whole : (block bytes : List ℕ) → length bytes ≡ length block → poke block 0 bytes ≡ ok bytes
poke_whole block bytes e =
    poke-append [] bytes block 0 refl (omega arith)
    ∙ ap (λ (rest : List ℕ). ok (bytes ++ rest))
        (length-zero (drop (length bytes) block) (omega (arith, length-drop (length bytes) block)))
    ∙ ap ok (append-nil bytes)

module _ (malloc : Malloc) (p : MsgParser) where
  pub parser_clear :
      (mem : List ℕ)
      → 0 < length mem
      → p.header ≡ false
      → earlier_parser malloc p mem ≡ earlier_head malloc p p.need mem
  unfolding earlier_parser
  parser_clear [] h e = absurd (omega arith)
  parser_clear (b ∷ mem) h e =
      ap
        (λ c. if c then earlier_body malloc p (b ∷ mem) else earlier_head malloc p p.need (b ∷ mem))
        e

  pub parser_set :
      (mem : List ℕ)
      → 0 < length mem
      → p.header ≡ true
      → earlier_parser malloc p mem ≡ earlier_body malloc p mem
  unfolding earlier_parser
  parser_set [] h e = absurd (omega arith)
  parser_set (b ∷ mem) h e =
      ap
        (λ c. if c then earlier_body malloc p (b ∷ mem) else earlier_head malloc p p.need (b ∷ mem))
        e

  head_whole :
      (h : Header) (rest : List ℕ) (n : ℕ)
      → IsHeader h
      → length p.cache ≡ 12
      → length (wire_header h) ≡ n
      → earlier_head malloc p n (wire_header h ++ rest) ≡ earlier_rest malloc (headed p h) rest
  unfolding earlier_head decode_header
  head_whole h rest n w size e = rw (
    le→leb n (length (wire_header h ++ rest)) (omega (arith, length-append (wire_header h) rest)),
    take-append_length n (wire_header h) rest e,
    drop-append_length n (wire_header h) rest e,
    poke_whole p.cache (wire_header h) (length-wire_header h ∙ sym size),
    decode_header-wire_header h w,
  )

  -- The header's twelve bytes, and what the rest of the piece does then.
  pub earlier_head_lem :
      (h : Header) (rest : List ℕ)
      → IsIdle p
      → IsHeader h
      → earlier_parser malloc p (wire_header h ++ rest) ≡ earlier_rest malloc (headed p h) rest
  earlier_head_lem h rest v w =
      let size = length-wire_header h in
      parser_clear (wire_header h ++ rest) (omega (arith, size, length-append (wire_header h) rest))
        v.header_clear
      ∙ head_whole h rest p.need w v.cache_twelve (size ∙ sym v.need_twelve)

module _ (malloc : Malloc) (q : MsgParser) where
  ensure_msg_lem :
      (block : List ℕ)
      → malloc (block_size q.need) ≡ some block
      → 12 ≤ length block
      → ensure_msg malloc q none
        ≡ ok (record q {
          msg = some (record { head = load_header q.cache; payload = drop 12 block });
        })
  unfolding ensure_msg copy_header
  ensure_msg_lem block g h = rw (g, ensure_msg, le→leb 12 (length block) h)

  -- A piece of a payload goes to the start of the message's payload.
  pub overwrite_lem :
      (m : Message) (mem : List ℕ)
      → length mem ≤ q.need
      → length mem ≤ length m.payload
      → overwrite q mem (some m)
        ≡ ok (record q {
          need = sub32 q.need (length mem);
          msg = some (record m { payload = mem ++ drop (length mem) m.payload });
        })
  unfolding overwrite
  overwrite_lem m mem h k = rw (
    part_all q.need mem h,
    take_all (length mem) mem (omega arith),
    poke-append [] mem m.payload 0 refl k,
  )

  pub body_more :
      (m : Message) (mem : List ℕ)
      → q.msg ≡ some m
      → length mem ≤ q.need
      → length mem ≤ length m.payload
      → earlier_body malloc q mem
        ≡ ok (
            hand_out (record q {
              need = sub32 q.need (length mem);
              msg = some (record m { payload = mem ++ drop (length mem) m.payload });
            }))
  unfolding earlier_body ensure_msg
  body_more m mem e h k =
      ap (λ o. ensure_msg malloc q o >>= λ s. overwrite s mem s.msg >>= λ r. ok (hand_out r)) e
      ∙ ap (λ o. overwrite q mem o >>= λ r. ok (hand_out r)) e
      ∙ ap (λ o. o >>= λ r. ok (hand_out r)) (overwrite_lem m mem h k)

module _ (malloc : Malloc) (p : MsgParser) where
  -- The first piece of a payload: the block holds it, and behind it what `malloc` gave.
  pub first_piece :
      (h : Header) (mem block : List ℕ)
      → IsIdle p
      → IsHeader h
      → malloc (block_size h.length) ≡ some block
      → length block ≡ 12 + h.length
      → length mem ≤ h.length
      → earlier_body malloc (headed p h) mem
        ≡ ok (
            hand_out (record (headed p h) {
              need = sub32 h.length (length mem);
              msg = some (record { head = h; payload = mem ++ drop (length mem) (drop 12 block) });
            }))
  unfolding earlier_body
  first_piece h mem block v w g size fits =
      let q = headed p h in
      let stored : load_header (store_header h) ≡ h =
        ap load_header (sym (append-nil (store_header h))) ∙ load_header-store h [] w in
      let m : Message = record { head = h; payload = drop 12 block } in
      ap (λ o. ensure_msg malloc q o >>= λ s. overwrite s mem s.msg >>= λ r. ok (hand_out r))
        v.no_msg
      ∙ ap (λ o. o >>= λ s. overwrite s mem s.msg >>= λ r. ok (hand_out r))
          (ensure_msg_lem malloc q block g (omega (arith, size))
            ∙ ap
                (λ (x : Header).
                  ok (record q { msg = some (record { head = x; payload = drop 12 block }) }))
                stored)
      ∙ ap (λ o. o >>= λ r. ok (hand_out r))
          (overwrite_lem malloc (record q { msg = some m }) m mem fits
            (omega (arith, length-drop 12 block, size)))
