-- ===== src/MsgParser/Progress.antt =====
-- Steps that reading from memory and from a descriptor share: the states in terms of `Waiting` and
-- `Loaded`, the end of a message, and the passage from the header to the payload.
use compile_service.Common.{
  ℕ, ◌+◌, ◌^◌, ◌<◌, ◌≡◌, refl, sym, ap, ◌∙◌, true, List, [], ◌∷◌, ◌++◌, none, some, le→leb, drop,
  length, arith, length-append, append_assoc, append-nil, length-drop, take_all, Malloc, ok,
}
use compile_service.Message.{
  Header, Message, store16, store32, sizeof_message, load_header, store_header,
}
use compile_service.Message.Wire.{decode_header, load_header-decode}
use compile_service.MsgParser.{
  MsgParser, init_state, to_mid_state, to_last_state, finish, block_size, copy_header,
}
use compile_service.MsgParser.Spec.{assemble, Loaded, Repr, in_header, in_payload}
use compile_service.MsgParser.Assemble.{assemble_partial, assemble_whole}

-- A parser that InitState has left holds no byte.
pub init_state-Repr : (p : MsgParser) → length p.cache ≡ sizeof_message → Repr (init_state p) []
unfolding init_state
init_state-Repr p e =
    in_header p.cache
      (record {
        header_clear = refl;
        no_msg = refl;
        cache_eq = refl;
        cache_size = omega arith;
        need_eq = sym e;
      })
      (omega arith)

-- `c` joins what is there of the payload.
abbrev pub loaded_more : MsgParser → Message → List ℕ → List ℕ → List ℕ → MsgParser
loaded_more p m got c tail = record p {
  need = length tail;
  msg = some (record m { payload = got ++ (c ++ tail) });
}

pub loaded_more-Loaded :
    {p : MsgParser} {m : Message} (hd got c tail rest : List ℕ)
    → Loaded p m hd got rest
    → length c + length tail ≡ length rest
    → Loaded
        (loaded_more p m got c tail)
        (record m { payload = got ++ (c ++ tail) })
        hd
        (got ++ c)
        tail
loaded_more-Loaded hd got c tail rest l e = record {
  header_set = l.header_set;
  holds = refl;
  cache_size = l.cache_size;
  head_size = l.head_size;
  head_eq = l.head_eq;
  payload_eq = sym (append_assoc got c tail);
  length_eq = omega (arith, l.length_eq, length-append got c);
  need_eq = refl;
  modest = l.modest;
}

finish_done :
    (p : MsgParser) (m : Message)
    → p.header ≡ true
    → p.msg ≡ some m
    → p.need ≡ 0
    → finish p ≡ (some m, init_state (record p { msg = none }))
unfolding finish to_last_state
finish_done p m h g n = ground arith

finish_wait : (p : MsgParser) → 0 < p.need → finish p ≡ (none, p)
unfolding finish to_last_state
finish_wait p n = ground arith

whole_message :
    {p : MsgParser} {m : Message} (hd got : List ℕ)
    → Loaded p m hd got []
    → assemble (hd ++ got) ≡ ([], some m)
whole_message {p} {m} hd got l =
    assemble_whole hd got l.head_size (omega (arith, l.length_eq))
    ∙ rw (take_all (decode_header hd).length got (omega (arith, l.length_eq)))
        (cc (l.head_eq, l.payload_eq, append-nil got))

-- The end of both readers: the message is handed out when it is complete, and kept otherwise.
pub finish_lem :
    (p : MsgParser) (m : Message) (hd got tail : List ℕ)
    → Loaded p m hd got tail
    → (q : MsgParser) × (finish p ≡ ((assemble (hd ++ got)).1, q)) × Repr q (assemble (hd ++ got)).0
finish_lem p m hd got [] l = (
  init_state (record p { msg = none }),
  rw (whole_message hd got l) (finish_done p m l.header_set l.holds l.need_eq),
  rw (whole_message hd got l) (init_state-Repr (record p { msg = none }) l.cache_size),
)
finish_lem p m hd got (b ∷ tail) l =
    let e : assemble (hd ++ got) ≡ (hd ++ got, none) =
      assemble_partial hd got l.head_size (omega (arith, l.length_eq)) in
    (
      p,
      rw e (finish_wait p (omega (arith, l.need_eq))),
      rw e (in_payload m hd got (b ∷ tail) l refl (omega arith)),
    )

pub length-store_header : (h : Header) → length (store_header h) ≡ sizeof_message
unfolding store_header store16 store32
length-store_header h = refl

-- The allocator has a block for every message whose length fits an `int`.
abbrev pub Grants : Malloc → Type 0
Grants malloc =
    (n : ℕ)
    → n < 2 ^ 31
    → (block : List ℕ) × (malloc (12 + n) ≡ some block) × (length block ≡ 12 + n)

pub block_size_modest : (n : ℕ) → n < 2 ^ 31 → block_size n ≡ 12 + n
unfolding block_size
block_size_modest n h = ground arith

module _ (malloc : Malloc) (p : MsgParser) (hd : List ℕ)
    (c : p.cache ≡ store_header (decode_header hd)) where
  cached : load_header p.cache ≡ decode_header hd
  cached = ap load_header (c ∙ sym (append-nil _)) ∙ load_header-decode hd []

  -- The state with the block that `malloc` gave.
  abbrev blocked : List ℕ → MsgParser
  blocked block = record p {
    header = true;
    need = (load_header p.cache).length;
    msg = some (record { head = load_header p.cache; payload = drop 12 block });
  }

  to_mid_state_grants :
      (block : List ℕ)
      → malloc (12 + (decode_header hd).length) ≡ some block
      → length block ≡ 12 + (decode_header hd).length
      → (decode_header hd).length < 2 ^ 31
      → to_mid_state malloc p ≡ ok (true, blocked block)
  unfolding to_mid_state copy_header
  to_mid_state_grants block g e h =
      let size : block_size (load_header p.cache).length ≡ 12 + (decode_header hd).length =
        ap (λ (h : Header). block_size h.length) cached ∙ block_size_modest _ h in
      rw (ap malloc size ∙ g, to_mid_state, le→leb 12 (length block) (omega arith))

  -- With the header `hd` complete in the cache and converted there, the payload is awaited.
  pub to_mid_state-Loaded :
      Grants malloc
      → length hd ≡ sizeof_message
      → (decode_header hd).length < 2 ^ 31
      → (q : MsgParser) × (m : Message) × (tail : List ℕ) × (to_mid_state malloc p ≡ ok (true, q))
        × Loaded q m hd [] tail
  to_mid_state-Loaded grants e h =
      let (block, g, size) = grants (decode_header hd).length h in
      (
        blocked block,
        record { head = load_header p.cache; payload = drop 12 block },
        drop 12 block,
        to_mid_state_grants block g size h,
        record {
          header_set = refl;
          holds = refl;
          cache_size = ap length c ∙ length-store_header (decode_header hd);
          head_size = e;
          head_eq = cached;
          payload_eq = refl;
          length_eq = omega (arith, length-drop 12 block);
          need_eq = ap (λ (h : Header). h.length) cached ∙ omega (arith, length-drop 12 block);
          modest = h;
        },
      )
