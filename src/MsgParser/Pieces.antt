-- ===== src/MsgParser/Pieces.antt =====
-- A message that arrives in pieces: however its bytes are cut, it comes out once, and whole.
use compile_service.Common.{
  ℕ, ◌+◌, ◌^◌, ◌≤◌, ◌<◌, ◌≡◌, refl, sym, ap, ◌∙◌, List, [], ◌∷◌, ◌++◌, Option, none, some, take,
  drop, length, arith, length-append, append_assoc, append-nil, take-append_le, take-append_length,
  length-drop, length-take, take-append-drop, Malloc, ok, Outcome, ◌>>=◌, subst, length-zero,
}
use native.Mathlib.Decide.{dec_le, dec_lt}
use compile_service.Message.{Header, Message, sizeof_message}
use compile_service.Message.Wire.{
  decode_header, decode_header-append, decode_header-wire_header, wire_header, length-wire_header,
  IsHeader,
}
use compile_service.MsgParser.{MsgParser, read_parser}
use compile_service.MsgParser.Spec.{assemble, Repr, IsModest}
use compile_service.MsgParser.Assemble.{assemble_short, assemble_partial, assemble_whole}
use compile_service.MsgParser.Progress.{Grants}
use compile_service.MsgParser.Memory.{read_parser_lem}

-- A message as a sender makes it: its fields fit, and `length` counts the payload.
pub record IsMessage (m : Message) : Type 0 where
  pub fields : IsHeader m.head
  pub counted : m.head.length ≡ length m.payload
  pub modest : m.head.length < 2 ^ 31

abbrev pub wire : Message → List ℕ
wire m = wire_header m.head ++ m.payload

pub wire_size : (m : Message) → length (wire m) ≡ sizeof_message + length m.payload
wire_size m = omega (arith, length-append (wire_header m.head) m.payload, length-wire_header m.head)

message_eq : {a b : Message} → a.head ≡ b.head → a.payload ≡ b.payload → a ≡ b
message_eq e f = ground arith

pub assemble-wire :
    (m : Message) (more : List ℕ) → IsMessage m → assemble (wire m ++ more) ≡ ([], some m)
assemble-wire m more v =
    let declared : (decode_header (wire_header m.head)).length ≡ length m.payload =
      ap (λ (h : Header). h.length) (decode_header-wire_header m.head v.fields) ∙ v.counted in
    rw (append_assoc (wire_header m.head) m.payload more) (
      assemble_whole (wire_header m.head) (m.payload ++ more) (length-wire_header m.head)
        (omega (arith, length-append m.payload more))
      ∙ ap (λ (o : Message). ([], some o))
          (message_eq (decode_header-wire_header m.head v.fields) (
            take-append_length (decode_header (wire_header m.head)).length m.payload more
              (sym declared))))

-- The bytes that a proper prefix of a message's bytes holds are kept.
module _ (m : Message) (v : IsMessage m) (x y : List ℕ) (e : x ++ y ≡ wire m) where
  first_twelve : sizeof_message ≤ length x → take 12 x ≡ wire_header m.head
  first_twelve h =
      sym (take-append_le 12 x y h)
      ∙ ap (take 12) e
      ∙ take-append_length 12 (wire_header m.head) m.payload (length-wire_header m.head)

  declares : sizeof_message ≤ length x → decode_header (take 12 x) ≡ m.head
  declares h = ap decode_header (first_twelve h) ∙ decode_header-wire_header m.head v.fields

  twelve : sizeof_message ≤ length x → length (take 12 x) ≡ sizeof_message
  twelve h = omega (arith, length-take 12 x)

  pub prefix-IsModest : IsModest x
  prefix-IsModest h =
      let whole = take-append-drop 12 x in
      rw (← whole, decode_header-append (take 12 x) (drop 12 x) (twelve h), declares h) v.modest

  pub assemble_prefix : 0 < length y → assemble x ≡ (x, none)
  assemble_prefix pos = elim (dec_le 12 (length x)) [
    | yes h ↦
        let whole = take-append-drop 12 x in
        ap assemble (sym whole)
        ∙ assemble_partial (take 12 x) (drop 12 x) (twelve h) (
            rw (declares h) (
              omega
                (arith, ap length e, length-append x y, wire_size m, v.counted, length-drop 12 x)))
        ∙ ap (λ (z : List ℕ). (z, none)) whole
    | no h ↦ assemble_short x (omega arith)
  ]

-- MParser_ReadMem on one piece after the other; the messages that come out, in order.
abbrev pub cons_some : Option Message → List Message → List Message
cons_some none ms = ms
cons_some (some m) ms = m ∷ ms

unfoldable pub read_pieces : Malloc → MsgParser → List (List ℕ) → Outcome (List Message × MsgParser)
read_pieces malloc p [] = ok ([], p)
read_pieces malloc p (piece ∷ pieces) = do
  (ret, q) ← read_parser malloc p piece
  (rest, r) ← read_pieces malloc q pieces
  ok (cons_some ret rest, r)

abbrev pub joined : List (List ℕ) → List ℕ
joined [] = []
joined (piece ∷ pieces) = piece ++ joined pieces

abbrev pub Yields : List Message → Outcome (List Message × MsgParser) → Type 0
Yields ms out = (q : MsgParser) × (out ≡ ok (ms, q)) × Repr q []

Yields-more :
    (malloc : Malloc) (p q : MsgParser) (piece : List ℕ) (pieces : List (List ℕ))
    (ret : Option Message) (ms : List Message)
    → read_parser malloc p piece ≡ ok (ret, q)
    → Yields ms (read_pieces malloc q pieces)
    → Yields (cons_some ret ms) (read_pieces malloc p (piece ∷ pieces))
unfolding read_pieces
Yields-more malloc p q piece pieces ret ms e (r, f, s) = (r, rw (e, f), s)

module _ (malloc : Malloc) (grants : Grants malloc) where
  -- Empty pieces leave an idle parser idle.
  Yields-nothing :
      (p : MsgParser) (pieces : List (List ℕ))
      → Repr p []
      → length (joined pieces) ≡ 0
      → Yields [] (read_pieces malloc p pieces)
  unfolding read_pieces
  Yields-nothing p [] held e = (p, refl, held)
  Yields-nothing p ((b ∷ piece) ∷ pieces) held e = absurd (omega arith)
  Yields-nothing p ([] ∷ pieces) held e =
      let short = assemble_short [] (omega arith) in
      let (q, r, s) = read_parser_lem malloc p [] [] grants held (λ h. absurd (omega arith)) in
      Yields-more malloc p q [] pieces none [] (r ∙ rw short) (
        Yields-nothing q pieces (subst (Repr q) (ap (λ (x : List ℕ × Option Message). x.0) short) s)
          e)

  module _ (m : Message) (v : IsMessage m) where
    pub Yields-message :
        (p : MsgParser) (bs : List ℕ) (pieces : List (List ℕ))
        → Repr p bs
        → bs ++ joined pieces ≡ wire m
        → 0 < length (joined pieces)
        → Yields (m ∷ []) (read_pieces malloc p pieces)
    Yields-message p bs [] held e pos = absurd (omega arith)
    Yields-message p bs (piece ∷ pieces) held e pos =
        let split : (bs ++ piece) ++ joined pieces ≡ wire m = append_assoc bs piece _ ∙ e in
        let (q, r, s) =
          read_parser_lem malloc p bs piece grants held
            (prefix-IsModest m v (bs ++ piece) _ split) in
        elim (dec_lt 0 (length (joined pieces))) [
          | yes more ↦
              let kept = assemble_prefix m v (bs ++ piece) (joined pieces) split more in
              Yields-more malloc p q piece pieces none (m ∷ []) (rw kept at r)
                (Yields-message q (bs ++ piece) pieces (rw kept at s) split more)
          | no last ↦
              let whole : assemble (bs ++ piece) ≡ ([], some m) =
                ap assemble (
                  sym (append-nil (bs ++ piece))
                  ∙ ap (◌++◌ (bs ++ piece)) (sym (length-zero (joined pieces) (omega arith)))
                  ∙ split
                  ∙ sym (append-nil (wire m)))
                ∙ assemble-wire m [] v in
              Yields-more malloc p q piece pieces (some m) [] (rw whole at r)
                (Yields-nothing q pieces (rw whole at s) (omega arith))
        ]
