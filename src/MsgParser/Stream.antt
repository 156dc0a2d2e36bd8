-- ===== src/MsgParser/Stream.antt =====
-- A row of messages, each cut into pieces of its own.
use compile_service.Common.{
  ℕ, ◌≡◌, refl, ap, List, [], ◌∷◌, ◌++◌, Option, none, some, map, length, arith, All, Malloc, ok,
  >>=-returns,
}
use compile_service.Message.{Message}
use compile_service.MsgParser.{MsgParser, read_parser}
use compile_service.MsgParser.Spec.{Repr}
use compile_service.MsgParser.Progress.{Grants}
use compile_service.MsgParser.Pieces.{
  IsMessage, wire, joined, read_pieces, cons_some, Yields-message, wire_size,
}

-- A message, and the pieces in which its bytes arrive.
abbrev pub Cut : Type 0
Cut = Message × List (List ℕ)

abbrev pub IsCut : Cut → Type 0
IsCut c = IsMessage c.0 × (joined c.1 ≡ wire c.0)

abbrev pub all_pieces : List Cut → List (List ℕ)
all_pieces [] = []
all_pieces (c ∷ cs) = c.1 ++ all_pieces cs

abbrev pub messages : List Cut → List Message
messages = map (λ c. c.0)

cons_some-append :
    (o : Option Message) (ms ns : List Message) → cons_some o ms ++ ns ≡ cons_some o (ms ++ ns)
cons_some-append none ms ns = refl
cons_some-append (some m) ms ns = refl

module _ (malloc : Malloc) where
  split_step :
      (p r : MsgParser) (piece : List ℕ) (pieces : List (List ℕ)) (ms : List Message)
      → read_pieces malloc p (piece ∷ pieces) ≡ ok (ms, r)
      → (ret : Option Message) × (q : MsgParser) × (rest : List Message) × (read_parser malloc p
            piece
          ≡ ok (ret, q))
        × (read_pieces malloc q pieces ≡ ok (rest, r))
        × (ms ≡ cons_some ret rest)
  unfolding read_pieces
  split_step p r piece pieces ms e =
      let ((ret, q), e1, h1) = >>=-returns _ (read_parser malloc p piece) e in
      let ((rest, r'), e2, h2) = >>=-returns _ (read_pieces malloc q pieces) h1 in
      (ret, q, rest, e1, ground arith, ground arith)

  read_pieces-append :
      (p q r : MsgParser) (xs ys : List (List ℕ)) (ms ns : List Message)
      → read_pieces malloc p xs ≡ ok (ms, q)
      → read_pieces malloc q ys ≡ ok (ns, r)
      → read_pieces malloc p (xs ++ ys) ≡ ok (ms ++ ns, r)
  unfolding read_pieces
  read_pieces-append p q r [] ys ms ns e f = cc
  read_pieces-append p q r (x ∷ xs) ys ms ns e f =
      let (ret, o, rest, e1, e2, e3) = split_step p q x xs ms e in
      rw (e1, e3, cons_some-append ret rest ns) (rw (read_pieces-append o q r xs ys rest ns e2 f))

  -- Messages that arrive one after the other, each cut into pieces in any way (empty ones too) that
  -- hold no byte of the next, come out in order, each once and unchanged; then the parser holds no
  -- byte. The allocator has the blocks, and every length fits an `int`.
  pub read_pieces-messages :
      Grants malloc
      → (cs : List Cut) (p : MsgParser) → Repr p []
      → All IsCut cs
      → (q : MsgParser) × (read_pieces malloc p (all_pieces cs) ≡ ok (messages cs, q)) × Repr q []
  unfolding read_pieces
  read_pieces-messages grants [] p held v = (p, refl, held)
  read_pieces-messages grants ((m, pieces) ∷ cs) p held ((valid, cut), v) =
      let (q, e, s) =
        Yields-message malloc grants m valid p [] pieces held cut
          (omega (arith, ap length cut, wire_size m)) in
      let (r, f, t) = read_pieces-messages grants cs q s v in
      (r, read_pieces-append p q r pieces (all_pieces cs) (m ∷ []) (messages cs) e f, t)
