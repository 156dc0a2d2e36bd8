-- ===== src/Earlier/Lost.antt =====
-- What the first parser loses: pieces of a header, and the start of a payload that comes in two.
use compile_service.Common.{
  ℕ, ◌+◌, ◌^◌, ◌<◌, ◌≡◌, refl, sym, ap, ◌∙◌, false, List, [], ◌∷◌, ◌++◌, none, some, Malloc, ok,
  leb, ◌==◌, if◌then◌else◌, take, drop, take-append_length, length, length-drop, length-append,
  append-nil, All, arith,
}
use compile_service.Message.{Header, Message}
use compile_service.Message.Wire.{wire_header, IsHeader}
use compile_service.MsgParser.{MsgParser, block_size, sub32}
use compile_service.MsgParser.Spec.{Repr}
use compile_service.MsgParser.Progress.{Grants, block_size_modest, length-store_header}
use compile_service.Earlier.{cleared, hand_out, earlier_rest, earlier_head, earlier_parser}
use compile_service.Earlier.Whole.{
  IsIdle, Repr-IsIdle, headed, parser_clear, parser_set, earlier_head_lem, first_piece, body_more,
}
use compile_service.Earlier.Same.{earlier_pieces, pieces_step, cleared-Repr, handed}

module _ (malloc : Malloc) where
  head_short :
      (p : MsgParser) (n : ℕ) (mem : List ℕ)
      → length mem < n
      → earlier_head malloc p n mem ≡ ok (none, p)
  unfolding earlier_head
  head_short p n mem h = let few : leb n (length mem) ≡ false = ground arith in rw few

  short_dropped :
      (p : MsgParser) (piece : List ℕ)
      → IsIdle p
      → length piece < 12
      → earlier_parser malloc p piece ≡ ok (none, p)
  short_dropped p [] v h = unfold earlier_parser in refl
  short_dropped p (b ∷ piece) v h =
      parser_clear malloc p (b ∷ piece) (omega arith) v.header_clear
      ∙ head_short p p.need (b ∷ piece) (omega (arith, v.need_twelve))

  pieces_dropped :
      (pieces : List (List ℕ)) (p : MsgParser)
      → IsIdle p
      → All (λ piece. length piece < 12) pieces
      → earlier_pieces malloc p pieces ≡ ok ([], p)
  pieces_dropped [] p v a = unfold earlier_pieces in refl
  pieces_dropped (piece ∷ pieces) p v (h, a) =
      pieces_step malloc p p p piece pieces none [] (short_dropped p piece v h)
        (pieces_dropped pieces p v a)

  -- Bytes that come to the first parser in pieces of fewer than twelve are lost, all of them: no
  -- message comes out, whatever they say, and the parser is what it was.
  pub earlier_pieces-dropped :
      (pieces : List (List ℕ)) (p : MsgParser)
      → Repr p []
      → All (λ piece. length piece < 12) pieces
      → earlier_pieces malloc p pieces ≡ ok ([], p)
  earlier_pieces-dropped pieces p held a = pieces_dropped pieces p (Repr-IsIdle p held) a

  module _ (grants : Grants malloc) (h : Header) (v : IsHeader h) (modest : h.length < 2 ^ 31) where
    kept_back : (r : MsgParser) → (r.need == 0) ≡ false → hand_out r ≡ (none, r)
    unfolding hand_out
    kept_back r e = ap (λ b. if b then (r.msg, cleared r) else (none, r)) e

    -- A payload that comes to the first parser in two pieces: the second is copied over the start of
    -- the first. The message that comes out begins with the second piece, so that it is not the
    -- message that was sent unless the first piece begins so too; and no error is reported.
    pub earlier_pieces-overwritten :
        (p : MsgParser) (a b : List ℕ)
        → Repr p []
        → 0 < length a
        → 0 < length b
        → length a + length b ≡ h.length
        → (d : Message) × (q : MsgParser) × (earlier_pieces malloc p (wire_header h ∷ a ∷ b ∷ [])
            ≡ ok (d ∷ [], q))
          × (d.head ≡ h)
          × (take (length b) d.payload ≡ b)
          × Repr q []
    earlier_pieces-overwritten p a b held first second sum =
        let idle = Repr-IsIdle p held in
        let (block, g, size) = grants h.length modest in
        let asked : malloc (block_size h.length) ≡ some block =
          ap malloc (block_size_modest h.length modest) ∙ g in
        let kept : List ℕ = a ++ drop (length a) (drop 12 block) in
        let p1 : MsgParser = record (headed p h) {
          need = sub32 h.length (length a);
          msg = some (record { head = h; payload = kept });
        } in
        let wants : p1.need ≡ length b = omega (arith, sum, modest) in
        let room : length kept ≡ h.length = omega (
          arith,
          length-append a (drop (length a) (drop 12 block)),
          length-drop (length a) (drop 12 block),
          length-drop 12 block,
          size,
          sum,
        ) in
        let d : Message = record { head = h; payload = b ++ drop (length b) kept } in
        let p2 : MsgParser = record p1 { need = sub32 p1.need (length b); msg = some d } in
        let enters : earlier_parser malloc p (wire_header h) ≡ ok (none, headed p h) =
          ap (earlier_parser malloc p) (sym (append-nil (wire_header h)))
          ∙ earlier_head_lem malloc p h [] idle v
          ∙ (unfold earlier_rest in refl) in
        let takes : earlier_parser malloc (headed p h) a ≡ ok (none, p1) =
          parser_set malloc (headed p h) a first refl
          ∙ first_piece malloc p h a block idle v asked size (omega (arith, sum))
          ∙ ap ok (kept_back p1 (ground (arith, wants))) in
        let gives : earlier_parser malloc p1 b ≡ ok (some d, cleared p2) =
          parser_set malloc p1 b second refl
          ∙ body_more malloc p1 (record { head = h; payload = kept }) b refl (omega (arith, wants))
              (omega (arith, room, sum))
          ∙ ap ok (handed p2 (omega (arith, wants))) in
        (
          d,
          cleared p2,
          pieces_step malloc p (headed p h) (cleared p2) (wire_header h) (a ∷ b ∷ []) none (d ∷ [])
              enters
              (pieces_step malloc (headed p h) p1 (cleared p2) a (b ∷ []) none (d ∷ []) takes (
                pieces_step malloc p1 (cleared p2) (cleared p2) b [] (some d) [] gives
                  (unfold earlier_pieces in refl))),
          refl,
          take-append_length (length b) b (drop (length b) kept) refl,
          cleared-Repr p2 (length-store_header h),
        )
