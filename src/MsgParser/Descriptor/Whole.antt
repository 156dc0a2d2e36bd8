-- ===== src/MsgParser/Descriptor/Whole.antt =====
-- MParser_ReadFd on a descriptor where a message has come whole: one call hands it out.
use compile_service.Common.{
  ℕ, ◌≤◌, ◌≡◌, refl, sym, ap, ◌∙◌, subst, List, [], ◌++◌, Option, some, take, drop, length,
  length-append, append_assoc, append-nil, take-append-drop, take-append_le, take-append_length,
  drop-append_length, Malloc, ok, arith, ◌⊎◌, inl, inr,
}
use compile_service.Message.{Message, Header, sizeof_message}
use compile_service.Message.Wire.{
  wire_header, length-wire_header, decode_header, decode_header-append, decode_header-wire_header,
}
use compile_service.Reader.{Reader, IsSteady}
use compile_service.MsgParser.{MsgParser}
use compile_service.MsgParser.Spec.{Repr, IsModest, assemble, frame_size}
use compile_service.MsgParser.Assemble.{frame_size-append, frame_size_least}
use compile_service.MsgParser.Progress.{Grants}
use compile_service.MsgParser.Pieces.{IsMessage, wire, wire_size, assemble-wire}
use compile_service.MsgParser.Descriptor.{mparser_read_fd}
use compile_service.MsgParser.Descriptor.Refines.{mparser_read_fd_full}

module _ (m : Message) (v : IsMessage m) where
  declared : (decode_header (wire_header m.head)).length ≡ length m.payload
  declared = ap (λ (h : Header). h.length) (decode_header-wire_header m.head v.fields) ∙ v.counted

  pub stream-IsModest : (rest : List ℕ) → IsModest (wire m ++ rest)
  stream-IsModest rest h =
      rw
        (
          append_assoc (wire_header m.head) m.payload rest,
          decode_header-append (wire_header m.head) (m.payload ++ rest) (length-wire_header m.head),
          declared,
        )
        (omega (arith, v.counted, v.modest))

  -- Bytes that the stream starts with, and that hold a header, declare this message.
  pub frame_size-wire :
      (new left rest : List ℕ)
      → new ++ left ≡ wire m ++ rest
      → sizeof_message ≤ length new
      → frame_size new ≡ length (wire m)
  frame_size-wire new left rest e h =
      let header : take 12 new ≡ wire_header m.head =
        sym (take-append_le 12 new left h)
        ∙ ap (take 12) (e ∙ append_assoc (wire_header m.head) m.payload rest)
        ∙ take-append_length 12 (wire_header m.head) (m.payload ++ rest)
            (length-wire_header m.head) in
      let again : new ≡ wire_header m.head ++ drop 12 new =
        sym (take-append-drop 12 new) ∙ ap (λ xs. xs ++ drop 12 new) header in
      ap frame_size again
      ∙ frame_size-append (wire_header m.head) (drop 12 new) (length-wire_header m.head)
      ∙ omega (arith, declared, wire_size m)

  -- What has been taken is the message, where it is a whole frame or all that there is.
  pub taken-wire :
      (new left rest : List ℕ)
      → new ++ left ≡ wire m ++ rest
      → length new ≤ frame_size new
      → (length new ≡ frame_size new) ⊎ (left ≡ [])
      → (new ≡ wire m) × (left ≡ rest)
  taken-wire new left rest e le full =
      let n = length-append new left in
      let k = length-append (wire m) rest in
      let twelve : sizeof_message ≤ length new = elim full [
        | inl whole ↦ omega (arith, frame_size_least new, whole)
        | inr none_left ↦ omega (arith, n, k, ap length e, ap length none_left, wire_size m)
      ] in
      let size : length new ≡ length (wire m) =
        let frame = frame_size-wire new left rest e twelve in
        elim full [
          | inl whole ↦ whole ∙ frame
          | inr none_left ↦ omega (arith, n, k, ap length e, ap length none_left, le, frame)
        ] in
      (
        sym (take-append_length (length (wire m)) new left size)
            ∙ ap (take (length (wire m))) e
            ∙ take-append_length (length (wire m)) (wire m) rest refl,
        sym (drop-append_length (length (wire m)) new left size)
            ∙ ap (drop (length (wire m))) e
            ∙ drop-append_length (length (wire m)) (wire m) rest refl,
      )

  pub mparser_read_fd-wire :
      (reader : Reader) (malloc : Malloc) (w : Reader.World reader) (p : MsgParser) (rest : List ℕ)
      → IsSteady reader
      → Grants malloc
      → Repr p []
      → Reader.pending reader w ≡ wire m ++ rest
      → (q : MsgParser) × (w' : Reader.World reader) × (mparser_read_fd reader malloc
            (some p)
            (some w)
          ≡ ok (some m, some q, some w'))
        × (Reader.pending reader w' ≡ rest)
        × Repr q []
  mparser_read_fd-wire reader malloc w p rest steady grants idle e =
      let (new, q, w', run, split, le, held, settles) =
        mparser_read_fd_full reader malloc w p [] grants idle
          (subst IsModest (sym e) (stream-IsModest rest)) in
      let (new_eq, left_eq) =
        taken-wire new (Reader.pending reader w') rest (sym split ∙ e) le (settles steady) in
      let done : assemble new ≡ ([], some m) =
        ap assemble (new_eq ∙ sym (append-nil (wire m))) ∙ assemble-wire m [] v in
      (
        q,
        w',
        run ∙ ap (λ (a : List ℕ × Option Message). ok (a.1, some q, some w')) done,
        left_eq,
        subst (λ (a : List ℕ × Option Message). Repr q a.0) done held,
      )
