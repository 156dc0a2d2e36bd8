-- ===== src/MsgParser/Body.antt =====
-- MParser_ReadMem once the header is there: bytes go to the payload.
use compile_service.Common.{
  ℕ, ◌^◌, ◌≤◌, ◌<◌, ◌≡◌, refl, sym, ap, ◌∙◌, List, ◌++◌, Option, some, ltb, lt→ltb, take, drop,
  length, arith, length-append, append_assoc, Bool-cases, inl, inr, ltb→lt, ltb-false→le,
  length-drop, length-take, take_all, take-append-drop, ok, Outcome, ◌>>=◌, poke-append,
}
use compile_service.Message.{Message}
use compile_service.MsgParser.{MsgParser, memcpy_at, part, sub32, copy_payload, read_body, finish}
use compile_service.MsgParser.Spec.{assemble, Loaded, Repr}
use compile_service.MsgParser.Assemble.{assemble_surplus}
use compile_service.MsgParser.Progress.{loaded_more, loaded_more-Loaded, finish_lem}

-- What a reader answers: the message of `assemble`, and a state that holds the bytes it keeps.
abbrev pub Delivers : List ℕ → Outcome (Option Message × MsgParser) → Type 0
Delivers bs out = (q : MsgParser) × (out ≡ ok ((assemble bs).1, q)) × Repr q (assemble bs).0

pub part_all : (n : ℕ) (c : List ℕ) → length c ≤ n → part n c ≡ length c
unfolding part
part_all n c h = ground arith

pub part_some : (n : ℕ) (c : List ℕ) → n ≤ length c → part n c ≡ n
unfolding part
part_some n c h = ground arith

-- A piece of `mem` of known length goes behind `front`.
pub memcpy_at-append :
    (front rest mem : List ℕ) (offset len : ℕ)
    → length front ≡ offset
    → len ≤ length mem
    → len ≤ length rest
    → offset < 2 ^ 31
    → len < 2 ^ 31
    → memcpy_at (front ++ rest) offset mem len ≡ ok (front ++ (take len mem ++ drop len rest))
unfolding memcpy_at
memcpy_at-append front rest mem offset len e h k o l =
    let size : length (take len mem) ≡ len = omega (arith, length-take len mem) in
    rw (
      lt→ltb offset (2 ^ 31) o,
      lt→ltb len (2 ^ 31) l,
      poke-append front (take len mem) rest offset e (omega arith),
      size,
    )

-- The state after a copy of `n` bytes of `mem` to the payload.
abbrev pub copied : MsgParser → Message → List ℕ → List ℕ → List ℕ → ℕ → MsgParser
copied p m got tail mem n = loaded_more p m got (take n mem) (drop n tail)

module _ (p : MsgParser) (m : Message) (hd got tail mem : List ℕ) (l : Loaded p m hd got tail) where
  copy_payload-Loaded :
      (n : ℕ)
      → part p.need mem ≡ n
      → n ≤ length mem
      → n ≤ length tail
      → copy_payload p mem (some m) ≡ ok (copied p m got tail mem n)
  unfolding copy_payload
  copy_payload-Loaded n e h k =
      let offset : sub32 m.head.length p.need ≡ length got =
        rw (l.head_eq, l.need_eq) (omega (arith, l.length_eq, l.modest)) in
      let left : sub32 p.need n ≡ length (drop n tail) =
        rw (l.need_eq) (omega (arith, l.length_eq, l.modest, length-drop n tail)) in
      rw (
        e,
        offset,
        left,
        l.payload_eq,
        memcpy_at-append got tail mem (length got) n refl h k (omega (arith, l.length_eq, l.modest))
            (omega (arith, l.length_eq, l.modest)),
      )

  read_body_step :
      (n : ℕ)
      → part p.need mem ≡ n
      → n ≤ length mem
      → n ≤ length tail
      → assemble (hd ++ (got ++ mem)) ≡ assemble (hd ++ (got ++ take n mem))
      → Delivers (hd ++ (got ++ mem)) (read_body p mem)
  unfolding read_body
  read_body_step n e h k same =
      let (q, r, s) = finish_lem _ _ hd (got ++ take n mem) (drop n tail) (
        loaded_more-Loaded hd got (take n mem) (drop n tail) tail l
          (omega (arith, length-take n mem, length-drop n tail))) in
      rw same (
        q,
        ap (λ o. o >>= λ q. ok (finish q))
              (ap (copy_payload p mem) l.holds ∙ copy_payload-Loaded n e h k)
            ∙ ap ok r,
        s,
      )

  -- Bytes for the payload, more or fewer than are wanted.
  pub read_body_lem : Delivers (hd ++ (got ++ mem)) (read_body p mem)
  read_body_lem = elim (Bool-cases (ltb (length mem) (length tail))) [
    | inl few ↦
        let h : length mem < length tail = ltb→lt _ _ few in
        read_body_step (length mem) (part_all p.need mem (omega (arith, l.need_eq))) (omega arith)
          (omega arith) (rw (take_all (length mem) mem (omega arith)) refl)
    | inr many ↦
        let h : length tail ≤ length mem = ltb-false→le _ _ many in
        read_body_step (length tail) (part_some p.need mem (omega (arith, l.need_eq)) ∙ l.need_eq) h
          (omega arith) (surplus h)
  ]
    where
      surplus :
          length tail ≤ length mem
          → assemble (hd ++ (got ++ mem)) ≡ assemble (hd ++ (got ++ take (length tail) mem))
      surplus h =
          ap (λ xs. assemble (hd ++ xs))
            (ap (◌++◌ got) (sym (take-append-drop (length tail) mem)) ∙ sym (append_assoc got _ _))
          ∙ assemble_surplus hd (got ++ take (length tail) mem) (drop (length tail) mem) l.head_size
              (omega (
                arith,
                l.length_eq,
                length-append got (take (length tail) mem),
                length-take (length tail) mem,
              ))
