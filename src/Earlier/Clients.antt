-- ===== src/Earlier/Clients.antt =====
-- basic_material/message1/server.c: one parser for all clients of a server. The MParser_ReadFd that it
-- calls is, but for the spelling, the present one.
use compile_service.Common.{
  ℕ, zero, suc, ◌<◌, ◌≡◌, sym, ap, ◌∙◌, subst, List, [], ◌∷◌, ◌++◌, Option, none, some, length,
  length-append, Bool, if◌then◌else◌, append_assoc, append-nil, Malloc, Outcome, ok, ◌>>=◌, arith,
  inl, inr,
}
use compile_service.Message.{Message}
use compile_service.Reader.{Reader, IsSteady}
use compile_service.MsgParser.{MsgParser}
use compile_service.MsgParser.Spec.{Repr, IsModest, assemble}
use compile_service.MsgParser.Assemble.{frame_size_least}
use compile_service.MsgParser.Progress.{Grants}
use compile_service.MsgParser.Pieces.{
  IsMessage, wire, cons_some, assemble-wire, assemble_prefix, prefix-IsModest,
}
use compile_service.MsgParser.Descriptor.{mparser_read_fd}
use compile_service.MsgParser.Descriptor.Refines.{mparser_read_fd_full}
use compile_service.MsgParser.Descriptor.Whole.{frame_size-wire, taken-wire, stream-IsModest}

module _ (reader : Reader) (malloc : Malloc) where
  open reader use {World, pending}

  -- The loop for a client, which calls once more than the connection is found established. The
  -- answer is the messages that are printed, and the parser.
  unfoldable pub client_loop :
      ℕ → Option MsgParser → Option World → Outcome (List Message × Option MsgParser)
  client_loop zero p w = mparser_read_fd reader malloc p w >>= λ (m, q, w'). ok (cons_some m [], q)
  client_loop (suc n) p w = mparser_read_fd reader malloc p w >>= λ (m, q, w').
      client_loop n q w' >>= λ (ms, r). ok (cons_some m ms, r)

  -- The loop over the clients that `accept` gives, each with the rounds in which it is established.
  unfoldable pub clients_loop :
      List (World × ℕ) → Option MsgParser → Outcome (List Message × Option MsgParser)
  unfolding client_loop
  clients_loop [] p = ok ([], p)
  clients_loop ((w, n) ∷ clients) p = client_loop n p (some w) >>= λ (ms, q).
      clients_loop clients q >>= λ (later, r). ok (ms ++ later, r)

  -- main(): `parser` is the answer of MParser_New; whether `socket`, `bind` and `listen` succeed, and
  -- the messages that are printed until `accept` fails.
  unfoldable pub clients_main :
      Option MsgParser
      → Option ℕ
      → (ℕ → Bool)
      → (ℕ → Bool)
      → List (World × ℕ)
      → Outcome (Option (List Message))
  unfolding clients_loop
  clients_main parser none binds listens clients = ok none
  clients_main parser (some fd) binds listens clients =
      let run = clients_loop clients parser >>= λ r. ok (some r.0) in
      if binds fd then (if listens fd then run else ok none) else ok none

  module _ (steady : IsSteady reader) (grants : Grants malloc) (m : Message) (v : IsMessage m) where
    -- A client with less than a message.
    partial_read :
        (bs a b : List ℕ) (p : MsgParser) (w : World)
        → a ++ b ≡ wire m
        → 0 < length b
        → bs ++ pending w ≡ a
        → Repr p bs
        → (q : MsgParser) × (w' : World) × (mparser_read_fd reader malloc (some p) (some w)
            ≡ ok (none, some q, some w'))
          × (pending w' ≡ [])
          × Repr q a
    partial_read bs a b p w e pos held idle =
        let modest : IsModest (bs ++ pending w) =
          subst IsModest (sym held) (prefix-IsModest m v a b e) in
        let (new, q, w', run, split, le, r, settles) =
          mparser_read_fd_full reader malloc w p bs grants idle modest in
        let all = bs ++ new in
        let parts : all ++ pending w' ≡ a =
          append_assoc bs new (pending w') ∙ ap (λ xs. bs ++ xs) (sym split) ∙ held in
        let chain : all ++ (pending w' ++ b) ≡ wire m =
          sym (append_assoc all (pending w') b) ∙ ap (λ xs. xs ++ b) parts ∙ e in
        let n = length-append all (pending w' ++ b) in
        let k = length-append (pending w') b in
        let none_left : pending w' ≡ [] = elim (settles steady) [
          | inr nothing ↦ nothing
          | inl whole ↦
              let frame =
                frame_size-wire m v all (pending w' ++ b) [] (chain ∙ sym (append-nil (wire m)))
                  (omega (arith, frame_size_least all, whole)) in
              absurd (omega (arith, frame, whole, ap length chain, n, k, pos))
        ] in
        let kept : assemble all ≡ (all, none) =
          assemble_prefix m v all (pending w' ++ b) chain (omega (arith, k, pos)) in
        let same : all ≡ a = sym (append-nil all) ∙ ap (λ xs. all ++ xs) (sym none_left) ∙ parts in
        (
          q,
          w',
          run ∙ ap (λ (x : List ℕ × Option Message). ok (x.1, some q, some w')) kept,
          none_left,
          subst (Repr q) same (subst (λ (x : List ℕ × Option Message). Repr q x.0) kept r),
        )

    partial_client :
        (n : ℕ) (bs a b : List ℕ) (p : MsgParser) (w : World)
        → a ++ b ≡ wire m
        → 0 < length b
        → bs ++ pending w ≡ a
        → Repr p bs
        → (q : MsgParser) × (client_loop n (some p) (some w) ≡ ok ([], some q)) × Repr q a
    unfolding client_loop
    partial_client zero bs a b p w e pos held idle =
        let (q, w', run, none_left, r) = partial_read bs a b p w e pos held idle in (q, rw run, r)
    partial_client (suc n) bs a b p w e pos held idle =
        let (q, w', run, none_left, r) = partial_read bs a b p w e pos held idle in
        let (q', runs, r') =
          partial_client n a a b q w' e pos (ap (λ xs. a ++ xs) none_left ∙ append-nil a) r in
        (q', rw (run, runs), r')

    rest_read :
        (a b rest : List ℕ) (p : MsgParser) (w : World)
        → a ++ b ≡ wire m
        → pending w ≡ b ++ rest
        → Repr p a
        → (q : MsgParser) × (w' : World) × (mparser_read_fd reader malloc (some p) (some w)
            ≡ ok (some m, some q, some w'))
          × Repr q []
    rest_read a b rest p w e waits held =
        let stream : a ++ pending w ≡ wire m ++ rest =
          ap (λ xs. a ++ xs) waits ∙ sym (append_assoc a b rest) ∙ ap (λ xs. xs ++ rest) e in
        let (new, q, w', run, split, le, r, settles) =
          mparser_read_fd_full reader malloc w p a grants held
            (subst IsModest (sym stream) (stream-IsModest m v rest)) in
        let chain : (a ++ new) ++ pending w' ≡ wire m ++ rest =
          append_assoc a new (pending w') ∙ ap (λ xs. a ++ xs) (sym split) ∙ stream in
        let taken = taken-wire m v (a ++ new) (pending w') rest chain le (settles steady) in
        let done : assemble (a ++ new) ≡ ([], some m) =
          ap assemble (taken.0 ∙ sym (append-nil (wire m))) ∙ assemble-wire m [] v in
        (
          q,
          w',
          run ∙ ap (λ (x : List ℕ × Option Message). ok (x.1, some q, some w')) done,
          subst (λ (x : List ℕ × Option Message). Repr q x.0) done r,
        )

    -- The server of message1 with a fresh parser: a first client leaves after the start of a message,
    -- in however many rounds, and the next one sends the bytes that complete it, and maybe others. The
    -- server prints one message, made of both, which neither client has sent. No read fails, the
    -- message has what its header says, and the allocator has the block.
    pub clients_loop-mixed :
        (n : ℕ) (a b rest : List ℕ) (p : MsgParser) (w1 w2 : World)
        → a ++ b ≡ wire m
        → 0 < length b
        → pending w1 ≡ a
        → pending w2 ≡ b ++ rest
        → Repr p []
        → (q : MsgParser) × (clients_loop ((w1, n) ∷ (w2, 0) ∷ []) (some p) ≡ ok (m ∷ [], some q))
          × Repr q []
    unfolding clients_loop client_loop
    clients_loop-mixed n a b rest p w1 w2 e pos first second idle =
        let (q, run, r) = partial_client n [] a b p w1 e pos first idle in
        let (q', w', runs, r') = rest_read a b rest q w2 e second r in (q', rw (run, runs), r')
