-- ===== src/Echo/Datagrams.antt =====
-- basic_material/udp_server.c: a server that sends each datagram back; basic_material/mul_rx.c: a loop
-- that prints what comes. The calls of the system are parameters; `none` is the answer -1.
use compile_service.Common.{
  ℕ, ◌+◌, ◌≤◌, ◌<◌, ◌≡◌, refl, ap, ◌∙◌, Bool, true, false, List, [], ◌∷◌, ◌++◌, Option, none, some,
  leb, ltb, ltb→lt, ltb-false→le, if◌then◌else◌, length, length-append, drop, replicate, Outcome,
  ok, fault, ◌>>=◌, poke, poke-append, length-drop, arith, Bool-cases, inl, inr,
}
use compile_service.UdpPoint.{Peer}

-- `buf[r] = 0` behind a receive into `buf`, which the bytes have to fit.
unfoldable pub marked : List ℕ → List ℕ → Outcome (List ℕ)
marked buf bytes = poke buf 0 bytes >>= λ buf'. poke buf' (length bytes) (0 ∷ [])

-- The loop of udp_server.c, on what `recvfrom` gives as long as it does: what is sent to whom. After an
-- answer of -1, `buf[r]` lies before the array.
unfoldable pub udp_serve : List (Option (List ℕ × Peer)) → List ℕ → Outcome (List (List ℕ × Peer))
unfolding marked
udp_serve [] buf = ok []
udp_serve (none ∷ received) buf = fault
udp_serve (some (bytes, peer) ∷ received) buf =
    marked buf bytes >>= λ buf'. udp_serve received buf' >>= λ sent. ok ((bytes, peer) ∷ sent)

-- main() of udp_server.c: whether `socket` and `bind` succeed, and what is sent.
unfoldable pub udp_main :
    Option ℕ → (ℕ → Bool) → List (Option (List ℕ × Peer)) → Outcome (Option (List (List ℕ × Peer)))
unfolding udp_serve
udp_main none binds received = ok none
udp_main (some fd) binds received =
    let serve = udp_serve received (replicate 32 0) in
    if binds fd then (serve >>= λ sent. ok (some sent)) else ok none

-- The loop of mul_rx.c: the bytes that are printed, up to the first answer that is not positive.
unfoldable pub mul_rx : List (Option (List ℕ)) → List ℕ → Outcome (List (List ℕ))
unfolding marked
mul_rx [] buf = ok []
mul_rx (none ∷ received) buf = ok []
mul_rx (some [] ∷ received) buf = ok []
mul_rx (some (b ∷ bytes) ∷ received) buf = marked buf (b ∷ bytes) >>= λ buf'.
    mul_rx received buf' >>= λ printed. ok ((b ∷ bytes) ∷ printed)

-- main() of mul_rx.c: whether `socket` and `bind` succeed, and what is printed; whether the membership
-- of the group is granted is not looked at.
unfoldable pub mul_rx_main :
    Option ℕ → (ℕ → Bool) → List (Option (List ℕ)) → Outcome (Option (List (List ℕ)))
unfolding mul_rx
mul_rx_main none binds received = ok none
mul_rx_main (some fd) binds received =
    let run = mul_rx received (replicate 128 0) in
    if binds fd then (run >>= λ printed. ok (some printed)) else ok none

marked-short :
    (buf bytes : List ℕ)
    → length bytes < length buf
    → (buf' : List ℕ) × (marked buf bytes ≡ ok buf') × (length buf' ≡ length buf)
unfolding marked
marked-short buf bytes h =
    let rest = drop (length bytes) buf in
    let left = length-drop (length bytes) buf in
    let end = drop 1 rest in
    (
      bytes ++ (0 ∷ end),
      rw (poke-append [] bytes buf 0 refl (omega arith))
          (poke-append bytes (0 ∷ []) rest (length bytes) refl (omega (arith, left))),
      omega (arith, length-append bytes (0 ∷ end), length-drop 1 rest, left),
    )

marked-long : (buf bytes : List ℕ) → length buf ≤ length bytes → marked buf bytes ≡ fault
unfolding marked poke
marked-long buf bytes h = elim (Bool-cases (leb (0 + length bytes) (length buf))) [
  | inr e ↦ rw e
  | inl e ↦
      let copied = bytes ++ drop (0 + length bytes) buf in
      let size : length copied ≡ length bytes = omega (
        arith,
        length-append bytes (drop (0 + length bytes) buf),
        length-drop (0 + length bytes) buf,
      ) in
      let full : leb (length bytes + 1) (length copied) ≡ false =
        over (length bytes + 1) (length copied) (omega (arith, size)) in
      rw (e, full)
]
  where
    over : (a b : ℕ) → b < a → leb a b ≡ false
    over a b h = ground arith

-- Each answer is a datagram that leaves room for the end.
abbrev pub all_short : ℕ → List (Option (List ℕ × Peer)) → Bool
all_short size [] = true
all_short size (none ∷ received) = false
all_short size (some (bytes, peer) ∷ received) =
    let later = all_short size received in if ltb (length bytes) size then later else false

abbrev pub datagrams : List (Option (List ℕ × Peer)) → List (List ℕ × Peer)
datagrams [] = []
datagrams (none ∷ received) = []
datagrams (some d ∷ received) = d ∷ datagrams received

-- The server of datagrams: if no receive fails and each datagram has fewer bytes than the array, each
-- one goes back to its sender, in order and unchanged; and else the code writes outside the array.
pub udp_serve_lem :
    (received : List (Option (List ℕ × Peer))) (buf : List ℕ)
    → udp_serve received buf
      ≡ (if all_short (length buf) received then ok (datagrams received) else fault)
unfolding udp_serve
udp_serve_lem [] buf = refl
udp_serve_lem (none ∷ received) buf = refl
udp_serve_lem (some (bytes, peer) ∷ received) buf =
    elim (Bool-cases (ltb (length bytes) (length buf))) [
      | inl s ↦
          let (buf', run, size) = marked-short buf bytes (ltb→lt (length bytes) (length buf) s) in
          let later =
            udp_serve_lem received buf'
            ∙ ap (λ n. if all_short n received then ok (datagrams received) else fault) size in
          rw (run, later, s) (one_more (all_short (length buf) received))
      | inr l ↦ rw (marked-long buf bytes (ltb-false→le (length bytes) (length buf) l), l)
    ]
  where
    one_more :
        (b : Bool)
        → ((if b then ok (datagrams received) else fault) >>= λ sent. ok ((bytes, peer) ∷ sent))
          ≡ (if b then ok ((bytes, peer) ∷ datagrams received) else fault)
    one_more true = refl
    one_more false = refl
