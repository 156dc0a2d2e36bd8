-- ===== src/Echo/Oob.antt =====
-- basic_material/oobs/select-server.c: a server behind `select` that prints what its clients say, and
-- their urgent bytes. The printing is not modelled.
use compile_service.Common.{
  ℕ, ◌+◌, ◌≤◌, ◌<◌, ◌≡◌, refl, ap, ◌∙◌, Bool, true, not, ◌&&◌, List, [], ◌∷◌, Option, none, some,
  ◌==◌, ltb, lt→ltb, if◌then◌else◌, length, All, Outcome, ok, fault, ◌>>=◌, arith, Bool-cases, inl,
  inr,
}
use compile_service.TcpServer.{fd_size}
use compile_service.Echo.{Watch, ended, watch_client, after_client, serve_loop, serve_start, Round}
use compile_service.Echo.Watching.{
  IsWatching, IsRound, Keeps, serve_loop_lem, ended_lem, after_client-IsWatching,
  watch_client-IsWatching, serve_start-IsWatching,
}

-- What `recv` gives, into an array of `size` bytes, and the end behind it; the answer is `ret`.
unfoldable pub received : ℕ → Option (List ℕ) → Outcome (Option ℕ)
received size none = ok none
received size (some []) = ok (some 0)
received size (some (b ∷ bytes)) = ended size (b ∷ bytes) >>= λ buf. ok (some (length (b ∷ bytes)))

-- client_handler
unfoldable pub oob_client_handler : Option (List ℕ) → Outcome (Option ℕ)
unfolding received
oob_client_handler answer = received 32 answer

-- A round: what the echo server's says, the descriptors with an exceptional condition, and what a
-- `recv` of each with MSG_OOB gives.
pub record OobRound : Type 0 where
  pub round : Round
  pub except : ℕ → Bool
  pub urgent : ℕ → Option (List ℕ)

-- `recv(i, buf, sizeof(buf), MSG_OOB)` into the array of two bytes, for a client.
unfoldable pub urgent_one : ℕ → OobRound → ℕ → Outcome (Option ℕ)
unfolding received
urgent_one server r i = if r.except i && not (i == server) then received 2 (r.urgent i) else ok none

unfoldable pub oob_ready : ℕ → OobRound → ℕ → Watch → Outcome Watch
unfolding watch_client oob_client_handler after_client
oob_ready server r i st =
    if r.round.temps i
    then (if i == server
        then watch_client r.round.accepted st
        else (oob_client_handler (r.round.answers i) >>= λ ret. ok (after_client i (ret, []) st)))
    else ok st

-- The body of the loop over the descriptors.
unfoldable pub oob_one : ℕ → OobRound → ℕ → Watch → Outcome Watch
unfolding urgent_one oob_ready
oob_one server r i st =
    if ltb i fd_size then (urgent_one server r i >>= λ ret. oob_ready server r i st) else fault

-- The endless loop, as in the echo server, but from descriptor 0 on.
unfoldable pub oob_serve : ℕ → List (Option OobRound) → Watch → Outcome Watch
unfolding serve_loop oob_one
oob_serve server [] st = ok st
oob_serve server (none ∷ rounds) st = oob_serve server rounds st
oob_serve server (some r ∷ rounds) st =
    serve_loop (oob_one server r) (fd_size + 1) 0 st >>= λ st'. oob_serve server rounds st'

-- main(), as that of the echo server.
unfoldable pub oob_main :
    Option ℕ → (ℕ → Bool) → (ℕ → Bool) → List (Option OobRound) → Outcome (Option Watch)
unfolding oob_serve serve_start
oob_main none binds listens rounds = ok none
oob_main (some fd) binds listens rounds =
    let run = serve_start fd >>= λ st. oob_serve fd rounds st >>= λ st'. ok (some st') in
    if binds fd then (if listens fd then run else ok none) else ok none

-- As in the echo server; and no `recv` gives more than one urgent byte.
pub record IsOobRound (r : OobRound) : Type 0 where
  pub plain : IsRound r.round
  pub single : (i : ℕ) (bytes : List ℕ) → r.urgent i ≡ some bytes → length bytes < 2

received_lem :
    (size : ℕ) (answer : Option (List ℕ))
    → ((bytes : List ℕ) → answer ≡ some bytes → length bytes < size)
    → (ret : Option ℕ) × (received size answer ≡ ok ret)
unfolding received
received_lem size none h = (none, refl)
received_lem size (some []) h = (some 0, refl)
received_lem size (some (b ∷ bytes)) h =
    let (buf, e) = ended_lem size (b ∷ bytes) (h (b ∷ bytes) refl) in
    (some (length (b ∷ bytes)), rw e)

urgent_one_lem :
    (server : ℕ) (r : OobRound) (i : ℕ)
    → IsOobRound r
    → (ret : Option ℕ) × (urgent_one server r i ≡ ok ret)
unfolding urgent_one
urgent_one_lem server r i v = elim (Bool-cases (r.except i && not (i == server))) [
  | inl e ↦ let (ret, run) = received_lem 2 (r.urgent i) (v.single i) in (ret, rw e run)
  | inr e ↦ (none, rw e)
]

oob_ready_lem :
    (server : ℕ) (r : OobRound) (i : ℕ) (st : Watch)
    → IsOobRound r
    → IsWatching server st
    → (st' : Watch) × (oob_ready server r i st ≡ ok st') × IsWatching server st'
unfolding oob_ready oob_client_handler
oob_ready_lem server r i st ir v = elim (Bool-cases (r.round.temps i)) [
  | inr t ↦ (st, rw t, v)
  | inl t ↦ elim (Bool-cases (i == server)) [
    | inl s ↦
        let (st', run, w) = watch_client-IsWatching server r.round.accepted st ir.plain.accepts v in
        (st', rw (t, s) run, w)
    | inr s ↦
        let (ret, run) = received_lem 32 (r.round.answers i) (ir.plain.short i) in
        (
          after_client i (ret, []) st,
          rw (t, s, run),
          after_client-IsWatching server i st (ret, []) s v,
        )
  ]
]

oob_one-Keeps : (server : ℕ) (r : OobRound) → IsOobRound r → Keeps server (oob_one server r)
unfolding oob_one
oob_one-Keeps server r ir i st h v =
    let (ret, run) = urgent_one_lem server r i ir in
    let (st', runs, w) = oob_ready_lem server r i st ir v in
    (st', rw (lt→ltb i fd_size h, run) runs, w)

oob_serve_keeps :
    (server : ℕ) (rounds : List (Option OobRound)) (st : Watch)
    → All (λ (o : Option OobRound). (r : OobRound) → o ≡ some r → IsOobRound r) rounds
    → IsWatching server st
    → (st' : Watch) × (oob_serve server rounds st ≡ ok st') × IsWatching server st'
unfolding oob_serve
oob_serve_keeps server [] st all v = (st, refl, v)
oob_serve_keeps server (none ∷ rounds) st (_, all) v = oob_serve_keeps server rounds st all v
oob_serve_keeps server (some r ∷ rounds) st (ir, all) v =
    let (st1, run, w) =
      serve_loop_lem server (oob_one server r) (fd_size + 1) 0 st
        (oob_one-Keeps server r (ir r refl)) (omega arith) v (omega arith) in
    let (st2, runs, u) = oob_serve_keeps server rounds st1 all w in
    (st2, ap (λ o. o >>= oob_serve server rounds) run ∙ runs, u)

-- The server for urgent data, from its start, on any number of rounds and timeouts: as for the echo
-- server, where no `recv` of urgent data gives two bytes, for which `buf[2]` would have no room.
pub oob_serve_lem :
    (server : ℕ) (rounds : List (Option OobRound))
    → server < fd_size
    → All (λ (o : Option OobRound). (r : OobRound) → o ≡ some r → IsOobRound r) rounds
    → (st : Watch) × ((serve_start server >>= oob_serve server rounds) ≡ ok st)
      × (st.max < fd_size)
      × ((k : ℕ) → st.reads k ≡ true → k ≤ st.max)
      × (st.reads server ≡ true)
oob_serve_lem server rounds h all =
    let (start, e, v) = serve_start-IsWatching server h in
    let (st, run, w) = oob_serve_keeps server rounds start all v in
    (st, ap (λ o. o >>= oob_serve server rounds) e ∙ run, w.max_fits, w.bounded, w.listens)
