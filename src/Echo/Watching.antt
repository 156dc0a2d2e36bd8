-- ===== src/Echo/Watching.antt =====
-- What the echo server watches, over any number of rounds.
use compile_service.Common.{
  Bool, ℕ, zero, suc, ◌+◌, ◌≤◌, ◌<◌, ◌≡◌, refl, ap, ◌∙◌, subst, true, false, List, [], ◌∷◌, ◌++◌,
  ◌-◌, ◌⊎◌, Option, none, some, ◌==◌, ==_iff, ==_refl, ltb, leb, lt→ltb, leb→le, if◌then◌else◌,
  length, length-replicate, replicate, drop, length-drop, All, Outcome, ok, ◌>>=◌, poke-append,
  arith, Bool-cases, inl, inr,
}
use compile_service.TcpServer.{fd_size, with_bit}
use compile_service.Echo.{
  Watch, ended, reply, client_handler, watch_client, after_client, Round, serve_one, serve_loop,
  serve, serve_start, echo_main,
}

-- Each watched descriptor is at most `max`, for which the sets have a bit, and the server's own is
-- still watched.
pub record IsWatching (server : ℕ) (st : Watch) : Type 0 where
  pub max_fits : st.max < fd_size
  pub bounded : (k : ℕ) → st.reads k ≡ true → k ≤ st.max
  pub listens : st.reads server ≡ true

-- The sets have a bit for a new client, and a read gives no more than it is asked for.
pub record IsRound (r : Round) : Type 0 where
  pub accepts : (c : ℕ) → r.accepted ≡ some c → c < fd_size
  pub short : (i : ℕ) (bytes : List ℕ) → r.answers i ≡ some bytes → length bytes < 32

-- The body of a loop over the descriptors runs, keeps what is watched, and never lowers `max`.
abbrev pub Keeps : ℕ → (ℕ → Watch → Outcome Watch) → Type 0
Keeps server body =
    (i : ℕ) (st : Watch)
    → i < fd_size
    → IsWatching server st
    → (st' : Watch) × (body i st ≡ ok st') × IsWatching server st'

pub serve_loop-step :
    (body : ℕ → Watch → Outcome Watch) (rounds i : ℕ) (st st' : Watch)
    → leb i st.max ≡ true
    → body i st ≡ ok st'
    → serve_loop body (suc rounds) i st ≡ serve_loop body rounds (suc i) st'
unfolding serve_loop
serve_loop-step body rounds i st st' e run = rw (e, run, serve_loop)

pub serve_loop_lem :
    (server : ℕ) (body : ℕ → Watch → Outcome Watch) (rounds i : ℕ) (st : Watch)
    → Keeps server body
    → fd_size + 1 ≤ rounds + i
    → IsWatching server st
    → i ≤ fd_size
    → (st' : Watch) × (serve_loop body rounds i st ≡ ok st') × IsWatching server st'
unfolding serve_loop
serve_loop_lem server body zero i st keeps fuel v h = absurd (omega arith)
serve_loop_lem server body (suc rounds) i st keeps fuel v h = elim (Bool-cases (leb i st.max)) [
  | inr e ↦ (st, rw (e, serve_loop), v)
  | inl e ↦
      let small : i < fd_size = omega (arith, leb→le i st.max e, v.max_fits) in
      let (st1, run, w) = keeps i st small v in
      let (st2, runs, u) =
        serve_loop_lem server body rounds (suc i) st1 keeps (omega arith) w (omega arith) in
      (st2, serve_loop-step body rounds i st st1 e run ∙ runs, u)
]

-- `buf[ret] = 0` behind a read of fewer bytes than the array has.
pub ended_lem :
    (size : ℕ) (bytes : List ℕ)
    → length bytes < size
    → (buf : List ℕ) × (ended size bytes ≡ ok (bytes ++ (0 ∷ buf)))
unfolding ended
ended_lem size bytes h =
    let zeros : List ℕ = replicate size 0 in
    let rest = drop (length bytes) zeros in
    let left : length rest ≡ length zeros - length bytes = length-drop (length bytes) zeros in
    let all : length zeros ≡ size = length-replicate size 0 in
    (
      drop 1 rest,
      rw (poke-append [] bytes zeros 0 refl (omega (arith, all)))
          (poke-append bytes (0 ∷ []) rest (length bytes) refl (omega (arith, left, all))),
    )

client_handler_runs :
    (answer : Option (List ℕ)) (write : List ℕ → Option ℕ)
    → ((bytes : List ℕ) → answer ≡ some bytes → length bytes < 32)
    → (out : Option ℕ × List (List ℕ)) × (client_handler answer write ≡ ok out)
unfolding client_handler
client_handler_runs none write h = ((none, []), refl)
client_handler_runs (some []) write h = ((some 0, []), refl)
client_handler_runs (some (b ∷ bytes)) write h =
    let (buf, e) = ended_lem 32 (b ∷ bytes) (h (b ∷ bytes) refl) in
    (reply write (b ∷ bytes) ((b ∷ bytes) ++ (0 ∷ buf)), rw e)

pub false≢true : false ≡ true → ⊥
false≢true e = cc

pub after_client-IsWatching :
    (server i : ℕ) (st : Watch) (out : Option ℕ × List (List ℕ))
    → (i == server) ≡ false
    → IsWatching server st
    → IsWatching server (after_client i out st)
unfolding after_client
after_client-IsWatching server i st (some r, out) e v = record {
  max_fits = v.max_fits;
  bounded = v.bounded;
  listens = v.listens;
}
after_client-IsWatching server i st (none, out) e v = record {
  max_fits = v.max_fits;
  bounded = λ k. kept k (Bool-cases (k == i));
  listens = rw other v.listens;
}
  where
    other : (server == i) ≡ false
    other = ground (arith, e)

    kept :
        (k : ℕ)
        → ((k == i) ≡ true) ⊎ ((k == i) ≡ false)
        → with_bit i false st.reads k ≡ true
        → k ≤ st.max
    kept k (inl g) b =
        absurd (false≢true (subst (λ x. (if x then false else st.reads k) ≡ true) g b))
    kept k (inr g) b = v.bounded k (subst (λ x. (if x then false else st.reads k) ≡ true) g b)

pub watch_client-IsWatching :
    (server : ℕ) (accepted : Option ℕ) (st : Watch)
    → ((c : ℕ) → accepted ≡ some c → c < fd_size)
    → IsWatching server st
    → (st' : Watch) × (watch_client accepted st ≡ ok st') × IsWatching server st'
unfolding watch_client
watch_client-IsWatching server none st fits v = (st, refl, v)
watch_client-IsWatching server (some c) st fits v =
    let small = fits c refl in
    (
      record st { reads = with_bit c true st.reads; max = if ltb st.max c then c else st.max },
      rw (lt→ltb c fd_size small),
      record {
        max_fits = ground (arith, v.max_fits);
        bounded = λ k. raised k (Bool-cases (k == c));
        listens = listening (Bool-cases (server == c));
      },
    )
  where
    raised :
        (k : ℕ)
        → ((k == c) ≡ true) ⊎ ((k == c) ≡ false)
        → with_bit c true st.reads k ≡ true
        → k ≤ (if ltb st.max c then c else st.max)
    raised k (inl g) b = ground (arith, (==_iff k c).0 g)
    raised k (inr g) b =
        let old = v.bounded k (subst (λ x. (if x then true else st.reads k) ≡ true) g b) in
        ground (arith, old)

    listening :
        ((server == c) ≡ true) ⊎ ((server == c) ≡ false) → with_bit c true st.reads server ≡ true
    listening (inl g) = rw g
    listening (inr g) = rw g v.listens

pub serve_one-Keeps : (server : ℕ) (r : Round) → IsRound r → Keeps server (serve_one server r)
unfolding serve_one
serve_one-Keeps server r ir i st h v = elim (Bool-cases (r.temps i)) [
  | inr t ↦ (st, rw (lt→ltb i fd_size h, t), v)
  | inl t ↦ elim (Bool-cases (i == server)) [
    | inl s ↦
        let (st', run, w) = watch_client-IsWatching server r.accepted st ir.accepts v in
        (st', rw (lt→ltb i fd_size h, t, s) run, w)
    | inr s ↦
        let (out, run) = client_handler_runs (r.answers i) (r.writes i) (ir.short i) in
        (
          after_client i out st,
          rw (lt→ltb i fd_size h, t, s, run),
          after_client-IsWatching server i st out s v,
        )
  ]
]

abbrev pub IsRounds : List (Option Round) → Type 0
IsRounds rounds = All (λ (o : Option Round). (r : Round) → o ≡ some r → IsRound r) rounds

serve_keeps :
    (server : ℕ) (rounds : List (Option Round)) (st : Watch)
    → IsRounds rounds
    → IsWatching server st
    → (st' : Watch) × (serve server rounds st ≡ ok st') × IsWatching server st'
unfolding serve
serve_keeps server [] st all v = (st, refl, v)
serve_keeps server (none ∷ rounds) st (_, all) v = serve_keeps server rounds st all v
serve_keeps server (some r ∷ rounds) st (ir, all) v =
    let (st1, run, w) =
      serve_loop_lem server (serve_one server r) (fd_size + 1) 1 st
        (serve_one-Keeps server r (ir r refl)) (omega arith) v (omega arith) in
    let (st2, runs, u) = serve_keeps server rounds st1 all w in
    (st2, ap (λ o. o >>= serve server rounds) run ∙ runs, u)

pub serve_start-IsWatching :
    (server : ℕ)
    → server < fd_size
    → (st : Watch) × (serve_start server ≡ ok st) × IsWatching server st
unfolding serve_start
serve_start-IsWatching server h = (
  record { reads = with_bit server true (λ k. false); max = server; sent = []; closed = [] },
  rw (lt→ltb server fd_size h),
  record { max_fits = h; bounded = λ k b. only k b; listens = rw (==_refl server) },
)
  where
    only : (k : ℕ) → with_bit server true (λ j. false) k ≡ true → k ≤ server
    only k b = ground (arith, b)

-- main() of the echo server on a socket that is bound and listens, over any number of rounds and
-- timeouts, whatever is ready in each round, when `accept` gives descriptors for which the sets have a
-- bit and no read gives more than it is asked for: the loop over the descriptors ends in each round,
-- although it raises its own bound; nothing outside the sets and the buffer is touched; and what is
-- watched afterwards is at most `max`, which stays below FD_SETSIZE, with the server's own descriptor
-- still among it.
pub serve_lem :
    (server : ℕ) (binds listens : ℕ → Bool) (rounds : List (Option Round))
    → server < fd_size
    → binds server ≡ true
    → listens server ≡ true
    → IsRounds rounds
    → (st : Watch) × (echo_main (some server) binds listens rounds ≡ ok (some st))
      × (st.max < fd_size)
      × ((k : ℕ) → st.reads k ≡ true → k ≤ st.max)
      × (st.reads server ≡ true)
unfolding echo_main
serve_lem server binds listens rounds h bound listening all =
    let (start, e, v) = serve_start-IsWatching server h in
    let (st, run, w) = serve_keeps server rounds start all v in
    (st, rw (bound, listening, e, run), w.max_fits, w.bounded, w.listens)
