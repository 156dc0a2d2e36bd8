-- ===== src/Echo/Lines.antt =====
-- What the echo server answers to a client, and what it does when a client has gone.
use compile_service.Common.{
  take, ℕ, zero, suc, ◌+◌, ◌≤◌, ◌<◌, ◌≡◌, ◌≢◌, refl, sym, ap, ◌∙◌, Bool, true, false, List, [], ◌∷◌,
  ◌++◌, Option, none, some, ◌==◌, ==_refl, leb, lt→ltb, if◌then◌else◌, length, ok, ◌-◌, inl, inr,
  Bool-cases, leb→le, le→leb, lt→==-false, lt→==-false_left, subst, replicate, ◌>>=◌, arith,
}
use compile_service.Text.{codes}
use compile_service.Response.Paths.{str_eq}
use compile_service.TcpServer.{fd_size, with_bit}
use compile_service.Echo.{
  Watch, string_of, reply, client_handler, after_client, Round, serve_one, serve_loop, serve,
}
use compile_service.Echo.Watching.{ended_lem, serve_loop-step}

-- The string at the start of the bytes does not see what stands behind its end.
string_of-append : (bytes rest : List ℕ) → string_of (bytes ++ (0 ∷ rest)) ≡ string_of bytes
unfolding string_of
string_of-append [] rest = refl
string_of-append (b ∷ bytes) rest = rw (string_of-append bytes rest)

-- client_handler on what one read gives.
client_handler_lem :
    (bytes : List ℕ) (write : List ℕ → Option ℕ)
    → bytes ≢ []
    → length bytes < 32
    → client_handler (some bytes) write
      ≡ ok (
          if str_eq (string_of bytes) (codes "quit") then (none, []) else (write bytes, bytes ∷ []))
unfolding client_handler reply
client_handler_lem [] write n h = absurd (n refl)
client_handler_lem (b ∷ bytes) write n h =
    let (buf, e) = ended_lem 32 (b ∷ bytes) h in rw (e, string_of-append (b ∷ bytes) buf)

-- Only the client `j` is ready, which the loop over the descriptors comes to.
pub record IsAlone (server j : ℕ) (r : Round) (st : Watch) : Type 0 where
  pub ready : (k : ℕ) → r.temps k ≡ (k == j)
  pub client : (j == server) ≡ false
  pub above : 1 ≤ j
  pub below : j ≤ st.max
  pub max_fits : st.max < fd_size

not_ready :
    (server j k : ℕ) (r : Round) (st : Watch)
    → r.temps k ≡ (k == j)
    → (k == j) ≡ false
    → k < fd_size
    → serve_one server r k st ≡ ok st
unfolding serve_one
not_ready server j k r st e n h = rw (lt→ltb k fd_size h, e, n)

-- Behind the client, nothing happens.
rest_of_loop :
    (server j k rounds : ℕ) (r : Round) (st : Watch)
    → ((k : ℕ) → r.temps k ≡ (k == j))
    → j < k
    → k ≤ fd_size
    → st.max < fd_size
    → fd_size + 1 ≤ rounds + k
    → serve_loop (serve_one server r) rounds k st ≡ ok st
unfolding serve_loop
rest_of_loop server j k zero r st ready h small fits fuel = absurd (omega arith)
rest_of_loop server j k (suc rounds) r st ready h small fits fuel =
    elim (Bool-cases (leb k st.max)) [
      | inr e ↦ rw (e, serve_loop)
      | inl e ↦
          let le = leb→le k st.max e in
          serve_loop-step (serve_one server r) rounds k st st e
            (not_ready server j k r st (ready k) (lt→==-false k j h) (omega arith))
          ∙ rest_of_loop server j (suc k) rounds r st ready (omega arith) (omega arith) fits
              (omega arith)
    ]

-- Up to the client, nothing happens either.
loop_alone :
    (server j n k rounds : ℕ) (r : Round) (st st' : Watch)
    → IsAlone server j r st
    → k + n ≡ j
    → fd_size + 1 ≤ rounds + k
    → serve_one server r j st ≡ ok st'
    → st'.max ≡ st.max
    → serve_loop (serve_one server r) rounds k st ≡ ok st'
loop_alone server j n k zero r st st' v e fuel run same =
    absurd (omega (arith, v.below, v.max_fits))
loop_alone server j zero k (suc rounds) r st st' v e fuel run same =
    let here : k ≡ j = omega arith in
    serve_loop-step (serve_one server r) rounds k st st' (le→leb k st.max (omega (arith, v.below)))
      (subst (λ i. serve_one server r i st ≡ ok st') (sym here) run)
    ∙ rest_of_loop server j (suc k) rounds r st' v.ready (omega arith)
        (omega (arith, v.below, v.max_fits)) (omega (arith, same, v.max_fits)) (omega arith)
loop_alone server j (suc n) k (suc rounds) r st st' v e fuel run same =
    serve_loop-step (serve_one server r) rounds k st st (le→leb k st.max (omega (arith, v.below))) (
      not_ready server j k r st (v.ready k) (lt→==-false_left k j (omega arith))
        (omega (arith, v.below, v.max_fits)))
    ∙ loop_alone server j n (suc k) rounds r st st' v (omega arith) (omega arith) run same

serve-alone :
    (server j : ℕ) (r : Round) (st st' : Watch) (rounds : List (Option Round))
    → IsAlone server j r st
    → serve_one server r j st ≡ ok st'
    → st'.max ≡ st.max
    → serve server (some r ∷ rounds) st ≡ serve server rounds st'
unfolding serve
serve-alone server j r st st' rounds v run same =
    ap (λ o. o >>= serve server rounds)
      (loop_alone server j (j - 1) 1 (fd_size + 1) r st st' v (omega (arith, v.above)) (omega arith)
        run same)

serve-nil : (server : ℕ) (st : Watch) → serve server [] st ≡ ok st
unfolding serve
serve-nil server st = refl

one_client :
    (server j : ℕ) (r : Round) (st : Watch) (out : Option ℕ × List (List ℕ))
    → IsAlone server j r st
    → client_handler (r.answers j) (r.writes j) ≡ ok out
    → serve_one server r j st ≡ ok (after_client j out st)
unfolding serve_one
one_client server j r st out v run =
    rw (lt→ltb j fd_size (omega (arith, v.below, v.max_fits)), v.ready j, ==_refl j, v.client, run)

abbrev pub closed_client : ℕ → Watch → Watch
closed_client j st = record st { reads = with_bit j false st.reads; closed = j ∷ st.closed }

-- What is left when `write` has answered.
abbrev pub echoed : ℕ → List ℕ → Option ℕ → Watch → Watch
echoed j bytes none st = closed_client j st
echoed j bytes (some n) st = record st { sent = (j, take n bytes) ∷ st.sent }

-- A round of the echo server in which one client is ready, with 1 to 31 bytes. If the bytes before
-- the first zero are exactly "quit", the client is closed and watched no longer, nothing is sent, and
-- nothing else changes. Otherwise all the bytes are given to `write` for that client, those behind a
-- zero included, and as many of them as it answers are sent, and nothing else changes; if `write`
-- fails then none are, and the client is closed and watched no longer.
pub serve-echo :
    (server j : ℕ) (r : Round) (st : Watch) (bytes : List ℕ)
    → IsAlone server j r st
    → r.answers j ≡ some bytes
    → bytes ≢ []
    → length bytes < 32
    → serve server (some r ∷ []) st
      ≡ ok (
          if str_eq (string_of bytes) (codes "quit")
          then closed_client j st
          else echoed j bytes (r.writes j bytes) st)
unfolding after_client
serve-echo server j r st bytes v e n h =
    elim (Bool-cases (str_eq (string_of bytes) (codes "quit"))) [
      | inl q ↦ after (none, []) (if_quit true q) refl ∙ ap (λ b. ok (outcome b)) (sym q)
      | inr q ↦ written (r.writes j bytes) refl q ∙ ap (λ b. ok (outcome b)) (sym q)
    ]
  where
    if_quit :
        (b : Bool)
        → str_eq (string_of bytes) (codes "quit") ≡ b
        → client_handler (r.answers j) (r.writes j)
          ≡ ok (if b then (none, []) else (r.writes j bytes, bytes ∷ []))
    if_quit b q =
        ap (λ a. client_handler a (r.writes j)) e
        ∙ client_handler_lem bytes (r.writes j) n h
        ∙ ap (λ (x : Bool). ok (if x then (none, []) else (r.writes j bytes, bytes ∷ []))) q

    after :
        (out : Option ℕ × List (List ℕ))
        → client_handler (r.answers j) (r.writes j) ≡ ok out
        → (after_client j out st).max ≡ st.max
        → serve server (some r ∷ []) st ≡ ok (after_client j out st)
    after out run same =
        serve-alone server j r st (after_client j out st) [] v (one_client server j r st out v run)
          same
        ∙ serve-nil server (after_client j out st)

    outcome : Bool → Watch
    outcome b = if b then closed_client j st else echoed j bytes (r.writes j bytes) st

    written :
        (w : Option ℕ)
        → r.writes j bytes ≡ w
        → str_eq (string_of bytes) (codes "quit") ≡ false
        → serve server (some r ∷ []) st ≡ ok (echoed j bytes (r.writes j bytes) st)
    written none f q =
        after (none, bytes ∷ []) (if_quit false q ∙ ap (λ x. ok (x, bytes ∷ [])) f) refl
        ∙ ap (λ w. ok (echoed j bytes w st)) (sym f)
    written (some k) f q =
        after (some k, bytes ∷ []) (if_quit false q ∙ ap (λ x. ok (x, bytes ∷ [])) f) refl
        ∙ ap (λ w. ok (echoed j bytes w st)) (sym f)

-- Any number of rounds of the echo server in which one client is ready, at the end of its stream,
-- change nothing: the answer 0 of client_handler is no reason to close the client, so that it is
-- watched as before.
pub serve-eof :
    (server j rounds : ℕ) (r : Round) (st : Watch)
    → IsAlone server j r st
    → r.answers j ≡ some []
    → serve server (replicate rounds (some r)) st ≡ ok st
unfolding client_handler after_client
serve-eof server j zero r st v e = serve-nil server st
serve-eof server j (suc rounds) r st v e =
    serve-alone server j r st st (replicate rounds (some r)) v
      (one_client server j r st (some 0, []) v (ended_stream (r.answers j) e)) refl
    ∙ serve-eof server j rounds r st v e
  where
    ended_stream :
        (answer : Option (List ℕ))
        → answer ≡ some []
        → client_handler answer (r.writes j) ≡ ok (some 0, [])
    ended_stream answer q = rw q
