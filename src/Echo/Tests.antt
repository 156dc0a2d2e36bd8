-- ===== src/Echo/Tests.antt =====
-- An echo server with one client at concrete inputs.
use compile_service.Common.{
  length-replicate, All, ◌++◌, if◌then◌else◌, ℕ, ◌≤◌, ◌<◌, ◌≡◌, refl, true, List, [], ◌∷◌, Option,
  none, some, ◌==◌, replicate, length, ok, fault, arith, poke, ◌||◌, subst,
}
use compile_service.Text.{codes}
use compile_service.Response.Paths.{str_eq}
use compile_service.UdpPoint.{Peer}
use compile_service.Echo.Single.{session, text_of, with_end, IsText, session-strings}
use compile_service.Echo.Datagrams.{udp_serve, all_short, datagrams, udp_serve_lem}
use compile_service.TcpServer.{fd_size}
use compile_service.Echo.{echo_main, Watch, string_of, ended, Round, serve}
use compile_service.Echo.Watching.{IsRound, serve_lem}
use compile_service.Echo.Lines.{IsAlone, closed_client, echoed, serve-echo, serve-eof}

-- A client that says something, and then one that has gone.
abbrev says : Option (List ℕ) → ℕ → Round
says answer ready = record {
  temps = λ k. k == ready;
  accepted = some 5;
  answers = λ i. answer;
  writes = λ i bytes. some (length bytes);
}

abbrev state : Watch
state = record { reads = λ k. (k == 3) || (k == 5); max = 5; sent = []; closed = [] }

state-IsAlone : (answer : Option (List ℕ)) → IsAlone 3 5 (says answer 5) state
state-IsAlone answer = record {
  ready = λ k. refl;
  client = refl;
  above = omega arith;
  below = omega arith;
  max_fits = omega arith;
}

no_data : (ready : ℕ) → IsRound (says (some []) ready)
no_data ready = record { accepts = λ c e. fits c e; short = λ i bytes e. empty bytes e }
  where
    fits : (c : ℕ) → some 5 ≡ some c → c < fd_size
    fits c e = let five : 5 ≡ c = cc in omega (arith, five)

    empty : (bytes : List ℕ) → some [] ≡ some bytes → length bytes < 32
    empty [] e = omega arith
    empty (b ∷ bytes) e = cc

some_injective : {x y : Round} → some x ≡ some y → x ≡ y
some_injective e = cc

serve_lem_example :
    (st : Watch) × (echo_main
        (some 3)
        (λ fd. true)
        (λ fd. true)
        (some (says (some []) 3) ∷ none ∷ some (says (some []) 5) ∷ [])
      ≡ ok (some st))
    × (st.max < fd_size)
    × ((k : ℕ) → st.reads k ≡ true → k ≤ st.max)
    × (st.reads 3 ≡ true)
serve_lem_example =
    serve_lem 3 (λ fd. true) (λ fd. true)
      (some (says (some []) 3) ∷ none ∷ some (says (some []) 5) ∷ []) (omega arith) refl refl
      ((λ r e. given 3 r e), ((λ r e. cc), ((λ r e. given 5 r e), tt)))
  where
    given : (ready : ℕ) (r : Round) → some (says (some []) ready) ≡ some r → IsRound r
    given ready r e = subst IsRound (some_injective e) (no_data ready)

serve-echo_example :
    serve 3 (some (says (some (codes "hello")) 5) ∷ []) state
    ≡ ok (
        if str_eq (string_of (codes "hello")) (codes "quit")
        then closed_client 5 state
        else echoed 5 (codes "hello") (some 5) state)
serve-echo_example =
    serve-echo 3 5 (says (some (codes "hello")) 5) state (codes "hello")
      (state-IsAlone (some (codes "hello"))) refl (λ e. cc) (omega arith)

serve-eof_example : serve 3 (replicate 4 (some (says (some []) 5))) state ≡ ok state
serve-eof_example = serve-eof 3 5 4 (says (some []) 5) state (state-IsAlone (some [])) refl

-- Two urgent bytes leave no room for the end in an array of two.
two_urgent : ended 2 (1 ∷ 2 ∷ []) ≡ fault
unfolding ended poke
two_urgent = refl

session-strings_example :
    (buf' : List ℕ) × (session
        (some (with_end (codes "hello")) ∷ some (with_end (codes "quit")) ∷ [])
        (replicate 32 1)
      ≡ ok (with_end (codes "hello") ∷ [], buf'))
    × (length buf' ≡ 32)
unfolding str_eq
session-strings_example =
    session-strings (codes "hello" ∷ codes "quit" ∷ []) (replicate 32 1)
      (length-replicate {A = ℕ} 32 1) (texts)
  where
    texts : All IsText (codes "hello" ∷ codes "quit" ∷ [])
    texts = (
      record { plain = (refl, (refl, (refl, (refl, (refl, tt))))); short = omega arith },
      (record { plain = (refl, (refl, (refl, (refl, tt)))); short = omega arith }, tt),
    )

abbrev peer : Peer
peer = record { ip = codes "10.0.0.2"; port = 9999 }

udp_serve_lem_example :
    udp_serve (some (codes "ping", peer) ∷ some (replicate 32 7, peer) ∷ []) (replicate 32 0) ≡ (
      if all_short 32 (some (codes "ping", peer) ∷ some (replicate 32 7, peer) ∷ [])
      then ok (datagrams (some (codes "ping", peer) ∷ some (replicate 32 7, peer) ∷ []))
      else fault)
udp_serve_lem_example =
    udp_serve_lem (some (codes "ping", peer) ∷ some (replicate 32 7, peer) ∷ []) (replicate 32 0)

-- Without its end, a "quit" behind a longer text is not found.
stale_quit :
    session (some (codes "hello") ∷ some (codes "quit") ∷ []) (replicate 32 0)
    ≡ ok (codes "hello" ∷ codes "quit" ∷ [], codes "quito" ++ replicate 27 0)
unfolding session text_of str_eq poke
stale_quit = refl
