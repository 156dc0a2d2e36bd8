-- ===== src/Echo.antt =====
-- basic_material/select-server.c: a server behind `select` that sends back what a client says. The
-- calls of the system are parameters; `none` is the answer -1.
pub mod Oob
pub mod Single
pub mod Datagrams
pub mod Keyboard
pub mod Watching
pub mod Lines
mod Tests
use compile_service.Common.{
  ℕ, zero, suc, ◌+◌, Bool, true, false, not, ◌&&◌, List, [], ◌∷◌, ◌++◌, Option, none, some, ◌==◌,
  ltb, leb, if◌then◌else◌, length, take, set, replicate, Outcome, ok, fault, stuck, ◌>>=◌, poke,
}
use compile_service.Text.{codes}
use compile_service.Response.Paths.{str_eq}
use compile_service.TcpServer.{fd_size, with_bit}

-- What is watched, `max`, the bytes that each `write` has taken for its client, and what has been
-- closed; the last one comes first.
pub record Watch : Type 0 where
  pub reads : ℕ → Bool
  pub max : ℕ
  pub sent : List (ℕ × List ℕ)
  pub closed : List ℕ

-- The string that stands in an array, up to the first zero.
unfoldable pub string_of : List ℕ → List ℕ
string_of [] = []
string_of (b ∷ bs) = let rest = string_of bs in if b == 0 then [] else b ∷ rest

-- `buf[ret] = 0` in an array of `size` bytes that holds what a call of `read` has written.
unfoldable pub ended : ℕ → List ℕ → Outcome (List ℕ)
ended size bytes = poke (replicate size 0) 0 bytes >>= λ buf. poke buf (length bytes) (0 ∷ [])

-- `ret` behind `read` in client_handler, with what is written to the client: `write` says how many
-- bytes the system takes of these.
unfoldable pub reply : (List ℕ → Option ℕ) → List ℕ → List ℕ → Option ℕ × List (List ℕ)
unfolding string_of
reply write bytes buf =
    if str_eq (string_of buf) (codes "quit") then (none, []) else (write bytes, bytes ∷ [])

-- client_handler; `answer` is what `read` gives, `some []` at the end of the stream.
unfoldable pub client_handler :
    Option (List ℕ) → (List ℕ → Option ℕ) → Outcome (Option ℕ × List (List ℕ))
unfolding ended
client_handler none write = ok (none, [])
client_handler (some []) write = ok (some 0, [])
client_handler (some (b ∷ bytes)) write =
    ended 32 (b ∷ bytes) >>= λ buf. ok (reply write (b ∷ bytes) buf)

-- FD_SET with the new client, when `accept` gives one.
unfoldable pub watch_client : Option ℕ → Watch → Outcome Watch
watch_client none st = ok st
watch_client (some c) st =
    if ltb c fd_size
    then ok
        (record st { reads = with_bit c true st.reads; max = if ltb st.max c then c else st.max })
    else fault

-- What follows a call of client_handler for `i`, whose answer `r` is how many of the bytes `write` has
-- taken.
unfoldable pub after_client : ℕ → Option ℕ × List (List ℕ) → Watch → Watch
after_client i (some r, out) st = record st { sent = taken out ++ st.sent }
  where
    taken : List (List ℕ) → List (ℕ × List ℕ)
    taken [] = []
    taken (s ∷ out) = (i, take r s) ∷ taken out
after_client i (none, out) st = record st {
  reads = with_bit i false st.reads;
  closed = i ∷ st.closed;
}

-- What the system says in one round: the descriptors that are ready, the answer of `accept`, what a
-- read of each client gives, and what a write to it answers.
pub record Round : Type 0 where
  pub temps : ℕ → Bool
  pub accepted : Option ℕ
  pub answers : ℕ → Option (List ℕ)
  pub writes : ℕ → List ℕ → Option ℕ

-- The body of the loop over the descriptors.
unfoldable pub serve_one : ℕ → Round → ℕ → Watch → Outcome Watch
unfolding watch_client client_handler after_client
serve_one server r i st =
    if not (ltb i fd_size)
    then fault
    else if r.temps i
    then (if i == server
        then watch_client r.accepted st
        else (client_handler (r.answers i) (r.writes i) >>= λ x. ok (after_client i x st)))
    else ok st

-- `for(i=..; i<=max; i++)`, where the body may raise `max`. `stuck` means that the rounds ran out.
unfoldable pub serve_loop : (ℕ → Watch → Outcome Watch) → ℕ → ℕ → Watch → Outcome Watch
serve_loop body zero i st = stuck
serve_loop body (suc rounds) i st = elim (leb i st.max) [
  | false ↦ ok st
  | true ↦ body i st >>= λ st'. serve_loop body rounds (suc i) st'
]

-- The endless loop, on what the system says as long as it does; `none` is a timeout. A loop over the
-- descriptors takes no more rounds than there are descriptors, and one for the last test.
unfoldable pub serve : ℕ → List (Option Round) → Watch → Outcome Watch
unfolding serve_loop serve_one
serve server [] st = ok st
serve server (none ∷ rounds) st = serve server rounds st
serve server (some r ∷ rounds) st =
    serve_loop (serve_one server r) (fd_size + 1) 1 st >>= λ st'. serve server rounds st'

-- The state before the loop.
unfoldable pub serve_start : ℕ → Outcome Watch
serve_start server =
    if ltb server fd_size
    then ok
        (record { reads = with_bit server true (λ k. false); max = server; sent = []; closed = [] })
    else fault

-- main(): whether `socket`, `bind` and `listen` succeed, and the loop; without one of them main()
-- returns.
unfoldable pub echo_main :
    Option ℕ → (ℕ → Bool) → (ℕ → Bool) → List (Option Round) → Outcome (Option Watch)
unfolding serve serve_start
echo_main none binds listens rounds = ok none
echo_main (some fd) binds listens rounds =
    let run = serve_start fd >>= λ st. serve fd rounds st >>= λ st'. ok (some st') in
    if binds fd then (if listens fd then run else ok none) else ok none
