-- ===== src/TcpServer.antt =====
-- tcp_server.c: a listening socket with its clients, and the handler behind `select`. The calls of
-- the system are parameters; `none` is the descriptor -1.
pub mod Watched
pub mod Work
pub mod Failing
pub mod Sweep
pub mod Swept
mod Tests
use compile_service.Common.{
  ℕ, zero, suc, ◌+◌, Bool, true, false, not, ◌&&◌, ◌||◌, List, [], ◌∷◌, ◌++◌, Option, none, some,
  ◌==◌, ltb, if◌then◌else◌, length, get_or, set, replicate, Outcome, ok, fault, ◌>>=◌,
}
use compile_service.TcpClient.{Client}

abbrev pub fd_size : ℕ
fd_size = 1024

-- `listener` says whether `cb` is set.
pub record Server : Type 0 where
  pub fd : Option ℕ
  pub valid : Bool
  pub listener : Bool
  pub clients : List (Option Client)

unfoldable pub server_new : Bool → Option Server
server_new granted =
    if granted
    then some
        (record { fd = none; valid = false; listener = false; clients = replicate fd_size none })
    else none

-- The body of TcpServer_Start; `socket` is the answer of `socket(2)`, the other two say that `bind`
-- and `listen` do not fail.
unfoldable pub opened : Option ℕ → (ℕ → Bool) → (ℕ → Bool) → Server → Server
opened none binds listens s = record s { fd = none; valid = false }
opened (some fd) binds listens s = record s { fd = some fd; valid = binds fd && listens fd }

-- TcpServer_Start, which reads `s->valid` at the end whether there is a server or not.
unfoldable pub server_start :
    Option ℕ → (ℕ → Bool) → (ℕ → Bool) → Option Server → Outcome (Bool × Option Server)
unfolding opened
server_start socket binds listens none = fault
server_start socket binds listens (some s) =
    if s.valid
    then ok (true, some s)
    else ok ((opened socket binds listens s).valid, some (opened socket binds listens s))

-- TcpServer_Stop: every client is deleted and its place cleared.
unfoldable pub server_stop : Option Server → Option Server
server_stop none = none
server_stop (some s) = some (record s { valid = false; clients = replicate fd_size none })

unfoldable pub server_set_listener : Option Server → Bool → Option Server
server_set_listener none cb = none
server_set_listener (some s) cb = some (record s { listener = cb })

unfoldable pub server_is_valid : Option Server → Bool
server_is_valid none = false
server_is_valid (some s) = s.valid

-- TcpServer_Accept; `from` is TcpClient_From.
unfoldable pub server_accept :
    (Option ℕ → Option ℕ) → (ℕ → Option Client) → Option Server → Option Client
server_accept accept from none = none
server_accept accept from (some s) = elim (accept s.fd) [ none ↦ none | some fd ↦ from fd ]

unfoldable pub server_set_opt : (Option ℕ → Option ℕ) → Option Server → Option ℕ
server_set_opt setsockopt none = none
server_set_opt setsockopt (some s) = setsockopt s.fd

unfoldable pub server_get_opt : (Option ℕ → Option ℕ) → Option Server → Option ℕ
server_get_opt getsockopt none = none
server_get_opt getsockopt (some s) = getsockopt s.fd

pub data Event : Type 0 where
  evt_conn : Event
  evt_data : Event
  evt_close : Event

abbrev pub is_conn : Event → Bool
is_conn evt_conn = true
is_conn evt_data = false
is_conn evt_close = false

-- What SelectHandler changes: the clients, the watched descriptors, `ret`; and the calls of the
-- listener so far, the last one first.
pub record Select : Type 0 where
  pub clients : List (Option Client)
  pub reads : ℕ → Bool
  pub ret : ℕ
  pub calls : List (Option Client × Event)

-- FD_SET and FD_CLR.
abbrev pub with_bit : ℕ → Bool → (ℕ → Bool) → ℕ → Bool
with_bit i b reads k = if k == i then b else reads k

abbrev pub call : Option Client → Event → Select → Select
call client event st = record st { calls = (client, event) ∷ st.calls }

-- What is called for a client that is neither new nor has anything to say.
abbrev pub call_close : Option Client → Select → Select
call_close none st = st
call_close (some c) st = call (some c) evt_close st

-- `talks` says of a client that it is valid or has bytes that wait.
module _ (server : Server) (rset : ℕ → Bool) (accepted : Option ℕ) (from : ℕ → Option Client)
    (talks : Option Client → Bool) (max : ℕ) where
  -- The listener's part, for the client at `index`.
  unfoldable pub listen_to : ℕ → Event → Select → Outcome Select
  listen_to index event st =
      let client = get_or st.clients index none in
      if not (ltb index fd_size)
      then fault
      else if talks client || is_conn event
      then ok (call client event st)
      else ok (record (call_close client st) {
        clients = set st.clients index none;
        reads = with_bit index false st.reads;
      })

  abbrev pub tell : ℕ → Event → Select → Outcome Select
  tell index event st = if server.listener then listen_to index event st else ok st

  -- A new client: its descriptor is watched, and it has its place.
  abbrev pub add_client : ℕ → Select → Outcome Select
  add_client index st =
      if ltb index fd_size
      then ok (record st {
        clients = set st.clients index (from index);
        reads = with_bit index true st.reads;
        ret = if ltb max index then index else max;
      })
      else fault

  -- The server's own descriptor is ready. After a failed `accept` the listener's part looks at
  -- `client[-1]`.
  unfoldable pub accept_one : Option ℕ → Select → Outcome Select
  accept_one none st = if server.listener then fault else ok st
  accept_one (some index) st = add_client index st >>= λ st'. tell index evt_conn st'

  abbrev pub is_server : ℕ → Option ℕ → Bool
  is_server i none = false
  is_server i (some fd) = i == fd

  -- One round of the loop.
  unfoldable pub select_one : ℕ → Select → Outcome Select
  select_one i st =
      if rset i
      then (if is_server i server.fd then accept_one accepted st else tell i evt_data st)
      else ok st

  unfoldable pub select_loop : ℕ → ℕ → Select → Outcome Select
  select_loop zero i st = ok st
  select_loop (suc n) i st = select_one i st >>= λ st'. select_loop n (suc i) st'

  -- SelectHandler; `accept` is called once at most.
  unfoldable pub select_handler : (ℕ → Bool) → Outcome Select
  unfolding select_loop
  select_handler reads =
      select_loop (suc max) 0
        (record { clients = server.clients; reads = reads; ret = max; calls = [] })

-- What the system says in one round of DoWork: the descriptors that are ready, the answer of
-- `accept`, and which clients are valid or have bytes that wait.
pub record Round : Type 0 where
  pub rset : ℕ → Bool
  pub accepted : Option ℕ
  pub talks : Option Client → Bool

-- The loop of TcpServer_DoWork on what the system says, as long as it does; `none` is a timeout. The
-- listener's own calls of the server's operations are not modelled.
unfoldable pub work_loop :
    (ℕ → Option Client)
    → List (Option Round)
    → Server
    → (ℕ → Bool)
    → ℕ
    → Outcome (Server × (ℕ → Bool) × ℕ)
work_loop from [] s reads max = ok (s, reads, max)
work_loop from (none ∷ rounds) s reads max = work_loop from rounds s reads max
work_loop from (some r ∷ rounds) s reads max =
    select_handler s r.rset r.accepted from r.talks max reads >>= λ st.
    work_loop from rounds (record s { clients = st.clients }) st.reads st.ret

-- DoWork on a valid server with this descriptor, which is watched first.
unfoldable pub start_work :
    (ℕ → Option Client)
    → List (Option Round)
    → Server
    → Option ℕ
    → Outcome (Option (Server × (ℕ → Bool) × ℕ))
start_work from rounds s none = fault
start_work from rounds s (some fd) =
    if ltb fd fd_size
    then (work_loop from rounds s (with_bit fd true (λ k. false)) fd >>= λ r. ok (some r))
    else fault

-- TcpServer_DoWork: `none` when there is nothing to do.
unfoldable pub do_work :
    (ℕ → Option Client)
    → List (Option Round)
    → Option Server
    → Outcome (Option (Server × (ℕ → Bool) × ℕ))
unfolding start_work
do_work from rounds none = ok none
do_work from rounds (some s) = if s.valid then start_work from rounds s s.fd else ok none
