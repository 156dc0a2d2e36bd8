-- ===== src/Main.antt =====
-- main.c: the commands, the threads that they start, and the answer to a client.
pub mod Threads
pub mod Paused
pub mod Requests
mod Tests
use compile_service.Common.{
  ℕ, zero, suc, ◌+◌, ◌-◌, Bool, true, false, ◌&&◌, List, [], ◌∷◌, ◌++◌, Option, none, some,
  if◌then◌else◌, length, Outcome, ok, fault, ◌>>=◌,
}
use compile_service.Text.{codes}
use compile_service.Utility.{format_by_char}
use compile_service.Response.Paths.{str_eq, without_last}

pub data Status : Type 0 where
  stopped : Status
  running : Status
  paused : Status

-- Where the main thread is: at the loop in Run; in Start_Handler before the test of `g_status`, past
-- it with STOP, before `pthread_create`, or before the write of `g_status`, with whether there is no
-- error; in Pause_Handler before its test, or past it with RUN.
pub data Place : Type 0 where
  reading : Place
  start_called : Place
  server_needed : Place
  thread_needed : Place
  start_decided : Bool → Place
  pause_called : Place
  pause_decided : Place

-- `g_status`; where the main thread is; the server threads that have not ended; the clients that a
-- server thread has let past its test and given to no thread yet, by their descriptors; those that
-- have been given to a thread; the lines printed; and whether `exit` has been called.
pub record App : Type 0 where
  pub status : Status
  pub place : Place
  pub servers : ℕ
  pub admitted : List ℕ
  pub served : List ℕ
  pub printed : List (List ℕ)
  pub exited : Bool

unfoldable pub print : List ℕ → App → App
print line s = record s { printed = line ∷ s.printed }

-- Start_Handler step by step: `if(g_status == STOP)`.
unfoldable pub start_test : App → App
start_test s = elim s.status [
  | stopped ↦ record s { place = server_needed }
  | running ↦ record s { place = start_decided true }
  | paused ↦ record s { place = start_decided true }
]

-- TcpServer_New, TcpServer_Start and TcpServer_IsValid. `server` is none when TcpServer_New gives
-- NULL, whose `valid` TcpServer_Start reads, and else whether the server is valid after the start.
unfoldable pub start_server : Option Bool → App → Outcome App
start_server none s = fault
start_server (some true) s = ok (record s { place = thread_needed })
start_server (some false) s = ok (record s { place = start_decided false })

-- `pthread_create`, which gives a thread or not.
unfoldable pub start_thread : Bool → App → App
start_thread true s = record s { servers = s.servers + 1; place = start_decided true }
start_thread false s = record s { place = start_decided false }

-- The last `if`: the write of `g_status` and the line, which no other thread sees.
unfoldable pub start_result : Bool → App → App
unfolding print
start_result true s = print (codes "Server is OK!") (record s { status = running; place = reading })
start_result false s =
    print (codes "Server is failed!") (record s { status = stopped; place = reading })

-- Pause_Handler: its test, and what follows on RUN.
unfoldable pub pause_test : App → App
unfolding print
pause_test s = elim s.status [
  | running ↦ record s { place = pause_decided }
  | stopped ↦ print (codes "Server is NOT started") (record s { place = reading })
  | paused ↦ print (codes "Server is NOT started") (record s { place = reading })
]

unfoldable pub pause_result : App → App
unfolding print
pause_result s = print (codes "Server is paused!") (record s { status = paused; place = reading })

unfoldable pub exit_handler : App → App
exit_handler s = record s { exited = true }

-- A command, as the table has it.
pub data Command : Type 0 where
  start_cmd : Command
  pause_cmd : Command
  exit_cmd : Command

abbrev pub handlers : List (List ℕ × Command)
handlers = (codes "start", start_cmd) ∷ (codes "pause", pause_cmd) ∷ (codes "exit", exit_cmd) ∷ []

-- The loop over the table.
unfoldable pub lookup : List ℕ → List (List ℕ × Command) → Option Command
lookup cmd [] = none
lookup cmd ((name, c) ∷ rest) =
    let other = lookup cmd rest in if str_eq name cmd then some c else other

-- The call of the handler, and the line when there is none.
unfoldable pub handle : Option Command → List ℕ → App → App
unfolding exit_handler print
handle none cmd s = print ((codes "'" ++ cmd) ++ codes "' can NOT be parsed!") s
handle (some start_cmd) cmd s = record s { place = start_called }
handle (some pause_cmd) cmd s = record s { place = pause_called }
handle (some exit_cmd) cmd s = exit_handler s

-- `if(*line)` with what follows; `granted` says that FormatByChar gets memory. Without, `strcmp`
-- reads at NULL.
unfoldable pub run_command : Bool → List ℕ → App → Outcome App
run_command granted [] s = ok s
run_command granted (x ∷ xs) s = elim (format_by_char granted (some (x ∷ xs)) b' ') [
  | none ↦ fault
  | some cmd ↦ ok (handle (lookup cmd handlers) cmd s)
]

-- A round of the loop in Run. `line` is what `fgets` has put there; on an empty one, at the end of
-- the input, the code writes to `line[-1]`.
unfoldable pub run_line : Bool → List ℕ → App → Outcome App
unfolding run_command
run_line granted [] s = fault
run_line granted (x ∷ xs) s = run_command granted (without_last (x ∷ xs)) s

-- What the main thread hears in a step: whether FormatByChar gets memory and the line, the server
-- (see `start_server`), and whether `pthread_create` gives a thread.
pub record Heard : Type 0 where
  pub granted : Bool
  pub line : List ℕ
  pub server : Option Bool
  pub created : Bool

-- A step of the main thread, up to its next access to `g_status`.
unfoldable pub step_at : Place → Heard → App → Outcome App
unfolding run_line
step_at reading h s = run_line h.granted h.line s
step_at start_called h s = ok (start_test s)
step_at server_needed h s = start_server h.server s
step_at thread_needed h s = ok (start_thread h.created s)
step_at (start_decided fine) h s = ok (start_result fine s)
step_at pause_called h s = ok (pause_test s)
step_at pause_decided h s = ok (pause_result s)

abbrev pub main_step : Heard → App → Outcome App
main_step h s = step_at s.place h s

-- Server_Thread step by step: the client that TcpServer_Accept gives, if any, and the test of
-- `g_status`. A client that does not pass is deleted.
unfoldable pub accept_client : Option ℕ → App → App
accept_client none s = s
accept_client (some client) s = elim s.status [
  | paused ↦ s
  | running ↦ record s { admitted = client ∷ s.admitted }
  | stopped ↦ record s { admitted = client ∷ s.admitted }
]

-- `pthread_create` for a client that stands between `before` and `after`; its answer is not looked
-- at, and a client that gets no thread is lost.
unfoldable pub create_thread : Bool → List ℕ → ℕ → List ℕ → App → App
create_thread true before client after s = record s {
  admitted = before ++ after;
  served = client ∷ s.served;
}
create_thread false before client after s = record s { admitted = before ++ after }

-- The last lines of Server_Thread.
unfoldable pub server_ends : App → App
server_ends s = record s { status = stopped; servers = s.servers - 1 }
