-- ===== src/Main/Threads.antt =====
-- The steps of the program's threads, in any order.
pub mod Places
pub mod Single
use compile_service.Common.{
  ℕ, ◌+◌, ◌-◌, ◌≤◌, ◌<◌, ◌≡◌, refl, sym, ap, ◌∙◌, subst, Bool, true, false, List, [], ◌∷◌, ◌++◌,
  Option, none, some, Outcome, ok, fault, arith, inl, inr, ◌⊎◌, length, length-append,
}
use compile_service.Utility.{format_by_char}
use compile_service.Response.Paths.{without_last}
use compile_service.Main.{
  Status, stopped, running, paused, Place, reading, start_called, server_needed, thread_needed,
  start_decided, pause_called, pause_decided, App, print, start_test, start_server, start_thread,
  start_result, pause_test, pause_result, exit_handler, Command, start_cmd, pause_cmd, exit_cmd,
  handlers, lookup, handle, run_command, run_line, Heard, step_at, main_step, accept_client,
  create_thread, server_ends,
}

-- The command that a line names, as FormatByChar leaves it.
unfoldable pub line_command : Bool → List ℕ → Option Command
line_command granted line = elim (format_by_char granted (some line) b' ') [
  | none ↦ none
  | some cmd ↦ lookup cmd handlers
]

-- One step of the main thread, whose lines `P` admits, or of a server thread that has not ended, as
-- long as `exit` has not been called. A server thread with a client past the test goes on to
-- `pthread_create`; the others may accept a client, or end.
pub data Step (P : List ℕ → Type 0) : App → App → Type 0 where
  main_goes :
      (h : Heard) (s t : App) → s.exited ≡ false → P h.line → main_step h s ≡ ok t → Step P s t
  accepts :
      (client : Option ℕ) (s : App)
      → s.exited ≡ false
      → length s.admitted < s.servers
      → Step P s (accept_client client s)
  creates :
      (created : Bool) (before : List ℕ) (client : ℕ) (after : List ℕ) (s : App)
      → s.exited ≡ false
      → s.admitted ≡ before ++ (client ∷ after)
      → Step P s (create_thread created before client after s)
  ends : (s : App) → s.exited ≡ false → length s.admitted < s.servers → Step P s (server_ends s)

pub ok_injective : {x y : App} → ok x ≡ ok y → x ≡ y
ok_injective e = cc

pub data Steps (P : List ℕ → Type 0) : App → App → Type 0 where
  done : (s : App) → Steps P s s
  more : (s t u : App) → Step P s t → Steps P t u → Steps P s u

run_command_cases :
    (granted : Bool) (line : List ℕ) (s t : App)
    → run_command granted line s ≡ ok t
    → (t ≡ s)
      ⊎ ((cmd : List ℕ) × (line_command granted line ≡ lookup cmd handlers)
          × (t ≡ handle (lookup cmd handlers) cmd s))
unfolding run_command line_command
run_command_cases granted [] s t e = inl cc
run_command_cases granted (x ∷ xs) s t e = go (format_by_char granted (some (x ∷ xs)) b' ') e
  where
    go :
        (formatted : Option (List ℕ))
        → elim formatted [ none ↦ fault | some cmd ↦ ok (handle (lookup cmd handlers) cmd s) ]
          ≡ ok t
        → (t ≡ s)
          ⊎ ((cmd : List ℕ) × (elim formatted [ none ↦ none | some cmd ↦ lookup cmd handlers ]
                ≡ lookup cmd handlers)
              × (t ≡ handle (lookup cmd handlers) cmd s))
    go none e = cc
    go (some cmd) e = inr (cmd, refl, cc)

-- A round that returns has left the state as it was, or has called the handler for its line.
pub run_line_cases :
    (granted : Bool) (line : List ℕ) (s t : App)
    → run_line granted line s ≡ ok t
    → (t ≡ s)
      ⊎ ((cmd : List ℕ) × (line_command granted (without_last line) ≡ lookup cmd handlers)
          × (t ≡ handle (lookup cmd handlers) cmd s))
unfolding run_line
run_line_cases granted [] s t e = cc
run_line_cases granted (x ∷ xs) s t e = run_command_cases granted (without_last (x ∷ xs)) s t e
