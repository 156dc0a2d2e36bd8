-- ===== src/Main/Tests.antt =====
-- Commands and requests at concrete inputs.
use compile_service.Common.{
  ℕ, ◌≡◌, refl, ap, ◌∙◌, Bool, true, false, List, [], ◌∷◌, Option, none, some, Outcome, ok, ◌>>=◌,
  All, arith, ◌⊎◌,
}
use compile_service.Text.{codes, sprintf}
use compile_service.Page.{err_format}
use compile_service.Utility.{skip, format_loop, trim, format_by_char}
use compile_service.Samples.{zeros-Always, memory, open_line, script, client}
use compile_service.Response.Paths.{str_eq, without_last}
use compile_service.Response.Entries.{Files}
use compile_service.Response.Send.{request_handler, html_response}
use compile_service.Response.Send.Requests.{request_handler_bad}
use compile_service.Main.{
  stopped, running, paused, reading, start_called, server_needed, thread_needed, start_decided,
  pause_called, pause_decided, App, print, start_test, start_server, start_thread, start_result,
  pause_test, pause_result, handle, lookup, run_command, run_line, Heard, step_at, accept_client,
  create_thread, server_ends,
}
use compile_service.Main.Threads.{main_goes, accepts, creates, ends, Steps, done, more}
use compile_service.Main.Threads.Places.{IsSingle}
use compile_service.Main.Threads.Single.{Steps-IsSingle}
use compile_service.Main.Paused.{NotStart, Steps-paused}
use compile_service.Main.Requests.{is_space, do_resp}
use compile_service.Main.Requests.Parse.{IsPlain, get_line, do_resp_lem}

abbrev initial : App
initial = record {
  status = stopped;
  place = reading;
  servers = 0;
  admitted = [];
  served = [];
  printed = [];
  exited = false;
}

-- All calls succeed.
abbrev hears : List ℕ → Heard
hears line = record { granted = true; line = line; server = some true; created = true }

abbrev Any : List ℕ → Type 0
Any line = Unit {0}

abbrev in_start : App
in_start = record initial { place = start_called }

abbrev after_start : App
after_start = record initial { status = running; servers = 1; printed = codes "Server is OK!" ∷ [] }

reads_start : step_at reading (hears (codes " start\n")) initial ≡ ok in_start
unfolding step_at run_line run_command handle lookup format_by_char skip format_loop trim str_eq
    without_last
reads_start = refl

-- The steps of Start_Handler from STOP, with `between` before the write of `g_status`.
starts :
    (between t : App)
    → Steps Any (record in_start { servers = 1; place = start_decided true }) between
    → Steps Any between t
    → Steps Any initial t
unfolding step_at start_test start_server start_thread
starts between t first rest =
    more initial in_start t (main_goes (hears (codes " start\n")) _ _ refl tt reads_start) (
      more in_start (record in_start { place = server_needed }) t
        (main_goes (hears []) _ _ refl tt refl)
        (more _ (record in_start { place = thread_needed }) t
          (main_goes (hears []) _ _ refl tt refl)
          (more _ _ t (main_goes (hears []) _ _ refl tt refl) (both between t first rest))))
  where
    both : {s : App} (m u : App) → Steps Any s m → Steps Any m u → Steps Any s u
    both m u (done _) r = r
    both m u (more a b _ x xs) r = more a b u x (both m u xs r)

abbrev with_client : App
with_client = record after_start { served = 9 ∷ [] }

start_then_client : Steps Any initial with_client
unfolding step_at start_result print accept_client create_thread
start_then_client = starts _ _ (done _) (
    more _ after_start _ (main_goes (hears []) _ _ refl tt refl) (
      more after_start (record after_start { admitted = 9 ∷ [] }) _
        (accepts (some 9) after_start refl (omega arith))
        (more _ _ _ (creates true [] 9 [] _ refl refl) (done _))))

initial-IsSingle : IsSingle initial
initial-IsSingle = record { one_server = omega arith; one_client = omega arith; placed = λ e. refl }

Steps-IsSingle_example : IsSingle with_client
Steps-IsSingle_example = Steps-IsSingle initial with_client start_then_client initial-IsSingle

-- The server thread may end before `g_status` is written: the status is RUN then, and no server thread
-- is there. Another `start` does not make one, since the status is not STOP.
unmanned : Steps Any initial (record after_start { servers = 0 })
unfolding step_at start_result print server_ends
unmanned =
    starts _ _ (more _ _ _ (ends _ refl (omega arith)) (done _))
      (more _ _ _ (main_goes (hears []) _ _ refl tt refl) (done _))

-- A client past the test when the pause comes, and one behind it.
abbrev after_pause : App
after_pause = record after_start {
  status = paused;
  admitted = 9 ∷ [];
  printed = codes "Server is paused!" ∷ codes "Server is OK!" ∷ [];
}

pauses : Steps Any (record after_start { admitted = 9 ∷ []; place = pause_called }) after_pause
unfolding step_at pause_test pause_result print
pauses =
    more _ (record after_start { admitted = 9 ∷ []; place = pause_decided }) _
      (main_goes (hears []) _ _ refl tt refl)
      (more _ _ _ (main_goes (hears []) _ _ refl tt refl) (done _))

abbrev late : App
late = record after_pause { admitted = []; served = 9 ∷ [] }

late_client : Steps NotStart after_pause late
unfolding accept_client create_thread
late_client =
    more _ late _ (creates true [] 9 [] after_pause refl refl)
      (more _ _ _ (accepts (some 8) _ refl (omega arith)) (done _))

after_pause-IsSingle : IsSingle after_pause
after_pause-IsSingle = record {
  one_server = omega arith;
  one_client = omega arith;
  placed = λ e. cc;
}

Steps-paused_example :
    ((late.served ≡ after_pause.served)
      ⊎ ((c : ℕ) × (after_pause.admitted ≡ c ∷ []) × (late.served ≡ c ∷ after_pause.served)))
    × ((late.status ≡ paused) ⊎ ((late.status ≡ stopped) × (late.servers ≡ 0)))
Steps-paused_example = Steps-paused after_pause late after_pause-IsSingle refl refl late_client

abbrev path : List ℕ
path = codes "/a.c"

path-IsPlain : All IsPlain path
unfolding is_space
path-IsPlain = ((refl, refl), ((refl, refl), ((refl, refl), ((refl, refl), tt))))

abbrev no_files : Files
no_files = record { opendir = λ p. none; stat = λ p. none; exists = λ p. false }

abbrev line : List ℕ
line = get_line path (codes "HTTP/1.1\r\n\r\n")

refused :
    request_handler open_line script 1 memory no_files
      (λ p. none)
      []
      (some client)
      (some path)
      (some (codes "/srv"))
    ≡ ok (none, html_response (sprintf err_format (path ∷ [])))
refused =
    request_handler_bad open_line script memory zeros-Always 1 no_files (λ p. none) [] client path
      (codes "/srv") (λ e. cc) refl

answered :
    do_resp open_line script 1 memory no_files
      (λ p. none)
      []
      (λ fd. some 21)
      (some client)
      (codes "/srv")
      []
      (λ n. line)
    ≡ ok (true, html_response (sprintf err_format (path ∷ [])))
answered =
    do_resp_lem open_line script memory zeros-Always 1 no_files (λ p. none) client (codes "/srv") []
      [] (λ fd. some 21) (λ n. line) 21 path (codes "HTTP/1.1\r\n\r\n") (λ e. cc) path-IsPlain refl
      (omega arith) refl (omega arith)
    ∙ ap (λ (o : Outcome (Option Bool × List ℕ)). o >>= λ r. ok (true, r.1)) refused
