-- ===== src/Main/Threads/Places.antt =====
-- What the main thread relies on at each of its places, and its steps keep.
use compile_service.Common.{
  ℕ, ◌≤◌, ◌≡◌, refl, sym, subst, Bool, true, false, List, Option, none, some, ok, arith, inl, inr,
  ◌⊎◌, length,
}
use compile_service.Main.{
  Status, stopped, running, paused, Place, reading, start_called, server_needed, thread_needed,
  start_decided, pause_called, pause_decided, App, print, start_test, start_server, start_thread,
  start_result, pause_test, pause_result, exit_handler, Command, start_cmd, pause_cmd, exit_cmd,
  handlers, lookup, handle, Heard, step_at,
}
use compile_service.Main.Threads.{run_line_cases, ok_injective}

pub status_cases : (x : Status) → (x ≡ stopped) ⊎ ((x ≡ running) ⊎ (x ≡ paused))
status_cases stopped = inl refl
status_cases running = inr (inl refl)
status_cases paused = inr (inr refl)

-- What the main thread relies on where it is: once it has seen STOP there is no server thread until
-- it makes one, and elsewhere STOP means that there is none, but for the moment before RUN is written.
abbrev pub IsPlaced : Place → Status → ℕ → Type 0
IsPlaced reading x n = x ≡ stopped → n ≡ 0
IsPlaced start_called x n = x ≡ stopped → n ≡ 0
IsPlaced server_needed x n = (x ≡ stopped) × (n ≡ 0)
IsPlaced thread_needed x n = (x ≡ stopped) × (n ≡ 0)
IsPlaced (start_decided true) x n = Unit
IsPlaced (start_decided false) x n = (x ≡ stopped) × (n ≡ 0)
IsPlaced pause_called x n = x ≡ stopped → n ≡ 0
IsPlaced pause_decided x n = x ≡ stopped → n ≡ 0

-- At most one server thread, with at most one client past its test.
pub record IsSingle (s : App) : Type 0 where
  pub one_server : s.servers ≤ 1
  pub one_client : length s.admitted ≤ s.servers
  pub placed : IsPlaced s.place s.status s.servers

module _ (s : App) (v : IsSingle s) where
  IsPlaced-at : (p : Place) → s.place ≡ p → IsPlaced p s.status s.servers
  IsPlaced-at p q = subst (λ x. IsPlaced x s.status s.servers) q v.placed

  start_test-IsSingle : s.place ≡ start_called → IsSingle (start_test s)
  unfolding start_test
  start_test-IsSingle q = elim (status_cases s.status) [
    | inl e ↦
        rw (e, start_test)
          (record {
            one_server = v.one_server;
            one_client = v.one_client;
            placed = (e, IsPlaced-at start_called q e);
          })
    | inr (inl e) ↦
        rw (e, start_test)
          (record { one_server = v.one_server; one_client = v.one_client; placed = tt })
    | inr (inr e) ↦
        rw (e, start_test)
          (record { one_server = v.one_server; one_client = v.one_client; placed = tt })
  ]

  start_server-IsSingle :
      (server : Option Bool) (t : App)
      → s.place ≡ server_needed
      → start_server server s ≡ ok t
      → IsSingle t
  unfolding start_server
  start_server-IsSingle none t q e = cc
  start_server-IsSingle (some true) t q e = subst IsSingle (ok_injective e) (record {
    one_server = v.one_server;
    one_client = v.one_client;
    placed = IsPlaced-at server_needed q;
  })
  start_server-IsSingle (some false) t q e = subst IsSingle (ok_injective e) (record {
    one_server = v.one_server;
    one_client = v.one_client;
    placed = IsPlaced-at server_needed q;
  })

  start_thread-IsSingle :
      (created : Bool) → s.place ≡ thread_needed → IsSingle (start_thread created s)
  unfolding start_thread
  start_thread-IsSingle true q =
      let (_, none_yet) = IsPlaced-at thread_needed q in
      record {
        one_server = omega (arith, none_yet);
        one_client = omega (arith, v.one_client);
        placed = tt;
      }
  start_thread-IsSingle false q = record {
    one_server = v.one_server;
    one_client = v.one_client;
    placed = IsPlaced-at thread_needed q;
  }

  start_result-IsSingle :
      (fine : Bool) → s.place ≡ start_decided fine → IsSingle (start_result fine s)
  unfolding start_result print
  start_result-IsSingle true q = record {
    one_server = v.one_server;
    one_client = v.one_client;
    placed = λ e. cc;
  }
  start_result-IsSingle false q = record {
    one_server = v.one_server;
    one_client = v.one_client;
    placed = λ e. (IsPlaced-at (start_decided false) q).1;
  }

  pause_test-IsSingle : s.place ≡ pause_called → IsSingle (pause_test s)
  unfolding pause_test print
  pause_test-IsSingle q =
      let same : IsPlaced reading s.status s.servers = IsPlaced-at pause_called q in
      elim (status_cases s.status) [
        | inl e ↦
            rw (e, pause_test)
              (record { one_server = v.one_server; one_client = v.one_client; placed = same })
        | inr (inl e) ↦
            rw (e, pause_test)
              (record { one_server = v.one_server; one_client = v.one_client; placed = same })
        | inr (inr e) ↦
            rw (e, pause_test)
              (record { one_server = v.one_server; one_client = v.one_client; placed = same })
      ]

  pause_result-IsSingle : IsSingle (pause_result s)
  unfolding pause_result print
  pause_result-IsSingle = record {
    one_server = v.one_server;
    one_client = v.one_client;
    placed = λ e. cc;
  }

  handle-IsSingle :
      (c : Option Command) (cmd : List ℕ) → s.place ≡ reading → IsSingle (handle c cmd s)
  unfolding handle print exit_handler
  handle-IsSingle none cmd q = record {
    one_server = v.one_server;
    one_client = v.one_client;
    placed = v.placed;
  }
  handle-IsSingle (some start_cmd) cmd q = record {
    one_server = v.one_server;
    one_client = v.one_client;
    placed = IsPlaced-at reading q;
  }
  handle-IsSingle (some pause_cmd) cmd q = record {
    one_server = v.one_server;
    one_client = v.one_client;
    placed = IsPlaced-at reading q;
  }
  handle-IsSingle (some exit_cmd) cmd q = record {
    one_server = v.one_server;
    one_client = v.one_client;
    placed = v.placed;
  }

  pub step_at-IsSingle :
      (p : Place) (h : Heard) (t : App) → s.place ≡ p → step_at p h s ≡ ok t → IsSingle t
  unfolding step_at
  step_at-IsSingle reading h t q e = elim (run_line_cases h.granted h.line s t e) [
    | inl g ↦ subst IsSingle (sym g) v
    | inr (cmd, _, g) ↦ subst IsSingle (sym g) (handle-IsSingle (lookup cmd handlers) cmd q)
  ]
  step_at-IsSingle start_called h t q e = subst IsSingle (ok_injective e) (start_test-IsSingle q)
  step_at-IsSingle server_needed h t q e = start_server-IsSingle h.server t q e
  step_at-IsSingle thread_needed h t q e =
      subst IsSingle (ok_injective e) (start_thread-IsSingle h.created q)
  step_at-IsSingle (start_decided fine) h t q e =
      subst IsSingle (ok_injective e) (start_result-IsSingle fine q)
  step_at-IsSingle pause_called h t q e = subst IsSingle (ok_injective e) (pause_test-IsSingle q)
  step_at-IsSingle pause_decided h t q e = subst IsSingle (ok_injective e) pause_result-IsSingle
