-- ===== src/Main/Threads/Single.antt =====
-- The program has one server thread at a time, whatever the order of the steps.
use compile_service.Common.{
  ℕ, ◌-◌, ◌≤◌, ◌<◌, ◌≡◌, refl, ap, Bool, true, false, List, ◌∷◌, ◌++◌, Option, none, some, arith,
  inl, inr, length, length-append,
}
use compile_service.Main.{
  stopped, Place, reading, start_called, server_needed, thread_needed, start_decided, pause_called,
  pause_decided, App, accept_client, create_thread, server_ends,
}
use compile_service.Main.Threads.{Step, main_goes, accepts, creates, ends, Steps, done, more}
use compile_service.Main.Threads.Places.{status_cases, IsPlaced, IsSingle, step_at-IsSingle}

module _ (s : App) (v : IsSingle s) where
  accept_client-IsSingle :
      (client : Option ℕ) → length s.admitted < s.servers → IsSingle (accept_client client s)
  unfolding accept_client
  accept_client-IsSingle none h = v
  accept_client-IsSingle (some c) h = elim (status_cases s.status) [
    | inl e ↦ rw (e, accept_client) more_admitted
    | inr (inl e) ↦ rw (e, accept_client) more_admitted
    | inr (inr e) ↦ rw (e, accept_client) v
  ]
    where
      more_admitted : IsSingle (record s { admitted = c ∷ s.admitted })
      more_admitted = record {
        one_server = v.one_server;
        one_client = omega arith;
        placed = v.placed;
      }

  create_thread-IsSingle :
      (created : Bool) (before : List ℕ) (client : ℕ) (after : List ℕ)
      → s.admitted ≡ before ++ (client ∷ after)
      → IsSingle (create_thread created before client after s)
  unfolding create_thread
  create_thread-IsSingle created before client after e = go created
    where
      fewer : length (before ++ after) ≤ s.servers
      fewer = omega (
        arith,
        v.one_client,
        ap length e,
        length-append before after,
        length-append before (client ∷ after),
      )

      go : (b : Bool) → IsSingle (create_thread b before client after s)
      go true = record { one_server = v.one_server; one_client = fewer; placed = v.placed }
      go false = record { one_server = v.one_server; one_client = fewer; placed = v.placed }

  server_ends-IsSingle : length s.admitted < s.servers → IsSingle (server_ends s)
  unfolding server_ends
  server_ends-IsSingle h = record {
    one_server = omega (arith, v.one_server);
    one_client = omega arith;
    placed = ended s.place;
  }
    where
      gone : s.servers - 1 ≡ 0
      gone = omega (arith, v.one_server)

      ended : (p : Place) → IsPlaced p stopped (s.servers - 1)
      ended reading = λ e. gone
      ended start_called = λ e. gone
      ended server_needed = (refl, gone)
      ended thread_needed = (refl, gone)
      ended (start_decided true) = tt
      ended (start_decided false) = (refl, gone)
      ended pause_called = λ e. gone
      ended pause_decided = λ e. gone

module _ {P : List ℕ → Type 0} where
  pub step-IsSingle : (s t : App) → Step P s t → IsSingle s → IsSingle t
  step-IsSingle s t (main_goes h _ _ _ p e) v = step_at-IsSingle s v s.place h t refl e
  step-IsSingle s _ (accepts client _ _ h) v = accept_client-IsSingle s v client h
  step-IsSingle s _ (creates created before client after _ _ e) v =
      create_thread-IsSingle s v created before client after e
  step-IsSingle s _ (ends _ _ h) v = server_ends-IsSingle s v h

  -- Whatever is read and whatever the system answers, in every order of the steps in which the threads
  -- access `g_status` and make threads: from a state with at most one server thread, at most one
  -- client past its test, and no server thread where the main thread relies on that (at its loop on
  -- STOP, say), every state that is reached is such a state. So no second server thread ever runs
  -- beside the first, and no server thread is there when the main thread has seen STOP and goes on to
  -- make one.
  pub Steps-IsSingle : (s t : App) → Steps P s t → IsSingle s → IsSingle t
  Steps-IsSingle s _ (done _) v = v
  Steps-IsSingle s t (more _ m _ first rest) v = Steps-IsSingle m t rest (step-IsSingle s m first v)
