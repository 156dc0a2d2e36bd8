-- ===== src/Main/Paused.antt =====
-- A paused program takes on no client but one that was past the test already.
use compile_service.Common.{
  ℕ, ◌≤◌, ◌<◌, ◌≡◌, refl, sym, ap, ◌∙◌, subst, Bool, true, false, List, [], ◌∷◌, ◌++◌, Option, none,
  some, arith, inl, inr, ◌⊎◌, ◌≢◌, length, length-append, ok,
}
use compile_service.Response.Paths.{without_last}
use compile_service.Main.{
  stopped, paused, reading, pause_called, App, print, pause_test, exit_handler, Command, start_cmd,
  pause_cmd, exit_cmd, handlers, lookup, handle, Heard, step_at, accept_client, create_thread,
  server_ends,
}
use compile_service.Main.Threads.{
  line_command, Step, main_goes, accepts, creates, ends, Steps, done, more, run_line_cases,
  ok_injective,
}
use compile_service.Main.Threads.Places.{IsSingle}
use compile_service.Main.Threads.Single.{step-IsSingle}

-- A line that does not say `start`.
abbrev pub NotStart : List ℕ → Type 0
NotStart line = (granted : Bool) → line_command granted (without_last line) ≢ some start_cmd

abbrev IsPaused : App → Type 0
IsPaused t = (t.status ≡ paused) ⊎ ((t.status ≡ stopped) × (t.servers ≡ 0))

-- The clients are those of `served`, or those and the one that was `admitted`.
abbrev pub AddsAdmitted : List ℕ → List ℕ → App → Type 0
AddsAdmitted admitted served t =
    (t.served ≡ served) ⊎ ((c : ℕ) × (admitted ≡ c ∷ []) × (t.served ≡ c ∷ served))

module _ (admitted served : List ℕ) where
  -- No client has left the state `admitted`, or none is left in it.
  abbrev Follows : App → Type 0
  Follows t =
      ((t.admitted ≡ admitted) × (t.served ≡ served))
      ⊎ ((t.admitted ≡ []) × AddsAdmitted admitted served t)

  abbrev IsIdle : App → Type 0
  IsIdle t = ((t.place ≡ reading) ⊎ (t.place ≡ pause_called)) × IsPaused t × Follows t

  handle-IsIdle :
      (c : Option Command) (cmd : List ℕ) (s : App)
      → c ≢ some start_cmd
      → IsIdle s
      → IsIdle (handle c cmd s)
  unfolding handle print exit_handler
  handle-IsIdle none cmd s n v = v
  handle-IsIdle (some start_cmd) cmd s n v = absurd (n refl)
  handle-IsIdle (some exit_cmd) cmd s n v = v
  handle-IsIdle (some pause_cmd) cmd s n (_, w, v) = (inr refl, w, v)

  pause_test-IsIdle : (s : App) → IsIdle s → IsIdle (pause_test s)
  unfolding pause_test print
  pause_test-IsIdle s (_, inl e, v) = rw (e, pause_test) (inl refl, inl e, v)
  pause_test-IsIdle s (_, inr (e, z), v) = rw (e, pause_test) (inl refl, inr (e, z), v)

  step_at-IsIdle :
      (h : Heard) (s t : App) → NotStart h.line → step_at s.place h s ≡ ok t → IsIdle s → IsIdle t
  unfolding step_at
  step_at-IsIdle h s t p e (inl q, w, v) =
      elim (run_line_cases h.granted h.line s t (ap (λ x. step_at x h s) (sym q) ∙ e)) [
        | inl g ↦ subst IsIdle (sym g) (inl q, w, v)
        | inr (cmd, c, g) ↦
            subst IsIdle (sym g)
              (handle-IsIdle (lookup cmd handlers) cmd s (λ x. p h.granted (c ∙ x)) (inl q, w, v))
      ]
  step_at-IsIdle h s t p e (inr q, w, v) =
      subst IsIdle (ok_injective (ap (λ x. step_at x h s) (sym q) ∙ e))
        (pause_test-IsIdle s (inr q, w, v))

  accept_client-IsIdle :
      (client : Option ℕ) (s : App)
      → length s.admitted < s.servers
      → IsIdle s
      → IsIdle (accept_client client s)
  unfolding accept_client
  accept_client-IsIdle none s h v = v
  accept_client-IsIdle (some c) s h (q, inl e, v) = rw (e, accept_client) (q, inl e, v)
  accept_client-IsIdle (some c) s h (q, inr (e, z), v) = absurd (omega (arith, z))

  -- The only client that a list of at most one has.
  alone :
      (before after xs : List ℕ) (c : ℕ)
      → xs ≡ before ++ (c ∷ after)
      → length xs ≤ 1
      → (xs ≡ c ∷ []) × (before ++ after ≡ [])
  alone [] [] xs c e h = (e, refl)
  alone [] (y ∷ after) xs c e h = absurd (omega (arith, ap length e))
  alone (x ∷ before) after xs c e h =
      absurd (omega (arith, ap length e, length-append before (c ∷ after)))

  create_thread-IsIdle :
      (created : Bool) (before : List ℕ) (c : ℕ) (after : List ℕ) (s : App)
      → s.admitted ≡ before ++ (c ∷ after)
      → IsSingle s
      → IsIdle s
      → IsIdle (create_thread created before c after s)
  unfolding create_thread
  create_thread-IsIdle created before c after s e m (q, w, inr (empty, _)) =
      absurd (omega (arith, ap length empty, ap length e, length-append before (c ∷ after)))
  create_thread-IsIdle created before c after s e m (q, w, inl (same, clients)) = go created
    where
      only : (s.admitted ≡ c ∷ []) × (before ++ after ≡ [])
      only = alone before after s.admitted c e (omega (arith, m.one_client, m.one_server))

      go : (b : Bool) → IsIdle (create_thread b before c after s)
      go true = (q, w, inr (only.1, inr (c, sym same ∙ only.0, ap (λ xs. c ∷ xs) clients)))
      go false = (q, w, inr (only.1, inl clients))

  step-IsIdle : (s t : App) → Step NotStart s t → IsSingle s → IsIdle s → IsIdle t
  step-IsIdle s t (main_goes h _ _ _ p e) m v = step_at-IsIdle h s t p e v
  step-IsIdle s _ (accepts client _ _ h) m v = accept_client-IsIdle client s h v
  step-IsIdle s _ (creates created before c after _ _ e) m v =
      create_thread-IsIdle created before c after s e m v
  step-IsIdle s _ (ends _ _ h) m (q, _, v) =
      unfold server_ends in (q, inr (refl, omega (arith, m.one_server)), v)

  Steps-IsIdle : (s t : App) → Steps NotStart s t → IsSingle s → IsIdle s → IsIdle t
  Steps-IsIdle s _ (done _) m v = v
  Steps-IsIdle s t (more _ r _ first rest) m v =
      Steps-IsIdle r t rest (step-IsSingle s r first m) (step-IsIdle s r first m v)

-- When the main thread is at its loop on PAUSE, with at most one server thread and at most one client
-- past its test: in every order of the threads' steps, and until a line says `start`, no client is
-- given to a thread but the one that was past the test already, if there was one; and the status is
-- PAUSE, or STOP with no server thread left.
pub Steps-paused :
    (s t : App)
    → IsSingle s
    → s.place ≡ reading
    → s.status ≡ paused
    → Steps NotStart s t
    → ((t.served ≡ s.served) ⊎ ((c : ℕ) × (s.admitted ≡ c ∷ []) × (t.served ≡ c ∷ s.served)))
      × ((t.status ≡ paused) ⊎ ((t.status ≡ stopped) × (t.servers ≡ 0)))
Steps-paused s t m q e run =
    let (_, w, follows) =
      Steps-IsIdle s.admitted s.served s t run m (inl q, inl e, inl (refl, refl)) in
    elim follows [ inl (_, same) ↦ (inl same, w) | inr (_, one) ↦ (one, w) ]
