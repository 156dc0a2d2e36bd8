-- ===== src/TcpServer/Failing.antt =====
-- A failed `accept` on a server with a listener.
use compile_service.Common.{
  ℕ, zero, suc, ◌+◌, ◌<◌, ◌≡◌, ap, ◌∙◌, Bool, true, false, List, [], ◌∷◌, Option, none, some,
  ==_refl, lt→ltb, if◌then◌else◌, Outcome, ok, fault, ◌>>=◌, arith,
}
use compile_service.TcpClient.{Client}
use compile_service.TcpServer.{
  fd_size, Server, Select, with_bit, accept_one, is_server, select_one, select_loop, select_handler,
  Round, work_loop, start_work, do_work,
}

module _ (server : Server) (rset : ℕ → Bool) (from : ℕ → Option Client)
    (talks : Option Client → Bool) (max : ℕ) where
  abbrev loop : ℕ → ℕ → Select → Outcome Select
  loop = select_loop server rset none from talks max

  -- Rounds on descriptors that are not ready change nothing.
  idle_rounds :
      (n m i : ℕ) (st : Select)
      → ((k : ℕ) → k < i + n → rset k ≡ false)
      → loop (n + m) i st ≡ loop m (i + n) st
  unfolding select_loop select_one
  idle_rounds zero m i st quiet =
      let e : 0 + m ≡ m = omega arith in let f : i + 0 ≡ i = omega arith in rw (e, f)
  idle_rounds (suc n) m i st quiet =
      let e : suc n + m ≡ suc (n + m) = omega arith in
      let f : suc i + n ≡ i + suc n = omega arith in
      rw e (
        rw (quiet i (omega arith))
          (idle_rounds n m (suc i) st (λ k h. quiet k (omega arith)) ∙ ap (λ j. loop m j st) f))

  accept_fails :
      (fd m : ℕ) (st : Select)
      → server.fd ≡ some fd
      → server.listener ≡ true
      → rset fd ≡ true
      → loop (suc m) fd st ≡ fault
  unfolding select_loop
  accept_fails fd m st e l r = ap (λ o. o >>= λ st'. loop m (suc fd) st') one
    where
      found : is_server server rset none from talks max fd server.fd ≡ true
      found = ap (is_server server rset none from talks max fd) e ∙ ==_refl fd

      told : accept_one server rset none from talks max none st ≡ fault
      told = unfold accept_one in ap (λ b. if b then fault else ok st) l

      one : select_one server rset none from talks max fd st ≡ fault
      one = unfold select_one in rw (r, found) told

-- TcpServer_DoWork on a valid server with a listener, when nothing but the server's own descriptor
-- is ready and `accept` then fails, as it does when a client has gone again: the place before the
-- first of the array of clients is read.
pub do_work-fault :
    (from : ℕ → Option Client) (r : Round) (rounds : List (Option Round)) (s : Server) (fd : ℕ)
    → s.valid ≡ true
    → s.listener ≡ true
    → s.fd ≡ some fd
    → fd < fd_size
    → ((k : ℕ) → k < fd → r.rset k ≡ false)
    → r.rset fd ≡ true
    → r.accepted ≡ none
    → do_work from (some r ∷ rounds) (some s) ≡ fault
unfolding do_work
do_work-fault from r rounds s fd valid l e h quiet ready failed =
    ap (λ b. if b then start_work from (some r ∷ rounds) s s.fd else ok none) valid
    ∙ ap (start_work from (some r ∷ rounds) s) e
    ∙ begun
  where
    reads : ℕ → Bool
    reads = with_bit fd true (λ k. false)

    handled : select_handler s r.rset none from r.talks fd reads ≡ fault
    handled =
        let size : suc fd ≡ fd + 1 = omega arith in
        let st : Select = record { clients = s.clients; reads = reads; ret = fd; calls = [] } in
        let at : 0 + fd ≡ fd = omega arith in
        unfold select_handler in
        (ap (λ n. loop s r.rset from r.talks fd n 0 st) size
          ∙ idle_rounds s r.rset from r.talks fd fd 1 0 st (λ k k_lt. quiet k (omega arith))
          ∙ ap (λ j. loop s r.rset from r.talks fd 1 j st) at
          ∙ accept_fails s r.rset from r.talks fd fd 0 st e l ready)

    looped : work_loop from (some r ∷ rounds) s reads fd ≡ fault
    looped =
        unfold work_loop in
        (ap
            (λ a. select_handler s r.rset a from r.talks fd reads >>= λ st.
              work_loop from rounds (record s { clients = st.clients }) st.reads st.ret)
            failed
          ∙ ap
              (λ (o : Outcome Select). o >>= λ st.
                work_loop from rounds (record s { clients = st.clients }) st.reads st.ret)
              handled)

    begun : start_work from (some r ∷ rounds) s (some fd) ≡ fault
    begun =
        unfold start_work in
        rw (lt→ltb fd fd_size h)
          (ap (λ (o : Outcome (Server × (ℕ → Bool) × ℕ)). o >>= λ x. ok (some x)) looped)
