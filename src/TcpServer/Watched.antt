-- ===== src/TcpServer/Watched.antt =====
-- The descriptors that `select` watches, and the bound on them that SelectHandler hands on.
use compile_service.Common.{
  ℕ, zero, suc, ◌+◌, ◌≤◌, ◌<◌, ◌≡◌, refl, sym, ap, ◌∙◌, subst, Bool, true, false, ◌||◌, [], Option,
  none, some, ◌==◌, ==_iff, ltb, lt→ltb, if◌then◌else◌, length, length-set, get_or, set, ok, ◌>>=◌,
  arith, Bool-cases, inl, inr, ◌⊎◌,
}
use compile_service.TcpClient.{Client}
use compile_service.TcpServer.{
  fd_size, Server, Event, evt_conn, evt_data, is_conn, Select, with_bit, call, call_close,
  listen_to, tell, accept_one, is_server, select_one, select_loop, select_handler,
}

module _ (server : Server) (rset : ℕ → Bool) (accepted : Option ℕ) (from : ℕ → Option Client)
    (talks : Option Client → Bool) (max : ℕ) where
  -- Before round `i`: there is a place for each descriptor, `ret` bounds what is watched, and it is
  -- still `max` unless the round of the server's own descriptor is over.
  record IsWatched (i : ℕ) (st : Select) : Type 0 where
    size : length st.clients ≡ fd_size
    ret_fits : st.ret < fd_size
    ret_ge : max ≤ st.ret
    bounded : (k : ℕ) → st.reads k ≡ true → k ≤ st.ret
    once : (st.ret ≡ max) ⊎ ((f : ℕ) × (server.fd ≡ some f) × (f < i))

  next_round : (i : ℕ) (st : Select) → IsWatched i st → IsWatched (suc i) st
  next_round i st v = record {
    size = v.size;
    ret_fits = v.ret_fits;
    ret_ge = v.ret_ge;
    bounded = v.bounded;
    once = elim v.once [ inl e ↦ inl e | inr (f, e, h) ↦ inr (f, e, omega arith) ];
  }

  called :
      (i : ℕ) (client : Option Client) (e : Event) (st : Select)
      → IsWatched i st
      → IsWatched i (call client e st)
  called i client e st v = record {
    size = v.size;
    ret_fits = v.ret_fits;
    ret_ge = v.ret_ge;
    bounded = v.bounded;
    once = v.once;
  }

  call_close_ret : (client : Option Client) (st : Select) → (call_close client st).ret ≡ st.ret
  call_close_ret none st = refl
  call_close_ret (some c) st = refl

  without_bit : (i k : ℕ) (reads : ℕ → Bool) → with_bit i false reads k ≡ true → reads k ≡ true
  without_bit i k reads e = elim (Bool-cases (k == i)) [
    | inl g ↦ absurd (absurd_bit (subst (λ b. (if b then false else reads k) ≡ true) g e))
    | inr g ↦ subst (λ b. (if b then false else reads k) ≡ true) g e
  ]
    where
      absurd_bit : false ≡ true → ⊥
      absurd_bit e = cc

  listen_to_lem :
      (i index : ℕ) (e : Event) (st : Select)
      → index < fd_size
      → IsWatched i st
      → (st' : Select) × (listen_to server rset accepted from talks max index e st ≡ ok st')
        × IsWatched i st'
  unfolding listen_to
  listen_to_lem i index e st h v =
      let client = get_or st.clients index none in
      let fits = lt→ltb index fd_size h in
      elim (Bool-cases (talks client || is_conn e)) [
        | inl g ↦ (call client e st, rw (fits, listen_to, g), called i client e st v)
        | inr g ↦ (
          record (call_close client st) {
            clients = set st.clients index none;
            reads = with_bit index false st.reads;
          },
          rw (fits, listen_to, g),
          record {
            size = length-set st.clients index none ∙ v.size;
            ret_fits = omega (arith, call_close_ret client st, v.ret_fits);
            ret_ge = omega (arith, call_close_ret client st, v.ret_ge);
            bounded = λ k b.
                omega
                  (arith, call_close_ret client st, v.bounded k (without_bit index k st.reads b));
            once = elim v.once [ inl q ↦ inl (call_close_ret client st ∙ q) | inr q ↦ inr q ];
          },
        )
      ]

  tell_lem :
      (i index : ℕ) (e : Event) (st : Select)
      → index < fd_size
      → IsWatched i st
      → (st' : Select) × (tell server rset accepted from talks max index e st ≡ ok st')
        × IsWatched i st'
  tell_lem i index e st h v =
      let listened = listen_to server rset accepted from talks max index e st in
      let (st', run, w) = listen_to_lem i index e st h v in
      elim (Bool-cases server.listener) [
        | inl g ↦ (st', ap (λ b. if b then listened else ok st) g ∙ run, w)
        | inr g ↦ (st, ap (λ b. if b then listened else ok st) g, v)
      ]

  watches :
      (a k bound : ℕ) (reads : ℕ → Bool)
      → with_bit a true reads k ≡ true
      → a ≤ bound
      → (reads k ≡ true → k ≤ bound)
      → k ≤ bound
  watches a k bound reads e h old = elim (Bool-cases (k == a)) [
    | inl g ↦ omega (arith, (==_iff k a).0 g)
    | inr g ↦ old (subst (λ b. (if b then true else reads k) ≡ true) g e)
  ]

  module _ (a : ℕ) (granted : accepted ≡ some a) (a_fits : a < fd_size)
      (max_fits : max < fd_size) where
    added : Select → Select
    added st = record st {
      clients = set st.clients a (from a);
      reads = with_bit a true st.reads;
      ret = if ltb max a then a else max;
    }

    added-IsWatched :
        (f : ℕ) (st : Select) → server.fd ≡ some f → IsWatched f st → IsWatched (suc f) (added st)
    unfolding added
    added-IsWatched f st e v =
        let still : st.ret ≡ max = elim v.once [
          | inl q ↦ q
          | inr (f', e', h) ↦ absurd (omega (arith, some_injective (sym e ∙ e')))
        ] in
        record {
          size = length-set st.clients a (from a) ∙ v.size;
          ret_fits = ground arith;
          ret_ge = ground arith;
          bounded = λ k b.
              watches a k (if ltb max a then a else max) st.reads b (ground arith)
                (λ o. ground (arith, v.bounded k o, still));
          once = inr (f, e, omega arith);
        }
      where
        some_injective : {x y : ℕ} → some x ≡ some y → x ≡ y
        some_injective e = cc

    accept_one_lem :
        (f : ℕ) (st : Select)
        → server.fd ≡ some f
        → IsWatched f st
        → (st' : Select) × (accept_one server rset accepted from talks max accepted st ≡ ok st')
          × IsWatched (suc f) st'
    unfolding accept_one added
    accept_one_lem f st e v =
        let (st', run, w) =
          tell_lem (suc f) a evt_conn (added st) a_fits (added-IsWatched f st e v) in
        (st', rw (granted, accept_one, lt→ltb a fd_size a_fits) run, w)

    server_found :
        (i : ℕ) (fd : Option ℕ)
        → is_server server rset accepted from talks max i fd ≡ true
        → fd ≡ some i
    server_found i none e = cc
    server_found i (some f) e = ap some (sym ((==_iff i f).0 e))

    select_one_lem :
        (i : ℕ) (st : Select)
        → i ≤ max
        → IsWatched i st
        → (st' : Select) × (select_one server rset accepted from talks max i st ≡ ok st')
          × IsWatched (suc i) st'
    unfolding select_one
    select_one_lem i st h v = elim (Bool-cases (rset i)) [
      | inr r ↦ (st, rw r, next_round i st v)
      | inl r ↦ elim (Bool-cases (is_server server rset accepted from talks max i server.fd)) [
        | inl s ↦
            let (st', run, w) = accept_one_lem i st (server_found i server.fd s) v in
            (st', rw (r, s) run, w)
        | inr s ↦
            let (st', run, w) = tell_lem i i evt_data st (omega arith) v in
            (st', rw (r, s) run, next_round i st' w)
      ]
    ]

    select_loop_lem :
        (n i : ℕ) (st : Select)
        → i + n ≤ suc max
        → IsWatched i st
        → (st' : Select) × (select_loop server rset accepted from talks max n i st ≡ ok st')
          × IsWatched (i + n) st'
    unfolding select_loop
    select_loop_lem zero i st h v = (st, refl, subst (λ k. IsWatched k st) (omega arith) v)
    select_loop_lem (suc n) i st h v =
        let (st1, run, w) = select_one_lem i st (omega arith) v in
        let (st2, runs, u) = select_loop_lem n (suc i) st1 (omega arith) w in
        (
          st2,
          ap (λ o. o >>= λ st'. select_loop server rset accepted from talks max n (suc i) st') run
              ∙ runs,
          subst (λ k. IsWatched k st2) (omega arith) u,
        )

    -- SelectHandler, when `accept` gives a descriptor for which there is a place, on a server with a
    -- place for each descriptor up to `max`: no place outside the array is touched, whatever the
    -- clients do. What is watched behind it is at most the bound that it answers, for which there is
    -- a place again; so the next `select` looks at every descriptor that is watched, and DoWork may
    -- go on with the answer.
    pub select_handler_lem :
        (reads : ℕ → Bool)
        → length server.clients ≡ fd_size
        → ((k : ℕ) → reads k ≡ true → k ≤ max)
        → (st : Select) × (select_handler server rset accepted from talks max reads ≡ ok st)
          × (length st.clients ≡ fd_size)
          × (max ≤ st.ret)
          × (st.ret < fd_size)
          × ((k : ℕ) → st.reads k ≡ true → k ≤ st.ret)
    unfolding select_handler
    select_handler_lem reads size bound =
        let start : Select = record {
          clients = server.clients;
          reads = reads;
          ret = max;
          calls = [];
        } in
        let held : IsWatched 0 start = record {
          size = size;
          ret_fits = max_fits;
          ret_ge = omega arith;
          bounded = bound;
          once = inl refl;
        } in
        let (st, run, v) = select_loop_lem (suc max) 0 start (omega arith) held in
        (st, run, v.size, v.ret_ge, v.ret_fits, v.bounded)
