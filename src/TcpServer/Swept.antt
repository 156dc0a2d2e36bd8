-- ===== src/TcpServer/Swept.antt =====
-- What SelectHandler does to each client that is ready, and what the listener hears.
use compile_service.Common.{
  ℕ, zero, suc, ◌+◌, ◌<◌, ◌≡◌, refl, ap, ◌∙◌, subst, Bool, true, false, not, ◌&&◌, List, [], ◌∷◌,
  Option, none, some, ◌==◌, ltb, lt→ltb, if◌then◌else◌, length, length-set, get_or, set, ok, ◌>>=◌,
  arith, Bool-cases, inl, inr,
}
use compile_service.TcpClient.{Client}
use compile_service.TcpServer.Sweep.{get_or-set, swept, swept-at, swept-gone, swept-kept}
use compile_service.TcpServer.{
  fd_size, Server, Event, evt_data, evt_close, Select, with_bit, call, call_close, listen_to,
  is_server, select_one, select_loop, select_handler,
}

abbrev heard_close : Option Client → List (Option Client × Event) → List (Option Client × Event)
heard_close none before = before
heard_close (some c) before = (some c, evt_close) ∷ before

module _ (server : Server) (rset : ℕ → Bool) (accepted : Option ℕ) (from : ℕ → Option Client)
    (talks : Option Client → Bool) (max : ℕ) where
  abbrev pub client_at : ℕ → Option Client
  client_at k = get_or server.clients k none

  -- Ready, but with nothing to say.
  abbrev pub gone : ℕ → Bool
  gone k = rset k && not (talks (client_at k))

  -- What the listener hears of the descriptors below `i`, the last one first.
  abbrev pub heard : ℕ → List (Option Client × Event)
  heard zero = []
  heard (suc i) =
      let before = heard i in
      if rset i
      then (if talks (client_at i)
          then (client_at i, evt_data) ∷ before
          else heard_close (client_at i) before)
      else before

  module _ (reads : ℕ → Bool) where
    record IsSwept (i : ℕ) (st : Select) : Type 0 where
      size : length st.clients ≡ fd_size
      ret_eq : st.ret ≡ max
      reads_eq : (k : ℕ) → st.reads k ≡ swept gone i false reads k
      clients_eq : (k : ℕ) → get_or st.clients k none ≡ swept gone i none client_at k
      calls_eq : st.calls ≡ heard i

    keep :
        (i : ℕ) (st st' : Select)
        → gone i ≡ false
        → st'.clients ≡ st.clients
        → st'.ret ≡ st.ret
        → st'.reads ≡ st.reads
        → st'.calls ≡ heard (suc i)
        → IsSwept i st
        → IsSwept (suc i) st'
    keep i st st' g c r b h v = record {
      size = ap length c ∙ v.size;
      ret_eq = r ∙ v.ret_eq;
      reads_eq =
          λ k. ap (λ (f : ℕ → Bool). f k) b ∙ v.reads_eq k ∙ swept-kept gone i k false reads g;
      clients_eq = λ k.
          ap (λ (xs : List (Option Client)). get_or xs k none) c
          ∙ v.clients_eq k
          ∙ swept-kept gone i k none client_at g;
      calls_eq = h;
    }

    call_close_fields :
        (c : Option Client) (st : Select)
        → ((call_close c st).calls ≡ heard_close c st.calls) × ((call_close c st).ret ≡ st.ret)
    call_close_fields none st = (refl, refl)
    call_close_fields (some c) st = (refl, refl)

    abbrev without : ℕ → Select → Select
    without i st = record (call_close (get_or st.clients i none) st) {
      clients = set st.clients i none;
      reads = with_bit i false st.reads;
    }

    drop_client :
        (i : ℕ) (st : Select)
        → i < fd_size
        → rset i ≡ true
        → talks (client_at i) ≡ false
        → IsSwept i st
        → IsSwept (suc i) (without i st)
    drop_client i st h r t v =
        let g : gone i ≡ true = rw (r, t) in
        let here : get_or st.clients i none ≡ client_at i =
          v.clients_eq i ∙ swept-at gone i i none client_at refl in
        let (calls, ret) = call_close_fields (get_or st.clients i none) st in
        record {
          size = length-set st.clients i none ∙ v.size;
          ret_eq = ret ∙ v.ret_eq;
          reads_eq = λ k.
              ap (λ b. if k == i then false else b) (v.reads_eq k)
              ∙ swept-gone gone i k false reads g;
          clients_eq = λ k.
              get_or-set st.clients i k none none (omega (arith, v.size))
              ∙ ap (λ c. if k == i then none else c) (v.clients_eq k)
              ∙ swept-gone gone i k none client_at g;
          calls_eq =
              calls
              ∙ ap (λ c. heard_close c st.calls) here
              ∙ ap (heard_close (client_at i)) v.calls_eq
              ∙ rw (r, t);
        }

    module _ (listens : server.listener ≡ true)
        (others : (k : ℕ)
          → rset k ≡ true
          → is_server server rset accepted from talks max k server.fd ≡ false)
        (fits : max < fd_size) where
      ready_client :
          (i : ℕ) (st : Select)
          → i < fd_size
          → rset i ≡ true
          → IsSwept i st
          → (st' : Select) × (listen_to server rset accepted from talks max i evt_data st ≡ ok st')
            × IsSwept (suc i) st'
      unfolding listen_to
      ready_client i st h r v =
          let c = get_or st.clients i none in
          let here : c ≡ client_at i = v.clients_eq i ∙ swept-at gone i i none client_at refl in
          let small = lt→ltb i fd_size h in
          elim (Bool-cases (talks (client_at i))) [
            | inl t ↦ (
              call c evt_data st,
              rw (small, listen_to, ap talks here ∙ t),
              keep i st (call c evt_data st) (rw (r, t)) refl refl refl
                  (ap (λ x. (x, evt_data) ∷ st.calls) here
                    ∙ ap (◌∷◌ (client_at i, evt_data)) v.calls_eq
                    ∙ rw (r, t))
                  v,
            )
            | inr t ↦
                (without i st, rw (small, listen_to, ap talks here ∙ t), drop_client i st h r t v)
          ]

      sweep_one :
          (i : ℕ) (st : Select)
          → i < fd_size
          → IsSwept i st
          → (st' : Select) × (select_one server rset accepted from talks max i st ≡ ok st')
            × IsSwept (suc i) st'
      unfolding select_one
      sweep_one i st h v = elim (Bool-cases (rset i)) [
        | inr r ↦ (st, rw r, keep i st st (rw r) refl refl refl (v.calls_eq ∙ rw r) v)
        | inl r ↦
            let (st', run, w) = ready_client i st h r v in
            let heeded = listen_to server rset accepted from talks max i evt_data st in
            (st', rw (r, others i r) (ap (λ b. if b then heeded else ok st) listens ∙ run), w)
      ]

      sweep_loop :
          (n i : ℕ) (st : Select)
          → i + n ≡ suc max
          → IsSwept i st
          → (st' : Select) × (select_loop server rset accepted from talks max n i st ≡ ok st')
            × IsSwept (suc max) st'
      unfolding select_loop
      sweep_loop zero i st e v = (st, refl, subst (λ k. IsSwept k st) (omega arith) v)
      sweep_loop (suc n) i st e v =
          let (st1, run, w) = sweep_one i st (omega arith) v in
          let (st2, runs, u) = sweep_loop n (suc i) st1 (omega arith) w in
          (
            st2,
            ap (λ o. o >>= λ st'. select_loop server rset accepted from talks max n (suc i) st') run
                ∙ runs,
            u,
          )

      -- SelectHandler with a listener, on a server with a place for each descriptor up to `max`, when
      -- its own descriptor is not ready: the listener hears, in the order of the descriptors, of each
      -- one that is ready, that there are data if the client is valid or has bytes that wait, and else,
      -- if there is a client, that it has gone. Such a descriptor is watched no longer, and its place is
      -- empty; every other descriptor is watched as before and has its client; and the bound is as before.
      pub select_handler-swept :
          length server.clients ≡ fd_size
          → (st : Select) × (select_handler server rset accepted from talks max reads ≡ ok st)
            × (st.ret ≡ max)
            × (st.calls ≡ heard (suc max))
            × ((k : ℕ) → st.reads k ≡ swept gone (suc max) false reads k)
            × ((k : ℕ) → get_or st.clients k none ≡ swept gone (suc max) none client_at k)
      unfolding select_handler
      select_handler-swept size =
          let start : Select = record {
            clients = server.clients;
            reads = reads;
            ret = max;
            calls = [];
          } in
          let held : IsSwept 0 start = record {
            size = size;
            ret_eq = refl;
            reads_eq = λ k. let e = none_below k in rw e;
            clients_eq = λ k. let e = none_below k in rw e;
            calls_eq = refl;
          } in
          let (st, run, v) = sweep_loop (suc max) 0 start (omega arith) held in
          (st, run, v.ret_eq, v.calls_eq, v.reads_eq, v.clients_eq)
        where
          none_below : (k : ℕ) → ltb k 0 ≡ false
          none_below k = ground arith
