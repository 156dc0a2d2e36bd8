-- ===== src/TcpServer/Work.antt =====
-- TcpServer_DoWork over any number of rounds.
use compile_service.Common.{
  ℕ, ◌≤◌, ◌<◌, ◌≡◌, refl, ap, ◌∙◌, Bool, true, false, List, [], ◌∷◌, Option, none, some, lt→ltb,
  if◌then◌else◌, length, All, Outcome, ok, ◌>>=◌, arith,
}
use compile_service.TcpClient.{Client}
use compile_service.TcpServer.{
  fd_size, Server, Select, with_bit, Round, work_loop, start_work, do_work,
}
use compile_service.TcpServer.Watched.{select_handler_lem}

-- A round in which `accept`, if it is called, gives a descriptor below FD_SIZE; or a timeout.
abbrev pub IsRound : Option Round → Type 0
IsRound none = Unit {0}
IsRound (some r) = (a : ℕ) × (r.accepted ≡ some a) × (a < fd_size)

-- There is a place for each descriptor up to `max`, and no other is watched.
pub record IsServing (s : Server) (reads : ℕ → Bool) (max : ℕ) : Type 0 where
  pub size : length s.clients ≡ fd_size
  pub max_fits : max < fd_size
  pub bounded : (k : ℕ) → reads k ≡ true → k ≤ max

work_loop_lem :
    (from : ℕ → Option Client) (rounds : List (Option Round)) (s : Server) (reads : ℕ → Bool)
    (max : ℕ)
    → All IsRound rounds
    → IsServing s reads max
    → (s' : Server) × (reads' : ℕ → Bool) × (max' : ℕ) × (work_loop from rounds s reads max
        ≡ ok (s', reads', max'))
      × (max ≤ max')
      × IsServing s' reads' max'
unfolding work_loop
work_loop_lem from [] s reads max all v = (s, reads, max, refl, omega arith, v)
work_loop_lem from (none ∷ rounds) s reads max (_, all) v =
    work_loop_lem from rounds s reads max all v
work_loop_lem from (some r ∷ rounds) s reads max ((a, e, h), all) v =
    let (st, run, size, ge, fits, bound) =
      select_handler_lem s r.rset r.accepted from r.talks max a e h v.max_fits reads v.size
        v.bounded in
    let (s', reads', max', runs, le, w) =
      work_loop_lem from rounds (record s { clients = st.clients }) st.reads st.ret all
        (record { size = size; max_fits = fits; bounded = bound }) in
    (
      s',
      reads',
      max',
      ap
            (λ (o : Outcome Select).
              o >>= λ x. work_loop from rounds (record s { clients = x.clients }) x.reads x.ret)
            run
          ∙ runs,
      omega (arith, ge, le),
      w,
    )

-- TcpServer_DoWork on a valid server, whatever is ready in each round and whatever the clients do,
-- as long as `accept` gives descriptors below FD_SIZE: no place outside the array of clients is
-- touched, and after every number of rounds the bound for `select` covers each watched descriptor,
-- the server's own included, and stays below FD_SIZE.
pub do_work_lem :
    (from : ℕ → Option Client) (rounds : List (Option Round)) (s : Server) (fd : ℕ)
    → s.valid ≡ true
    → s.fd ≡ some fd
    → fd < fd_size
    → length s.clients ≡ fd_size
    → All IsRound rounds
    → (s' : Server) × (reads : ℕ → Bool) × (max : ℕ) × (do_work from rounds (some s)
        ≡ ok (some (s', reads, max)))
      × (fd ≤ max)
      × IsServing s' reads max
unfolding do_work
do_work_lem from rounds s fd valid e h size all =
    let own : (k : ℕ) → with_bit fd true (λ _. false) k ≡ true → k ≤ fd = λ k b. ground arith in
    let (s', reads, max, run, le, w) =
      work_loop_lem from rounds s (with_bit fd true (λ k. false)) fd all
        (record { size = size; max_fits = h; bounded = own }) in
    let begun : start_work from rounds s (some fd) ≡ ok (some (s', reads, max)) =
      started s' reads max run in
    (
      s',
      reads,
      max,
      ap (λ b. if b then start_work from rounds s s.fd else ok none) valid
          ∙ ap (start_work from rounds s) e
          ∙ begun,
      le,
      w,
    )
  where
    started :
        (s' : Server) (reads : ℕ → Bool) (max : ℕ)
        → work_loop from rounds s (with_bit fd true (λ k. false)) fd ≡ ok (s', reads, max)
        → start_work from rounds s (some fd) ≡ ok (some (s', reads, max))
    started s' reads max run = unfold start_work in rw (lt→ltb fd fd_size h) (rw run)
