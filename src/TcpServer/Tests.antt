-- ===== src/TcpServer/Tests.antt =====
-- A server with two clients at concrete inputs.
use compile_service.Common.{
  get_or, set, length-set, length, ◌||◌, Bool-cases, inl, inr, ==_iff, subst, ◌∙◌, ℕ, ◌<◌, fault,
  ◌≤◌, ◌≡◌, refl, Bool, true, false, List, [], ◌∷◌, Option, none, some, ◌==◌, length-replicate,
  replicate, All, ok, arith,
}
use compile_service.Samples.{client}
use compile_service.TcpClient.{Client}
use compile_service.TcpServer.Sweep.{swept}
use compile_service.TcpServer.Swept.{gone, heard, client_at, select_handler-swept}
use compile_service.TcpServer.{
  evt_data, evt_close, Select, select_handler, fd_size, Server, Round, do_work,
}
use compile_service.TcpServer.Failing.{do_work-fault}
use compile_service.TcpServer.Work.{IsRound, IsServing, do_work_lem}

abbrev server : Server
server = record { fd = some 3; valid = true; listener = true; clients = replicate fd_size none }

abbrev from : ℕ → Option Client
from fd = some (record client { fd = some fd })

-- The server's own descriptor is ready, and then the client's, which has gone.
abbrev rounds : List (Option Round)
rounds =
    some (record { rset = λ k. k == 3; accepted = some 7; talks = λ c. true })
    ∷ none
    ∷ some (record { rset = λ k. k == 7; accepted = some 8; talks = λ c. false })
    ∷ []

rounds-IsRound : All IsRound rounds
rounds-IsRound = ((7, refl, omega arith), (tt, ((8, refl, omega arith), tt)))

do_work_lem_example :
    (s' : Server) × (reads : ℕ → Bool) × (max : ℕ) × (do_work from rounds (some server)
      ≡ ok (some (s', reads, max)))
    × (3 ≤ max)
    × IsServing s' reads max
do_work_lem_example =
    do_work_lem from rounds server 3 refl refl (omega arith)
      (length-replicate {A = Option Client} 1024 none) rounds-IsRound

below_three : (k : ℕ) → k < 3 → (k == 3) ≡ false
below_three k h = ground arith

do_work-fault_example :
    do_work from
      (some (record { rset = λ k. k == 3; accepted = none; talks = λ c. true }) ∷ [])
      (some server)
    ≡ fault
do_work-fault_example =
    do_work-fault from (record { rset = λ k. k == 3; accepted = none; talks = λ c. true }) [] server
      3 refl refl refl (omega arith) below_three refl refl

-- A client at 7, and one at 9.
abbrev busy : Server
busy = record server { clients = set (set (replicate fd_size none) 7 (from 7)) 9 (from 9) }

abbrev both_ready : ℕ → Bool
both_ready k = (k == 7) || (k == 9)

abbrev nine_talks : Option Client → Bool
nine_talks none = false
nine_talks (some c) = elim c.fd [ none ↦ false | some fd ↦ fd == 9 ]

busy_size : length busy.clients ≡ fd_size
busy_size =
    length-set (set (replicate fd_size none) 7 (from 7)) 9 (from 9)
    ∙ length-set (replicate fd_size none) 7 (from 7)
    ∙ length-replicate {A = Option Client} fd_size none

client_ready : (k : ℕ) → both_ready k ≡ true → (k == 3) ≡ false
client_ready k e = elim (Bool-cases (k == 3)) [
  | inr f ↦ f
  | inl f ↦ absurd (three k ((==_iff k 3).0 f) e)
]
  where
    three : (k : ℕ) → k ≡ 3 → both_ready k ≡ true → ⊥
    three k same e = let wrong : both_ready 3 ≡ true = subst (λ j. both_ready j ≡ true) same e in cc

select_handler-swept_example :
    (st : Select) × (select_handler busy both_ready none from nine_talks 9 (λ k. k == 7) ≡ ok st)
    × (st.ret ≡ 9)
    × (st.calls ≡ heard busy both_ready none from nine_talks 9 10)
    × ((k : ℕ)
        → st.reads k ≡ swept (gone busy both_ready none from nine_talks 9) 10 false (λ j. j == 7) k)
    × ((k : ℕ)
        → get_or st.clients k none
          ≡ swept
              (gone busy both_ready none from nine_talks 9)
              10
              none
              (client_at busy both_ready none from nine_talks 9)
              k)
select_handler-swept_example =
    select_handler-swept busy both_ready none from nine_talks 9 (λ k. k == 7) refl client_ready
      (omega arith) busy_size

-- The client at 7 has gone, the one at 9 has something to say.
nine_heard :
    heard busy both_ready none from nine_talks 9 10 ≡ (from 9, evt_data) ∷ (from 7, evt_close) ∷ []
nine_heard = refl
