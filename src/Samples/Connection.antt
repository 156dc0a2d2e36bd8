-- ===== src/Samples/Connection.antt =====
-- The connection and the file of the tests never fail.
use compile_service.Common.{ℕ, zero, suc, ◌<◌, ◌≡◌, refl, List, [], ◌∷◌, ◌++◌, take, arith}
use compile_service.Reader.{IsSteady}
use compile_service.Sender.{IsWhole}
use compile_service.Samples.{open_line, script}

pub open_line-IsWhole : IsWhole open_line
open_line-IsWhole w bs = (w ++ bs, refl)

taken_nil : (n : ℕ) (w : List ℕ) → 0 < n → take n w ≡ [] → w ≡ []
taken_nil n [] h e = refl
taken_nil zero (x ∷ w) h e = absurd (omega arith)
taken_nil (suc n) (x ∷ w) h e = cc

pub script-IsSteady : IsSteady script
script-IsSteady w n h = (take n w, refl, taken_nil n w h)
