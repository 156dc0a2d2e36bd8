-- ===== src/Sender.antt =====
-- The interface of `send(2)` on one connected descriptor, as tcp_client.c uses it. The system is a
-- parameter.
use compile_service.Common.{
  ℕ, ◌≤◌, ◌≡◌, List, ◌++◌, Option, none, some, take, length, refl, ◌⊎◌, inl, inr,
}

-- `sent` are the bytes that the descriptor has taken so far. `none` is the answer -1. The bytes of a
-- `some` answer are the first ones of the buffer.
pub record Sender : Type 1 where
  pub World : Type 0
  pub send : World → List ℕ → Option ℕ × World
  pub sent : World → List ℕ
  pub send_some :
      (w w' : World) (bs : List ℕ) (k : ℕ)
      → send w bs ≡ (some k, w')
      → (k ≤ length bs) × (sent w' ≡ sent w ++ take k bs)
  pub send_none : (w w' : World) (bs : List ℕ) → send w bs ≡ (none, w') → sent w' ≡ sent w

pub Send-cases {ℓ} :
    {W : Type ℓ} (x : Option ℕ × W)
    → ((w : W) × (x ≡ (none, w))) ⊎ ((k : ℕ) × (w : W) × (x ≡ (some k, w)))
Send-cases (none, w) = inl (w, refl)
Send-cases (some k, w) = inr (k, w, refl)

-- Every call of `send` takes all bytes of the buffer.
abbrev pub IsWhole : Sender → Type 0
IsWhole S =
    (w : Sender.World S) (bs : List ℕ)
    → (w' : Sender.World S) × (Sender.send S w bs ≡ (some (length bs), w'))
