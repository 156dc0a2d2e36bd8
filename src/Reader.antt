-- ===== src/Reader.antt =====
-- The interface of `read(2)` on one descriptor, as msg_parser.c uses it. The system is a parameter.
use compile_service.Common.{ℕ, ◌≤◌, ◌<◌, [], ◌≡◌, List, ◌++◌, length, ◌⊎◌, inl, inr, refl}

-- `got []` is the answer 0, `failed` a negative one.
pub data Read : Type 0 where
  got : List ℕ → Read
  failed : Read

-- `pending` are the bytes that the descriptor still has to give, now or later.
pub record Reader : Type 1 where
  pub World : Type 0
  pub read : World → ℕ → Read × World
  pub pending : World → List ℕ
  pub read_got :
      (w w' : World) (n : ℕ) (bs : List ℕ)
      → read w n ≡ (got bs, w')
      → (length bs ≤ n) × (pending w ≡ bs ++ pending w')
  pub read_failed : (w w' : World) (n : ℕ) → read w n ≡ (failed, w') → pending w ≡ pending w'

pub Read-cases {ℓ} :
    {W : Type ℓ} (x : Read × W)
    → ((w : W) × (x ≡ (failed, w))) ⊎ ((bs : List ℕ) × (w : W) × (x ≡ (got bs, w)))
Read-cases (got bs, w) = inr (bs, w, refl)
Read-cases (failed, w) = inl (w, refl)

-- No `read` of some bytes fails, and it gives no byte only when there is none.
abbrev pub IsSteady : Reader → Type 0
IsSteady F =
    (f : Reader.World F) (n : ℕ)
    → 0 < n
    → (bs : List ℕ) × ((Reader.read F f n).0 ≡ got bs) × (bs ≡ [] → Reader.pending F f ≡ [])
