-- ===== src/Common/Effects.antt =====
-- What a piece of the C code does when it runs: it returns, it reads or writes outside an object
-- (undefined behaviour in C, `fault` here), or it uses up the rounds that the model allows it.
use mathlib.Core.Path.{◌≡◌, refl}

pub data Outcome {ℓ} (A : Type ℓ) : Type ℓ where
  ok : A → Outcome A
  fault : Outcome A
  stuck : Outcome A

infixl 5 ◌>>=◌
-- Later code runs only behind code that returns.
abbrev pub ◌>>=◌ {ℓ κ} : {A : Type ℓ} {B : Type κ} → Outcome A → (A → Outcome B) → Outcome B
stuck >>= later = stuck
fault >>= later = fault
ok value >>= later = later value

module _ {ℓ κ} {A : Type ℓ} {B : Type κ} (later : A → Outcome B) where
  -- Where the whole returns, the first part has returned.
  pub >>=-returns :
      {end : B} (first : Outcome A)
      → (first >>= later) ≡ ok end
      → (value : A) × (first ≡ ok value) × (later value ≡ ok end)
  >>=-returns stuck e = cc
  >>=-returns fault e = cc
  >>=-returns (ok value) e = (value, refl, e)

pub >>=_assoc {ℓ κ μ} :
    {A : Type ℓ} {B : Type κ} {C : Type μ} (o : Outcome A) (f : A → Outcome B) (g : B → Outcome C)
    → ((o >>= f) >>= g) ≡ (o >>= λ a. f a >>= g)
>>=_assoc stuck f g = refl
>>=_assoc fault f g = refl
>>=_assoc (ok a) f g = refl
