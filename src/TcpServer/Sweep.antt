-- ===== src/TcpServer/Sweep.antt =====
-- A pass over the descriptors that empties some places, as SelectHandler makes it.
use compile_service.Common.{
  ℕ, zero, suc, ◌<◌, ◌≡◌, refl, Bool, true, false, ◌&&◌, List, [], ◌∷◌, ◌==◌, ==_iff, ltb, lt→ltb,
  le→ltb-false, if◌then◌else◌, length, get_or, set, arith, Bool-cases, inl, inr,
}

pub get_or-set :
    {A : Type 0} (xs : List A) (i k : ℕ) (v d : A)
    → i < length xs
    → get_or (set xs i v) k d ≡ (if k == i then v else get_or xs k d)
get_or-set [] i k v d h = absurd (omega arith)
get_or-set (x ∷ xs) zero zero v d h = refl
get_or-set (x ∷ xs) zero (suc k) v d h = let e : (suc k == 0) ≡ false = ground arith in rw e
get_or-set (x ∷ xs) (suc i) zero v d h = let e : (0 == suc i) ≡ false = ground arith in rw e
get_or-set (x ∷ xs) (suc i) (suc k) v d h =
    let e : (suc k == suc i) ≡ (k == i) = ground arith in rw e (get_or-set xs i k v d (omega arith))

-- What a sweep that is at `i` has made of `f`: `v` at the places behind it that are gone.
abbrev pub swept : {A : Type 0} → (ℕ → Bool) → ℕ → A → (ℕ → A) → ℕ → A
swept gone i v f k = if ltb k i && gone k then v else f k

module _ {A : Type 0} (gone : ℕ → Bool) (i k : ℕ) (v : A) (f : ℕ → A) where
  pub swept-at : k ≡ i → swept gone i v f k ≡ f k
  swept-at e = ground (arith, e)

  not_yet : (k == i) ≡ false → ltb k (suc i) ≡ ltb k i
  not_yet e = ground arith

  pub swept-gone :
      gone i ≡ true → (if k == i then v else swept gone i v f k) ≡ swept gone (suc i) v f k
  swept-gone g = elim (Bool-cases (k == i)) [
    | inl e ↦ let same = (==_iff k i).0 e in rw (e, same, lt→ltb i (suc i) (omega arith), g)
    | inr e ↦ rw (e, not_yet e)
  ]

  pub swept-kept : gone i ≡ false → swept gone i v f k ≡ swept gone (suc i) v f k
  swept-kept g = elim (Bool-cases (k == i)) [
    | inl e ↦
        let same = (==_iff k i).0 e in
        rw (same, lt→ltb i (suc i) (omega arith), le→ltb-false i i (omega arith), g)
    | inr e ↦ rw (not_yet e)
  ]
