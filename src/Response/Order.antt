-- ===== src/Response/Order.antt =====
-- `strcmp` is a strict order.
use compile_service.Common.{ℕ, ◌≡◌, refl, true, false, List, [], ◌∷◌, arith}
use compile_service.Response.{str_lt}

pub str_lt_irrefl : (a : List ℕ) → str_lt a a ≡ false
unfolding str_lt
str_lt_irrefl [] = refl
str_lt_irrefl (x ∷ xs) = ground (arith, str_lt_irrefl xs)

pub str_lt_trans : (a b c : List ℕ) → str_lt a b ≡ true → str_lt b c ≡ true → str_lt a c ≡ true
unfolding str_lt
str_lt_trans [] [] c p q = cc
str_lt_trans [] (y ∷ ys) [] p q = cc
str_lt_trans [] (y ∷ ys) (z ∷ zs) p q = refl
str_lt_trans (x ∷ xs) [] c p q = cc
str_lt_trans (x ∷ xs) (y ∷ ys) [] p q = cc
str_lt_trans (x ∷ xs) (y ∷ ys) (z ∷ zs) p q = ground (arith, str_lt_trans xs ys zs)

pub str_lt_asym : (a b : List ℕ) → str_lt a b ≡ true → str_lt b a ≡ false
unfolding str_lt
str_lt_asym [] [] p = refl
str_lt_asym [] (y ∷ ys) p = refl
str_lt_asym (x ∷ xs) [] p = cc
str_lt_asym (x ∷ xs) (y ∷ ys) p = ground (arith, str_lt_asym xs ys)

pub str_lt_cotrans : (a b c : List ℕ) → str_lt a c ≡ true → str_lt b c ≡ false → str_lt a b ≡ true
unfolding str_lt
str_lt_cotrans [] [] [] p q = cc
str_lt_cotrans [] [] (z ∷ zs) p q = cc
str_lt_cotrans [] (y ∷ ys) c p q = refl
str_lt_cotrans (x ∷ xs) [] [] p q = cc
str_lt_cotrans (x ∷ xs) [] (z ∷ zs) p q = cc
str_lt_cotrans (x ∷ xs) (y ∷ ys) [] p q = cc
str_lt_cotrans (x ∷ xs) (y ∷ ys) (z ∷ zs) p q = ground (arith, str_lt_cotrans xs ys zs)
