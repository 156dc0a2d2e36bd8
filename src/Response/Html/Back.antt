-- ===== src/Response/Html/Back.antt =====
-- Where the row back to the parent leads.
use compile_service.Common.{
  ℕ, zero, suc, ◌+◌, ◌≤◌, ◌<◌, ◌≡◌, refl, ap, subst, false, List, [], ◌∷◌, ◌++◌, some, ◌==◌,
  take-append_length, get_or, length, length-append, ok, arith, ◌≢◌, All,
}
use compile_service.Response.Paths.{slash}
use compile_service.Response.Html.{slash_from, back_link}

get_or-here : (xs ys : List ℕ) (y : ℕ) → get_or (xs ++ (y ∷ ys)) (length xs) 0 ≡ y
get_or-here [] ys y = refl
get_or-here (x ∷ xs) ys y = get_or-here xs ys y

-- No slash at the places above `k`, up to `k + n`.
slash_from-above :
    (link : List ℕ) (k n : ℕ)
    → get_or link k 0 ≡ slash
    → ((i : ℕ) → k < i → i ≤ n + k → get_or link i 0 ≢ slash)
    → slash_from link (n + k) ≡ some k
unfolding slash_from
slash_from-above link zero zero here above = rw here
slash_from-above link (suc k) zero here above =
    let e : 0 + suc k ≡ suc k = omega arith in rw e (rw here)
slash_from-above link k (suc n) here above =
    let miss : (get_or link (suc (n + k)) 0 == slash) ≡ false =
      ground (arith, above (suc (n + k)) (omega arith) (omega arith)) in
    let e : suc n + k ≡ suc (n + k) = omega arith in
    rw e (rw (miss, slash_from-above link k n here (λ i h m. above i h (omega arith))))

get_or-behind :
    (xs ys : List ℕ) (y i : ℕ)
    → All (λ c. c ≢ slash) ys
    → length xs < i
    → i ≤ length ys + length xs
    → get_or (xs ++ (y ∷ ys)) i 0 ≢ slash
get_or-behind (x ∷ xs) ys y zero a h m = absurd (omega arith)
get_or-behind (x ∷ xs) ys y (suc i) a h m = get_or-behind xs ys y i a (omega arith) (omega arith)
get_or-behind [] ys y zero a h m = absurd (omega arith)
get_or-behind [] [] y (suc i) a h m = absurd (omega arith)
get_or-behind [] (z ∷ ys) y (suc zero) (n, a) h m = n
get_or-behind [] (z ∷ ys) y (suc (suc i)) (n, a) h m =
    get_or-behind [] ys y (suc i) a (omega arith) (omega arith)

-- The row back, for a request whose last slash has something before it, leads to what stands before
-- that slash; for one whose only slash is the first character, it leads to the root.
pub back_link_lem :
    (front name : List ℕ)
    → All (λ c. c ≢ slash) name
    → (front ≢ [] → back_link (front ++ (slash ∷ name)) ≡ ok front)
      × (back_link (slash ∷ name) ≡ ok (slash ∷ []))
unfolding back_link
back_link_lem front name a = (λ h. before front h, root)
  where
    last :
        (xs : List ℕ)
        → slash_from (xs ++ (slash ∷ name)) (length name + length xs) ≡ some (length xs)
    last xs =
        slash_from-above (xs ++ (slash ∷ name)) (length xs) (length name)
          (get_or-here xs name slash) (λ i h m. get_or-behind xs name slash i a h m)

    root : back_link (slash ∷ name) ≡ ok (slash ∷ [])
    root =
        let e : length name + 0 ≡ length name = omega arith in
        let found : slash_from (slash ∷ name) (length name) ≡ some 0 =
          subst (λ n. slash_from (slash ∷ name) n ≡ some 0) e (last []) in
        rw (found, back_link)

    before : (xs : List ℕ) → xs ≢ [] → back_link (xs ++ (slash ∷ name)) ≡ ok xs
    before [] h = absurd (h refl)
    before (x ∷ xs) h =
        let e : length name + suc (length xs) ≡ length (xs ++ (slash ∷ name)) =
          omega (arith, length-append xs (slash ∷ name)) in
        let found : slash_from ((x ∷ xs) ++ (slash ∷ name)) (length (xs ++ (slash ∷ name)))
            ≡ some (suc (length xs)) =
          subst (λ n. slash_from ((x ∷ xs) ++ (slash ∷ name)) n ≡ some (suc (length xs))) e
            (last (x ∷ xs)) in
        let z : (suc (length xs) == 0) ≡ false = ground arith in
        rw (found, back_link, z)
          (ap ok (take-append_length (suc (length xs)) (x ∷ xs) (slash ∷ name) refl))
