-- ===== src/Response/Sort.antt =====
-- SortFileEntry puts the entries into the order of their names.
use mathlib.Core.List.{Perm}
use mathlib.Core.List.Perm
use compile_service.Common.{
  ℕ, zero, suc, ◌≤◌, ◌≡◌, refl, sym, subst, Bool, true, false, List, [], ◌∷◌, ◌++◌, some, get_or,
  get_elem?, set, length, length-set, length-append, append_assoc, All, Bool-cases, inl, inr, arith,
}
use compile_service.Page.{RowInfo}
use compile_service.Response.{
  str_lt, scan_min, swapped_first, swapped_rest, sort_loop, sort_file_entry,
}
use compile_service.Response.Order.{str_lt_irrefl, str_lt_cotrans, str_lt_asym}

-- `a` may stand before `b`.
abbrev pub Le : RowInfo → RowInfo → Type 0
Le a b = str_lt b.name a.name ≡ false

abbrev pub IsSorted : List RowInfo → Type 0
IsSorted [] = Unit {0}
IsSorted (x ∷ xs) = All (Le x) xs × IsSorted xs

Le_trans : (a b c : RowInfo) → Le a b → Le b c → Le a c
Le_trans a b c h k = elim (Bool-cases (str_lt c.name a.name)) [
  | inl e ↦ cc (str_lt_cotrans c.name b.name a.name e h)
  | inr e ↦ e
]

get_elem?-append :
    (pre : List RowInfo) (y : RowInfo) (ys : List RowInfo) (j : ℕ)
    → length pre ≡ j
    → get_elem? (pre ++ (y ∷ ys)) j ≡ some y
get_elem?-append [] y ys zero e = refl
get_elem?-append [] y ys (suc j) e = absurd (omega arith)
get_elem?-append (x ∷ pre) y ys zero e = absurd (omega arith)
get_elem?-append (x ∷ pre) y ys (suc j) e = get_elem?-append pre y ys j (omega arith)

-- The scan ends at the place of an entry that no entry it has seen comes before.
abbrev Finds : List RowInfo → RowInfo → List RowInfo → RowInfo × ℕ → Type 0
Finds all best ys r = Le r.0 best × All (Le r.0) ys × (get_elem? all r.1 ≡ some r.0)

module _ (best y : RowInfo) (min j : ℕ) (ys : List RowInfo) where
  scan_less :
      str_lt y.name best.name ≡ true → scan_min best min j (y ∷ ys) ≡ scan_min y j (suc j) ys
  unfolding scan_min
  scan_less e = rw (e, scan_min)

  scan_not_less :
      str_lt y.name best.name ≡ false → scan_min best min j (y ∷ ys) ≡ scan_min best min (suc j) ys
  unfolding scan_min
  scan_not_less e = rw (e, scan_min)

scan_min-Finds :
    (pre ys : List RowInfo) (best : RowInfo) (min j : ℕ)
    → length pre ≡ j
    → get_elem? (pre ++ ys) min ≡ some best
    → Finds (pre ++ ys) best ys (scan_min best min j ys)
scan_min-Finds pre [] best min j e at_min = unfold scan_min in (str_lt_irrefl best.name, tt, at_min)
scan_min-Finds pre (y ∷ ys) best min j e at_min =
    let more = append_assoc pre (y ∷ []) ys in
    let longer : length (pre ++ (y ∷ [])) ≡ suc j = omega (arith, length-append pre (y ∷ [])) in
    elim (Bool-cases (str_lt y.name best.name)) [
      | inl less ↦
          let (below, rest, here) =
            scan_min-Finds (pre ++ (y ∷ [])) ys y j (suc j) longer
              (rw more (get_elem?-append pre y ys j e)) in
          subst (Finds (pre ++ (y ∷ ys)) best (y ∷ ys)) (sym (scan_less best y min j ys less)) (
            Le_trans (scan_min y j (suc j) ys).0 y best below (str_lt_asym y.name best.name less),
            (below, rest),
            rw more at here,
          )
      | inr not_less ↦
          let (below, rest, here) =
            scan_min-Finds (pre ++ (y ∷ [])) ys best min (suc j) longer (rw more at_min) in
          subst (Finds (pre ++ (y ∷ ys)) best (y ∷ ys))
            (sym (scan_not_less best y min j ys not_less))
            (
              below,
              (Le_trans (scan_min best min (suc j) ys).0 best y below not_less, rest),
              rw more at here,
            )
    ]

swap_lem :
    (x v : RowInfo) (xs : List RowInfo) (k : ℕ)
    → get_elem? (x ∷ xs) k ≡ some v
    → swapped_first x xs k ≡ v
unfolding swapped_first
swap_lem x v xs zero e = ground arith
swap_lem x v xs (suc k) e = go xs k e
  where
    go : (ys : List RowInfo) (k : ℕ) → get_elem? ys k ≡ some v → get_or ys k x ≡ v
    go [] k e = cc
    go (y ∷ ys) zero e = ground arith
    go (y ∷ ys) (suc k) e = go ys k e

All-set :
    (P : RowInfo → Type 0) (xs : List RowInfo) (k : ℕ) (v : RowInfo)
    → P v
    → All P xs
    → All P (set xs k v)
All-set P [] k v h hs = tt
All-set P (x ∷ xs) zero v h (hx, hs) = (h, hs)
All-set P (x ∷ xs) (suc k) v h (hx, hs) = (hx, All-set P xs k v h hs)

All-get_or :
    (P : RowInfo → Type 0) (xs : List RowInfo) (k : ℕ) (v : RowInfo)
    → P v
    → All P xs
    → P (get_or xs k v)
All-get_or P [] k v h hs = h
All-get_or P (x ∷ xs) zero v h (hx, hs) = hx
All-get_or P (x ∷ xs) (suc k) v h (hx, hs) = All-get_or P xs k v h hs

module _ (P : RowInfo → Type 0) where
  All-swapped_rest :
      (x : RowInfo) (xs : List RowInfo) (k : ℕ) → P x → All P xs → All P (swapped_rest x xs k)
  unfolding swapped_rest
  All-swapped_rest x xs zero h hs = hs
  All-swapped_rest x xs (suc k) h hs = All-set P xs k x h hs

  All-swapped_first :
      (x : RowInfo) (xs : List RowInfo) (k : ℕ) → P x → All P xs → P (swapped_first x xs k)
  unfolding swapped_first
  All-swapped_first x xs zero h hs = h
  All-swapped_first x xs (suc k) h hs = All-get_or P xs k x h hs

  All-sort_loop : (n : ℕ) (xs : List RowInfo) → All P xs → All P (sort_loop n xs)
  unfolding sort_loop
  All-sort_loop zero xs h = h
  All-sort_loop (suc n) [] h = h
  All-sort_loop (suc n) (x ∷ xs) (h, hs) =
      let k = (scan_min x 0 1 xs).1 in
      (
        All-swapped_first x xs k h hs,
        All-sort_loop n (swapped_rest x xs k) (All-swapped_rest x xs k h hs),
      )

length-swapped_rest :
    (x : RowInfo) (xs : List RowInfo) (k : ℕ) → length (swapped_rest x xs k) ≡ length xs
unfolding swapped_rest
length-swapped_rest x xs zero = refl
length-swapped_rest x xs (suc k) = length-set xs k x

sort_loop-IsSorted : (n : ℕ) (xs : List RowInfo) → length xs ≤ n → IsSorted (sort_loop n xs)
unfolding sort_loop
sort_loop-IsSorted zero [] h = tt
sort_loop-IsSorted zero (x ∷ xs) h = absurd (omega arith)
sort_loop-IsSorted (suc n) [] h = tt
sort_loop-IsSorted (suc n) (x ∷ xs) h =
    let r = scan_min x 0 1 xs in
    let (below, rest, here) = scan_min-Finds (x ∷ []) xs x 0 1 (omega arith) refl in
    rw (swap_lem x r.0 xs r.1 here) (
      All-sort_loop (Le r.0) n (swapped_rest x xs r.1)
          (All-swapped_rest (Le r.0) x xs r.1 below rest),
      sort_loop-IsSorted n (swapped_rest x xs r.1) (omega (arith, length-swapped_rest x xs r.1)),
    )

swap-perm : (x : RowInfo) (xs : List RowInfo) (k : ℕ) → Perm (get_or xs k x ∷ set xs k x) (x ∷ xs)
swap-perm x [] k = Perm.refl _
swap-perm x (y ∷ ys) zero = Perm.swap x y ys
swap-perm x (y ∷ ys) (suc k) =
    Perm.trans (Perm.swap y (get_or ys k x) (set ys k x))
      (Perm.trans (Perm.cons y (swap-perm x ys k)) (Perm.swap x y ys))

swapped-perm :
    (x : RowInfo) (xs : List RowInfo) (k : ℕ)
    → Perm (swapped_first x xs k ∷ swapped_rest x xs k) (x ∷ xs)
unfolding swapped_first swapped_rest
swapped-perm x xs zero = Perm.refl _
swapped-perm x xs (suc k) = swap-perm x xs k

sort_loop-perm : (n : ℕ) (xs : List RowInfo) → Perm (sort_loop n xs) xs
unfolding sort_loop
sort_loop-perm zero xs = Perm.refl xs
sort_loop-perm (suc n) [] = Perm.refl []
sort_loop-perm (suc n) (x ∷ xs) =
    let k = (scan_min x 0 1 xs).1 in
    Perm.trans (Perm.cons _ (sort_loop-perm n (swapped_rest x xs k))) (swapped-perm x xs k)

-- SortFileEntry only moves the entries, and with memory for its temporary entry it leaves them in
-- the order of their names, bytes compared as numbers.
pub sort_file_entry-IsSorted :
    (granted : Bool) (rows : List RowInfo)
    → Perm (sort_file_entry granted rows) rows
      × (granted ≡ true → IsSorted (sort_file_entry granted rows))
unfolding sort_file_entry
sort_file_entry-IsSorted true rows =
    (sort_loop-perm (length rows) rows, λ _. sort_loop-IsSorted (length rows) rows (omega arith))
sort_file_entry-IsSorted false rows = (Perm.refl rows, λ e. cc)

-- What holds of each row holds of each sorted one.
pub All-sort_file_entry :
    (P : RowInfo → Type 0) (granted : Bool) (rows : List RowInfo)
    → All P rows
    → All P (sort_file_entry granted rows)
unfolding sort_file_entry
All-sort_file_entry P true rows h = All-sort_loop P (length rows) rows h
All-sort_file_entry P false rows h = h
