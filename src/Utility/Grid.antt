-- ===== src/Utility/Grid.antt =====
-- utility.h, utility.c: Malloc2d and Free2d, a block of pointers to the rows of a block of cells.
use compile_service.Common.{
  ℕ, zero, suc, ◌+◌, ◌*◌, ◌^◌, ◌≤◌, ◌<◌, ◌≡◌, refl, ap, ◌∙◌, ◌&&◌, List, [], ◌∷◌, Option, none,
  some, ltb, if◌then◌else◌, get_elem?, length, ==_refl, lt→ltb, Outcome, ok, fault, ◌>>=◌, arith,
  Bool-cases, inl, inr,
}
use compile_service.Heap.{Heap, allocate, free}

-- `self` is the block of pointers, `cells` the block that they point into, and `rows` the pointers as
-- offsets into it, counted in cells.
pub record Grid : Type 0 where
  pub self : ℕ
  pub cells : ℕ
  pub rows : List ℕ

-- `ret[i] = p + i * col` from row `i` on, for `n` rows.
unfoldable pub row_offsets : ℕ → ℕ → ℕ → List ℕ
row_offsets zero i col = []
row_offsets (suc n) i col = (i * col) ∷ row_offsets n (suc i) col

-- Behind both calls of `malloc`: where one of them has failed, the other's block is freed.
unfoldable pub fill_grid : ℕ → ℕ → Option ℕ → Option ℕ → Heap → Outcome (Option Grid × Heap)
unfolding row_offsets
fill_grid row col none p heap = free none heap >>= λ h. free p h >>= λ h'. ok (none, h')
fill_grid row col (some a) none heap =
    free (some a) heap >>= λ h. free none h >>= λ h'. ok (none, h')
fill_grid row col (some a) (some p) heap =
    ok (some (record { self = a; cells = p; rows = row_offsets row 0 col }), heap)

-- Malloc2d for numbers that are not negative. `row * col` is a product of `int`s, which has to fit.
unfoldable pub malloc2d : ℕ → ℕ → Option ℕ → Option ℕ → Heap → Outcome (Option Grid × Heap)
unfolding fill_grid
malloc2d row col block cells heap =
    if ltb 0 row && ltb 0 col
    then if ltb (row * col) (2 ^ 31)
      then fill_grid row col block cells (allocate cells (allocate block heap))
      else fault
    else ok (none, heap)

-- Free2d
unfoldable pub free2d : Option Grid → Heap → Outcome Heap
free2d none heap = free none heap
free2d (some g) heap = free (some g.cells) heap >>= λ heap'. free (some g.self) heap'

-- Malloc2d, if the product fits, and then Free2d of what it answers, whichever of the allocations
-- fail: neither faults, and the live blocks are as they were.
pub malloc2d-free2d :
    (row col : ℕ) (block cells : Option ℕ) (heap : Heap)
    → row * col < 2 ^ 31
    → (made : Option Grid) × (heap' : Heap) × (malloc2d row col block cells heap ≡ ok (made, heap'))
      × (free2d made heap' ≡ ok heap)
unfolding malloc2d free2d free fill_grid
malloc2d-free2d row col block cells heap h = elim (Bool-cases (ltb 0 row && ltb 0 col)) [
  | inr e ↦ (none, heap, rw e, freed_none)
  | inl e ↦
      let (made, heap', run, back) = filled block cells in
      (made, heap', rw (e, lt→ltb (row * col) (2 ^ 31) h) run, back)
]
  where
    freed_none : free2d none heap ≡ ok heap
    freed_none = refl

    filled :
        (block cells : Option ℕ)
        → (made : Option Grid) × (heap' : Heap) × (fill_grid row col block cells
              (allocate cells (allocate block heap))
            ≡ ok (made, heap'))
          × (free2d made heap' ≡ ok heap)
    filled none none = (none, heap, refl, refl)
    filled none (some p) = (none, heap, rw (==_refl p), refl)
    filled (some a) none = (none, heap, rw (==_refl a), refl)
    filled (some a) (some p) = (
      some (record { self = a; cells = p; rows = row_offsets row 0 col }),
      p ∷ a ∷ heap,
      refl,
      rw (==_refl p, ==_refl a),
    )

row_offsets-get_elem? :
    (n i k col : ℕ) → k < n → get_elem? (row_offsets n i col) k ≡ some ((i + k) * col)
unfolding row_offsets
row_offsets-get_elem? zero i k col h = absurd (omega arith)
row_offsets-get_elem? (suc n) i zero col h = ap (λ j. some (j * col)) (omega arith)
row_offsets-get_elem? (suc n) i (suc k) col h =
    row_offsets-get_elem? n (suc i) k col (omega arith) ∙ ap (λ j. some (j * col)) (omega arith)

length-row_offsets : (n i col : ℕ) → length (row_offsets n i col) ≡ n
unfolding row_offsets
length-row_offsets zero i col = refl
length-row_offsets (suc n) i col = ap suc (length-row_offsets n (suc i) col)

-- Rows of `col` cells stand behind one another.
rows_apart : (j k col : ℕ) → j < k → j * col + col ≤ k * col
rows_apart j zero col h = absurd (omega arith)
rows_apart zero (suc k) col h = omega arith
rows_apart (suc j) (suc k) col h = omega (arith, rows_apart j k col (omega arith))

-- Malloc2d with both blocks and a product that fits: there are `row` rows, each of `col` cells that lie
-- inside the block of `row * col` cells, and no two of them overlap.
pub malloc2d-rows :
    (row col a p : ℕ) (heap : Heap)
    → 0 < row
    → 0 < col
    → row * col < 2 ^ 31
    → (g : Grid) × (malloc2d row col (some a) (some p) heap ≡ ok (some g, p ∷ a ∷ heap))
      × (length g.rows ≡ row)
      × ((k : ℕ) → k < row → (get_elem? g.rows k ≡ some (k * col)) × (k * col + col ≤ row * col))
      × ((j k : ℕ) → j < k → j * col + col ≤ k * col)
unfolding malloc2d fill_grid
malloc2d-rows row col a p heap hr hc h = (
  record { self = a; cells = p; rows = row_offsets row 0 col },
  rw (lt→ltb 0 row hr, lt→ltb 0 col hc, lt→ltb (row * col) (2 ^ 31) h),
  length-row_offsets row 0 col,
  λ k hk. (
    row_offsets-get_elem? row 0 k col hk ∙ ap (λ j. some (j * col)) (omega arith),
    rows_apart k row col hk,
  ),
  λ j k hj. rows_apart j k col hj,
)
