-- ===== src/Heap.antt =====
-- The blocks that `malloc` has given and nobody has freed, by their addresses, and `free`.
use mathlib.Core.Bool.{Bool-set}
use mathlib.Core.Logic.Or
use mathlib.Core.List.{Perm, Mem, not-mem-nil, eq-or-mem_of_mem-cons, mem-cons_self}
use mathlib.Core.List.Perm
use compile_service.Common.{
  ℕ, ◌≡◌, refl, append_assoc, Bool, true, false, List, [], ◌∷◌, ◌++◌, Option, none, some, ◌==◌,
  subst, ==_iff, arith, Bool-cases, inl, inr, if◌then◌else◌, Outcome, ok, fault, ◌>>=◌,
}

abbrev pub Heap : Type 0
Heap = List ℕ

-- The block that `malloc` gives, if any, is live.
abbrev pub allocate : Option ℕ → Heap → Heap
allocate none heap = heap
allocate (some a) heap = a ∷ heap

abbrev pub is_live : ℕ → Heap → Bool
is_live a [] = false
is_live a (x ∷ xs) = if x == a then true else is_live a xs

abbrev pub erase : ℕ → Heap → Heap
erase a [] = []
erase a (x ∷ xs) = let rest = erase a xs in if x == a then xs else x ∷ rest

-- free(p): NULL is allowed; a block that is not live, or no longer, is undefined behaviour.
unfoldable pub free : Option ℕ → Heap → Outcome Heap
free none heap = ok heap
free (some a) heap = if is_live a heap then ok (erase a heap) else fault

-- What a pointer that may be NULL owns.
abbrev pub owned_pointer : Option ℕ → List ℕ
owned_pointer none = []
owned_pointer (some a) = a ∷ []

Mem→is_live : (a : ℕ) (heap : Heap) → Mem a heap → is_live a heap ≡ true
Mem→is_live a [] m = absurd (not-mem-nil m)
Mem→is_live a (x ∷ xs) m = elim (Bool-cases (x == a)) [
  | inl e ↦ rw e
  | inr e ↦
      Or.elim (Bool-set (is_live a (x ∷ xs)) true) (eq-or-mem_of_mem-cons m)
        (λ same. absurd (unequal same e)) (λ later. rw (e, Mem→is_live a xs later))
]
  where
    unequal : a ≡ x → (x == a) ≡ false → ⊥
    unequal same e = ground arith

erase-Perm : (a : ℕ) (heap : Heap) → is_live a heap ≡ true → Perm heap (a ∷ erase a heap)
erase-Perm a [] h = cc
erase-Perm a (x ∷ xs) h = elim (Bool-cases (x == a)) [
  | inl e ↦ rw (e, (==_iff x a).0 e) (Perm.refl (a ∷ xs))
  | inr e ↦
      let live = subst (λ b. (if b then true else is_live a xs) ≡ true) e h in
      rw e (Perm.trans (Perm.cons x (erase-Perm a xs live)) (Perm.swap a x (erase a xs)))
]

-- The frame: a live block among others is freed, and the others stay.
free_lem :
    (a : ℕ) (heap rest : Heap)
    → Perm heap (a ∷ rest)
    → (heap' : Heap) × (free (some a) heap ≡ ok heap') × Perm heap' rest
unfolding free
free_lem a heap rest p =
    let live = Mem→is_live a heap ((Perm.mem_iff p).1 mem-cons_self) in
    (erase a heap, rw live, Perm.cons_inv (Perm.trans (Perm.symm (erase-Perm a heap live)) p))

-- The code frees these blocks, and faults on none of them: whatever else is live stays.
abbrev pub Frees : (Heap → Outcome Heap) → List ℕ → Type 0
Frees run owned =
    (heap rest : Heap)
    → Perm heap (owned ++ rest)
    → (heap' : Heap) × (run heap ≡ ok heap') × Perm heap' rest

pub free-Frees : (o : Option ℕ) → Frees (free o) (owned_pointer o)
unfolding free
free-Frees none heap rest p = (heap, refl, p)
free-Frees (some a) heap rest p = free_lem a heap rest p

pub nothing-Frees : Frees (λ heap. ok heap) []
nothing-Frees heap rest p = (heap, refl, p)

pub then-Frees :
    (first later : Heap → Outcome Heap) (xs ys : List ℕ)
    → Frees first xs
    → Frees later ys
    → Frees (λ heap. first heap >>= later) (xs ++ ys)
then-Frees first later xs ys f g heap rest p =
    let (heap1, run1, p1) = f heap (ys ++ rest) (rw (← append_assoc xs ys rest) p) in
    let (heap2, run2, p2) = g heap1 rest p1 in (heap2, rw run1 run2, p2)
