-- ===== src/Common/Bytes.antt =====
-- Blocks of memory: lists of bytes, written at an offset.
use Prim.Native.Nat.{ℕ, suc, ◌+◌, ◌≤◌}
use mathlib.Core.Path.{◌≡◌, refl}
use mathlib.Core.Option.{Option, some}
use mathlib.Core.List.{List, [], ◌∷◌, ◌++◌}
use native.Mathlib.Omega.{arith}
use compile_service.Common.Tests.{leb, le→leb, if◌then◌else◌}
use compile_service.Common.Lists.{length, take, drop, length-append, take-append_length}
use compile_service.Common.Effects.{Outcome, ok, fault}

-- `malloc(n)` as one call sees it: no block, or one of `n` bytes whose contents are not known.
abbrev pub Malloc : Type 0
Malloc = ℕ → Option (List ℕ)

-- A block that is given has the size that was asked for.
abbrev pub IsMalloc : Malloc → Type 0
IsMalloc malloc = (n : ℕ) (block : List ℕ) → malloc n ≡ some block → length block ≡ n

-- memcpy(block + off, bytes, length bytes)
unfoldable pub poke : List ℕ → ℕ → List ℕ → Outcome (List ℕ)
poke block off bytes =
    if leb (off + length bytes) (length block)
    then ok (take off block ++ (bytes ++ drop (off + length bytes) block))
    else fault

drop-append_add : (xs ys : List ℕ) (n : ℕ) → drop (length xs + n) (xs ++ ys) ≡ drop n ys
drop-append_add [] ys n = let e : 0 + n ≡ n = omega arith in rw e
drop-append_add (x ∷ xs) ys n =
    let e : suc (length xs) + n ≡ suc (length xs + n) = omega arith in
    rw e (drop-append_add xs ys n)

-- A write behind `front` that fits into the rest.
pub poke-append :
    (front bytes rest : List ℕ) (off : ℕ)
    → length front ≡ off
    → length bytes ≤ length rest
    → poke (front ++ rest) off bytes ≡ ok (front ++ (bytes ++ drop (length bytes) rest))
unfolding poke
poke-append front bytes rest off e h = rw (
  ← e,
  le→leb (length front + length bytes) (length (front ++ rest))
      (omega (arith, length-append front rest)),
  take-append_length (length front) front rest refl,
  drop-append_add front rest (length bytes),
)
