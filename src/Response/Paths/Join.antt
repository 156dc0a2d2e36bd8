-- ===== src/Response/Paths/Join.antt =====
-- A path and its root are joined by exactly one slash, within the block.
use compile_service.Common.{
  ℕ, ◌+◌, ◌≤◌, ◌≡◌, refl, sym, ap, ◌∙◌, true, false, List, [], ◌∷◌, ◌++◌, none, some, ◌==◌,
  if◌then◌else◌, length, length-append, append_assoc, Malloc, ok, inl, inr, Bool-cases, ==_refl,
  arith, ◌≢◌, Option-cases,
}
use compile_service.Text.Format.{new_string_refused, new_string_granted, Always}
use compile_service.Response.Paths.{
  slash, starts_slash, ends_slash, without_last, joined_path, get_abs_path, str_eq,
}

-- A path without a slash at its start, and a root without one at its end.
unfoldable pub lead : List ℕ → List ℕ
lead [] = []
lead (x ∷ xs) = if x == slash then xs else x ∷ xs

unfoldable pub base : List ℕ → List ℕ
base root = if ends_slash root then without_last root else root

lead_starts : (s : List ℕ) → starts_slash s ≡ true → slash ∷ lead s ≡ s
unfolding starts_slash lead
lead_starts [] e = cc
lead_starts (x ∷ xs) e = ground arith

lead_plain : (s : List ℕ) → starts_slash s ≡ false → lead s ≡ s
unfolding starts_slash lead
lead_plain [] e = refl
lead_plain (x ∷ xs) e = ground arith

ends_split : (s : List ℕ) → ends_slash s ≡ true → without_last s ++ (slash ∷ []) ≡ s
unfolding ends_slash without_last
ends_split [] e = cc
ends_split (x ∷ []) e = ground arith
ends_split (x ∷ y ∷ xs) e = ap (◌∷◌ x) (ends_split (y ∷ xs) e)

pub joined_path_lem :
    (relative root : List ℕ) → joined_path relative root ≡ base root ++ (slash ∷ lead relative)
unfolding joined_path base
joined_path_lem relative root = elim (Bool-cases (starts_slash relative)) [
  | inl s ↦ elim (Bool-cases (ends_slash root)) [
    | inl e ↦ rw (s, e, lead_starts relative s)
    | inr e ↦ rw (s, e, lead_starts relative s)
  ]
  | inr s ↦ elim (Bool-cases (ends_slash root)) [
    | inl e ↦
        rw (s, e, lead_plain relative s)
          (ap (λ r. r ++ relative) (sym (ends_split root e)) ∙ append_assoc (without_last root) _ _)
    | inr e ↦ rw (s, e, lead_plain relative s)
  ]
]

length-without_last-le : (s : List ℕ) → length (without_last s) ≤ length s
unfolding without_last
length-without_last-le [] = omega arith
length-without_last-le (x ∷ []) = omega arith
length-without_last-le (x ∷ y ∷ xs) = omega (arith, length-without_last-le (y ∷ xs))

length-joined_path-le :
    (relative root : List ℕ)
    → length (joined_path relative root) ≤ length relative + length root + 1
unfolding joined_path
length-joined_path-le relative root = ground (
  arith,
  length-append (without_last root) relative,
  length-append root (slash ∷ relative),
  length-append root relative,
  length-without_last-le root,
)

-- GetAbsPath on a root that is not empty writes within its block. If `malloc` has no block of the
-- lengths of both strings and two, it answers NULL. Otherwise it answers the root, without its last
-- slash if it ends with one, then one slash, and then the path, without its first slash if it starts
-- with one. Further slashes of either stay.
pub get_abs_path_lem :
    (malloc : Malloc) (relative root : List ℕ)
    → root ≢ []
    → get_abs_path malloc relative root ≡ elim (malloc (length relative + length root + 2)) [
      | none ↦ ok none
      | some block ↦ ok (some (base root ++ (slash ∷ lead relative)))
    ]
unfolding get_abs_path
get_abs_path_lem malloc relative [] h = absurd (h refl)
get_abs_path_lem malloc relative (r ∷ root) h =
    let size = length relative + length (r ∷ root) + 2 in
    let joined = joined_path relative (r ∷ root) in
    elim (Option-cases (malloc size)) [
      | inl e ↦ rw e (new_string_refused malloc size joined e)
      | inr (block, e) ↦
          rw (e, ← joined_path_lem relative (r ∷ root))
            (new_string_granted malloc size joined block e
              (omega (arith, length-joined_path-le relative (r ∷ root))))
    ]

pub str_eq_refl : (a : List ℕ) → str_eq a a ≡ true
unfolding str_eq
str_eq_refl [] = refl
str_eq_refl (x ∷ xs) = rw (==_refl x) (str_eq_refl xs)

pub str_eq→eq : (a b : List ℕ) → str_eq a b ≡ true → a ≡ b
unfolding str_eq
str_eq→eq [] [] e = refl
str_eq→eq [] (y ∷ ys) e = cc
str_eq→eq (x ∷ xs) [] e = cc
str_eq→eq (x ∷ xs) (y ∷ ys) e = ground (arith, str_eq→eq xs ys)

-- The path that GetAbsPath answers when there is memory.
abbrev pub full_path : List ℕ → List ℕ → List ℕ
full_path root relative = base root ++ (slash ∷ lead relative)

pub get_abs_path_granted :
    (malloc : Malloc) (relative root : List ℕ)
    → Always malloc
    → root ≢ []
    → get_abs_path malloc relative root ≡ ok (some (full_path root relative))
unfolding get_abs_path
get_abs_path_granted malloc relative [] a h = absurd (h refl)
get_abs_path_granted malloc relative (r ∷ root) a h = rw (← joined_path_lem relative (r ∷ root)) (
    new_string_granted malloc _ (joined_path relative (r ∷ root)) _ (a _).1
      (omega (arith, length-joined_path-le relative (r ∷ root))))

pub full_path-ne-nil : (root relative : List ℕ) → full_path root relative ≢ []
full_path-ne-nil root relative e =
    absurd (omega (arith, ap length e, length-append (base root) (slash ∷ lead relative)))
