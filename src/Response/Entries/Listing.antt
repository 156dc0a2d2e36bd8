-- ===== src/Response/Entries/Listing.antt =====
-- GetEntry lists a directory: the entries of a type, in the order of their names.
use mathlib.Core.List.{Perm}
use mathlib.Core.List.Perm
use compile_service.Common.{
  ℕ, ◌≤◌, ◌<◌, ◌≡◌, refl, sym, ap, ◌∙◌, subst, Bool, true, false, not, ◌&&◌, ◌||◌, List, [], ◌∷◌,
  ◌++◌, map, Option, none, some, ◌==◌, lt→ltb, if◌then◌else◌, length, length-append, append_assoc,
  append-nil, Malloc, Outcome, ok, arith, Bool-cases, Option-cases, inl, inr, ◌⊎◌, ◌≢◌, All,
}
use compile_service.Page.{RowInfo}
use compile_service.Page.Rows.{IsRow}
use compile_service.Text.Format.{Always}
use compile_service.Response.{sort_file_entry}
use compile_service.Response.Sort.{IsSorted, sort_file_entry-IsSorted, All-sort_file_entry}
use compile_service.Response.Paths.Join.{full_path, full_path-ne-nil, get_abs_path_granted}
use compile_service.Response.Entries.{
  Dirent, Files, make_entry_item, push_item, accepts, grown, candidate, entry_loop, read_entries,
  get_entry,
}
use compile_service.Response.Entries.Shown.{
  is_self_or_parent, dot_names, row_for, without_time, item_row-row_for,
}
use compile_service.Response.Entries.Items.{
  IsFiles, IsShort, item_row, item_row-IsRow, item_of, stat_item_lem,
}

-- The names that a listing has, in the order in which the directory gives them: the entries of the
-- type that are neither `.` nor `..`, and that `stat` knows.
abbrev name_if : Option ℕ → List ℕ → List (List ℕ) → List (List ℕ)
name_if none name names = names
name_if (some n) name names = name ∷ names

-- Every entry is of type 0.
unfoldable pub wanted : ℕ → Dirent → Bool
wanted type dp = (type == 0 || dp.d_type == type) && not (is_self_or_parent dp.d_name)

accepts-wanted : (type : ℕ) (dp : Dirent) → accepts type dp ≡ wanted type dp
unfolding accepts wanted
accepts-wanted type dp = rw (dot_names dp.d_name) (ground arith)

unfoldable pub listed : Files → List ℕ → ℕ → List Dirent → List (List ℕ)
listed files dir type [] = []
listed files dir type (dp ∷ ds) =
    let rest = listed files dir type ds in
    if wanted type dp then name_if (files.stat (full_path dir dp.d_name)) dp.d_name rest else rest

-- The rows that a listing has, in the order in which the directory gives the entries; a row shows an
-- entry with the size that `stat` gives.
abbrev row_if : Files → List ℕ → List ℕ → Dirent → Option ℕ → List RowInfo → List RowInfo
row_if files path req dp none rows = rows
row_if files path req dp (some n) rows = row_for files path req dp n ∷ rows

unfoldable pub listed_rows : Files → List ℕ → List ℕ → ℕ → List Dirent → List RowInfo
listed_rows files dir req type [] = []
listed_rows files dir req type (dp ∷ ds) =
    let rest = listed_rows files dir req type ds in
    let path = full_path dir dp.d_name in
    if wanted type dp then row_if files path req dp (files.stat path) rest else rest

-- The row ends within the arrays, if the strings in the unwritten memory do.
abbrev pub IsKept : (ℕ → List ℕ) → RowInfo → Type 0
IsKept junk r = ((k : ℕ) → length (junk k) < 32) → IsRow r

abbrev pub names : List RowInfo → List (List ℕ)
names = map (λ r. r.name)

module _ (malloc : Malloc) (files : Files) (dir req : List ℕ) (type : ℕ) (always : Always malloc)
    (v : IsFiles files) (rooted : dir ≢ []) where
  make_entry_item_lem :
      (dp : Dirent) (time : List ℕ)
      → IsShort req dp
      → make_entry_item malloc files dp dir req time
        ≡ ok (
            item_of files
              (full_path dir dp.d_name)
              req
              dp
              time
              (files.stat (full_path dir dp.d_name)))
  unfolding make_entry_item
  make_entry_item_lem dp time s =
      rw (get_abs_path_granted malloc dp.d_name dir always rooted, make_entry_item)
        (stat_item_lem files (full_path dir dp.d_name) req dp time v s)

  abbrev shown_first : Dirent → List RowInfo → List RowInfo
  shown_first dp later =
      let path = full_path dir dp.d_name in
      if wanted type dp then row_if files path req dp (files.stat path) later else later

  -- Either the entry is passed over, or it gives a row with its name.
  candidate_cases :
      (dp : Dirent) (time : List ℕ) (rest : List (List ℕ)) (later : List RowInfo)
      → IsShort req dp
      → ((candidate malloc files dir req type dp time ≡ ok none)
          × ((if wanted type dp
                then name_if (files.stat (full_path dir dp.d_name)) dp.d_name rest
                else rest)
              ≡ rest)
          × (shown_first dp later ≡ later))
        ⊎ ((r : RowInfo) × (candidate malloc files dir req type dp time ≡ ok (some r))
            × ((if wanted type dp
                  then name_if (files.stat (full_path dir dp.d_name)) dp.d_name rest
                  else rest)
                ≡ r.name ∷ rest)
            × (shown_first dp later ≡ without_time r ∷ later)
            × (length time < 32 → IsRow r))
  unfolding candidate item_row
  candidate_cases dp time rest later s = elim (Bool-cases (wanted type dp)) [
    | inr e ↦ inl (rw (accepts-wanted type dp, e), rw e, rw e)
    | inl e ↦ elim (Option-cases (files.stat (full_path dir dp.d_name))) [
      | inl f ↦ inl (
        rw (accepts-wanted type dp, e, make_entry_item_lem dp time s) (rw f),
        rw (e, f),
        rw (e, f),
      )
      | inr (n, f) ↦ inr (
        item_row files (full_path dir dp.d_name) req dp time n,
        rw (accepts-wanted type dp, e, make_entry_item_lem dp time s) (rw f),
        rw (e, f),
        rw (e, f)
            (ap (λ r. r ∷ later)
              (sym (item_row-row_for files (full_path dir dp.d_name) req dp time n))),
        item_row-IsRow files (full_path dir dp.d_name) req dp time n v s
            (v.stat_fits (full_path dir dp.d_name) n f),
      )
    ]
  ]

  module _ (realloc : ℕ → Bool) (junk : ℕ → List ℕ) (grants : (n : ℕ) → realloc n ≡ true) where
    abbrev loop : List Dirent → List RowInfo → ℕ → Outcome (Option (List RowInfo))
    loop = entry_loop malloc realloc junk files dir req type

    module _ (dp : Dirent) (ds : List Dirent) (rows : List RowInfo) (max : ℕ) where
      goes_on : (length rows == max && not (realloc (grown rows max))) ≡ false
      goes_on = rw (grants (grown rows max)) (ground arith)

      loop_skip :
          candidate malloc files dir req type dp (junk (length rows)) ≡ ok none
          → loop (dp ∷ ds) rows max ≡ loop ds rows (grown rows max)
      unfolding entry_loop push_item
      loop_skip e = rw (goes_on, entry_loop, e)

      loop_push :
          (r : RowInfo)
          → length rows ≤ max
          → candidate malloc files dir req type dp (junk (length rows)) ≡ ok (some r)
          → loop (dp ∷ ds) rows max ≡ loop ds (rows ++ (r ∷ [])) (grown rows max)
      unfolding entry_loop push_item
      loop_push r h e =
          let room : length rows < grown rows max = unfold grown in ground arith in
          rw (goes_on, entry_loop, e) (rw (lt→ltb (length rows) (grown rows max) room))

    loop_lem :
        (ds : List Dirent) (rows : List RowInfo) (max : ℕ)
        → length rows ≤ max
        → All (IsShort req) ds
        → (new : List RowInfo) × (loop ds rows max ≡ ok (some (rows ++ new)))
          × (names new ≡ listed files dir type ds)
          × (map without_time new ≡ listed_rows files dir req type ds)
          × All (IsKept junk) new
    unfolding listed listed_rows
    loop_lem [] rows max h short =
        ([], unfold entry_loop in ap (λ r. ok (some r)) (sym (append-nil rows)), refl, refl, tt)
    loop_lem (dp ∷ ds) rows max h (s, short) =
        let room : length rows < grown rows max = unfold grown in ground arith in
        elim (candidate_cases dp (junk (length rows)) (listed files dir type ds)
          (listed_rows files dir req type ds) s) [
            | inl (e, f, l) ↦
                let (new, g, n, m, kept) = loop_lem ds rows (grown rows max) (omega arith) short in
                (new, loop_skip dp ds rows max e ∙ g, n ∙ sym f, m ∙ sym l, kept)
            | inr (r, e, f, l, fits) ↦
                let (new, g, n, m, kept) =
                  loop_lem ds (rows ++ (r ∷ [])) (grown rows max)
                    (omega (arith, length-append rows (r ∷ []))) short in
                (
                  r ∷ new,
                  loop_push dp ds rows max r h e
                      ∙ g
                      ∙ ap (λ x. ok (some x)) (append_assoc rows _ new),
                  ap (◌∷◌ r.name) n ∙ sym f,
                  ap (◌∷◌ (without_time r)) m ∙ sym l,
                  ((λ small. fits (small (length rows))), kept),
                )
          ]

-- GetEntry with memory on a directory that opens, with what its rows are.
pub get_entry_rows :
    (malloc : Malloc) (realloc : ℕ → Bool) (junk : ℕ → List ℕ) (files : Files) (req root : List ℕ)
    (type : ℕ) (ds : List Dirent)
    → Always malloc
    → ((n : ℕ) → realloc n ≡ true)
    → IsFiles files
    → root ≢ []
    → files.opendir (full_path root req) ≡ some ds
    → All (IsShort req) ds
    → (rows : List RowInfo) × (get_entry malloc realloc junk true true files req root type
        ≡ ok (some rows))
      × Perm (names rows) (listed files (full_path root req) type ds)
      × Perm (map without_time rows) (listed_rows files (full_path root req) req type ds)
      × IsSorted rows
      × All (IsKept junk) rows
unfolding get_entry read_entries
get_entry_rows malloc realloc junk files req root type ds always grants v rooted opens short =
    let (new, e, n, m, kept) =
      loop_lem malloc files (full_path root req) req type always v (full_path-ne-nil root req)
        realloc junk grants ds [] 0 (omega arith) short in
    let (moved, sorted) = sort_file_entry-IsSorted true new in
    (
      sort_file_entry true new,
      rw (get_abs_path_granted malloc req root always rooted, get_entry, opens, e),
      subst (Perm (names (sort_file_entry true new))) n (Perm.map (λ (r : RowInfo). r.name) moved),
      subst (Perm (map without_time (sort_file_entry true new))) m (Perm.map without_time moved),
      sorted refl,
      All-sort_file_entry (IsKept junk) true new kept,
    )

-- GetEntry with memory, on a directory that opens: the answer has a row for each entry of the wanted
-- type that is neither `.` nor `..` and that `stat` knows, and for nothing else, in the order of
-- their names. No write leaves the block, which grows by five entries at a time. Every name and every
-- link fits its array.
pub get_entry_lem :
    (malloc : Malloc) (realloc : ℕ → Bool) (junk : ℕ → List ℕ) (files : Files) (req root : List ℕ)
    (type : ℕ) (ds : List Dirent)
    → Always malloc
    → ((n : ℕ) → realloc n ≡ true)
    → IsFiles files
    → root ≢ []
    → files.opendir (full_path root req) ≡ some ds
    → All (IsShort req) ds
    → (rows : List RowInfo) × (get_entry malloc realloc junk true true files req root type
        ≡ ok (some rows))
      × Perm (names rows) (listed files (full_path root req) type ds)
      × IsSorted rows
get_entry_lem malloc realloc junk files req root type ds always grants v rooted opens short =
    let (rows, e, moved, _, sorted, _) =
      get_entry_rows malloc realloc junk files req root type ds always grants v rooted opens
        short in
    (rows, e, moved, sorted)
