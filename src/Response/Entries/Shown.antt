-- ===== src/Response/Entries/Shown.antt =====
-- What a row shows for an entry of a directory, said without the code: the link behind the path of
-- the request, the kind, and the size in the unit that suits it.
use compile_service.Common.{
  ℕ, ◌+◌, ◌/◌, ◌^◌, ◌≡◌, refl, ap, ◌∙◌, Bool, true, false, ◌&&◌, List, [], ◌∷◌, ◌++◌, Option, none,
  some, ◌==◌, ltb, if◌then◌else◌, append_assoc, arith, Bool-cases, Option-cases, inl, inr, sym,
  lt→ltb, ltb→lt, le→ltb-false, ltb-false→le,
}
use compile_service.Text.{codes, decimal}
use compile_service.Page.{RowInfo}
use compile_service.Response.Paths.{slash, is_dot_path, str_eq}
use compile_service.Response.Entries.{
  Dirent, Files, count_entries, get_entry_count, size_text, count_text, link_text, type_text,
  item_size_text,
}
use compile_service.Response.Entries.Items.{item_row}

-- The names `.` and `..`.
unfoldable pub is_self_or_parent : List ℕ → Bool
is_self_or_parent [] = false
is_self_or_parent (x ∷ []) = x == b'.'
is_self_or_parent (x ∷ y ∷ []) = (x == b'.') && (y == b'.')
is_self_or_parent (x ∷ y ∷ z ∷ rest) = false

pub dot_names : (name : List ℕ) → is_dot_path name ≡ is_self_or_parent name
unfolding is_dot_path str_eq is_self_or_parent
dot_names [] = refl
dot_names (x ∷ []) = ground arith
dot_names (x ∷ y ∷ []) = ground arith
dot_names (x ∷ y ∷ z ∷ rest) = ground arith

-- The path of a name in the directory `req`: of the root, the name behind one slash.
unfoldable child_link : List ℕ → List ℕ → List ℕ
child_link [] name = slash ∷ name
child_link (x ∷ []) name = if x == slash then slash ∷ name else x ∷ slash ∷ name
child_link (x ∷ y ∷ req) name = x ∷ y ∷ (req ++ (slash ∷ name))

link_text_lem : (req name : List ℕ) → link_text req name ≡ child_link req name
unfolding link_text child_link str_eq
link_text_lem [] name = refl
link_text_lem (x ∷ []) name = elim (Bool-cases (x == slash)) [
  | inl e ↦ rw e (let same : x ≡ slash = ground arith in rw same refl)
  | inr e ↦ rw e refl
]
link_text_lem (x ∷ y ∷ req) name =
    let apart : ((x == slash) && false) ≡ false = ground arith in
    rw apart (ap (λ t. x ∷ y ∷ t) (append_assoc req (slash ∷ []) name))

-- A file is what the system calls 8.
unfoldable kind : ℕ → List ℕ
kind d_type = if d_type == 8 then codes "File" else codes "Folder"

-- Bytes below 2 ^ 10, then units of 2 ^ 10, and of 2 ^ 20 from there on.
unfoldable in_units : ℕ → List ℕ
in_units n =
    if ltb n (2 ^ 10)
    then decimal n ++ codes " Byte"
    else if ltb n (2 ^ 20)
    then decimal (n / 2 ^ 10) ++ codes " KB"
    else decimal (n / 2 ^ 20) ++ codes " MB"

size_text_lem : (n : ℕ) → size_text n ≡ in_units n
unfolding size_text in_units
size_text_lem n =
    let twice : n / 1024 / 1024 ≡ n / 2 ^ 20 = omega arith in
    let limit : ltb (n / 1024) 1024 ≡ ltb n (2 ^ 20) = mega (ltb n (2 ^ 20)) refl in
    rw (twice, limit)
  where
    mega : (b : Bool) → ltb n (2 ^ 20) ≡ b → ltb (n / 1024) 1024 ≡ ltb n (2 ^ 20)
    mega true e = lt→ltb (n / 1024) 1024 (omega (arith, ltb→lt n (2 ^ 20) e)) ∙ sym e
    mega false e = le→ltb-false (n / 1024) 1024 (omega (arith, ltb-false→le n (2 ^ 20) e)) ∙ sym e

-- The entries of a directory without `.` and `..`.
unfoldable pub others : List Dirent → ℕ
others [] = 0
others (dp ∷ ds) = let rest = others ds in if is_self_or_parent dp.d_name then rest else rest + 1

count_entries_lem : (ds : List Dirent) (n : ℕ) → count_entries ds n ≡ n + others ds
unfolding count_entries others
count_entries_lem [] n = omega arith
count_entries_lem (dp ∷ ds) n = elim (Bool-cases (is_self_or_parent dp.d_name)) [
  | inl e ↦ rw (dot_names dp.d_name, e) (count_entries_lem ds n)
  | inr e ↦ rw (dot_names dp.d_name, e) (omega (arith, count_entries_lem ds (n + 1)))
]

unfoldable items_in : Option (List Dirent) → List ℕ
items_in none = codes "-1 Item"
items_in (some ds) = decimal (others ds) ++ codes " Item"

count_text_lem :
    (files : Files) (path : List ℕ)
    → count_text (get_entry_count files path) ≡ items_in (files.opendir path)
unfolding get_entry_count count_text items_in
count_text_lem files path = elim (Option-cases (files.opendir path)) [
  | inl e ↦ rw (e, get_entry_count)
  | inr (ds, e) ↦
      rw (e, get_entry_count)
        (ap (λ n. decimal n ++ codes " Item") (count_entries_lem ds 0 ∙ omega arith))
]

-- The row of an entry of the directory `req` that stands at `path` and has `size` bytes; what stands
-- in `time` is left out.
unfoldable pub row_for : Files → List ℕ → List ℕ → Dirent → ℕ → RowInfo
unfolding child_link kind in_units items_in
row_for files path req dp size = record {
  link = child_link req dp.d_name;
  name = dp.d_name;
  type = kind dp.d_type;
  size = if dp.d_type == 8 then in_units size else items_in (files.opendir path);
  time = [];
}

abbrev pub without_time : RowInfo → RowInfo
without_time r = record r { time = [] }

item_size_lem :
    (files : Files) (path : List ℕ) (dp : Dirent) (n : ℕ)
    → item_size_text files path dp n
      ≡ (if dp.d_type == 8 then in_units n else items_in (files.opendir path))
unfolding item_size_text
item_size_lem files path dp n = elim (Bool-cases (dp.d_type == 8)) [
  | inl e ↦ rw e (size_text_lem n)
  | inr e ↦ rw e (count_text_lem files path)
]

pub item_row-row_for :
    (files : Files) (path req : List ℕ) (dp : Dirent) (time : List ℕ) (n : ℕ)
    → without_time (item_row files path req dp time n) ≡ row_for files path req dp n
unfolding item_row row_for type_text kind
item_row-row_for files path req dp time n =
    rw (link_text_lem req dp.d_name, item_size_lem files path dp n)
