-- ===== src/Response/Entries/Items.antt =====
-- One entry of a directory: its row fits the arrays of RowInfo.
use compile_service.Common.{
  ℕ, ◌+◌, ◌/◌, ◌^◌, ◌≤◌, ◌<◌, ◌≡◌, List, [], ◌∷◌, Option, none, some, ◌==◌, length, length-append,
  ok, fault, arith, Bool-cases, Option-cases, inl, inr,
}
use compile_service.Text.{codes, decimal, array_string}
use compile_service.Text.Format.{array_string_fits, length-decimal-le}
use compile_service.Page.{RowInfo}
use compile_service.Page.Rows.{IsRow}
use compile_service.Response.Paths.{is_dot_path}
use compile_service.Response.Entries.{
  Dirent, Files, type_file, count_entries, get_entry_count, size_text, count_text, link_text,
  type_text, item_size_text, fill_item, stat_item,
}

-- What the system says of sizes and directories: a size is an `off_t`, and a count an `int`.
pub record IsFiles (files : Files) : Type 0 where
  pub stat_fits : (p : List ℕ) (n : ℕ) → files.stat p ≡ some n → n < 2 ^ 63
  pub count_fits : (p : List ℕ) (ds : List Dirent) → files.opendir p ≡ some ds → length ds < 2 ^ 31

count_entries-le : (ds : List Dirent) (n : ℕ) → count_entries ds n ≤ length ds + n
unfolding count_entries
count_entries-le [] n = omega arith
count_entries-le (dp ∷ ds) n = elim (Bool-cases (is_dot_path dp.d_name)) [
  | inl e ↦ rw e (omega (arith, count_entries-le ds n))
  | inr e ↦ rw e (omega (arith, count_entries-le ds (n + 1)))
]

size_text_fits : (n : ℕ) → n < 2 ^ 63 → length (size_text n) < 32
unfolding size_text
size_text_fits n h = ground (
  arith,
  length-append (decimal n) (codes " Byte"),
  length-append (decimal (n / 1024)) (codes " KB"),
  length-append (decimal (n / 1024 / 1024)) (codes " MB"),
  length-decimal-le n (omega arith),
  length-decimal-le (n / 1024) (omega arith),
  length-decimal-le (n / 1024 / 1024) (omega arith),
)

count_text_fits : (n : ℕ) → n < 2 ^ 31 → length (count_text (some n)) < 32
unfolding count_text
count_text_fits n h =
    omega (arith, length-append (decimal n) (codes " Item"), length-decimal-le n (omega arith))

entry_count_fits :
    (files : Files) (p : List ℕ)
    → IsFiles files
    → length (count_text (get_entry_count files p)) < 32
unfolding get_entry_count
entry_count_fits files p v = elim (Option-cases (files.opendir p)) [
  | inl e ↦ rw (e, get_entry_count) (unfold count_text in omega arith)
  | inr (ds, e) ↦
      rw (e, get_entry_count)
        (count_text_fits (count_entries ds 0)
          (omega (arith, count_entries-le ds 0, v.count_fits p ds e)))
]

item_size_fits :
    (files : Files) (p : List ℕ) (dp : Dirent) (n : ℕ)
    → IsFiles files
    → n < 2 ^ 63
    → length (item_size_text files p dp n) < 32
unfolding item_size_text
item_size_fits files p dp n v h = elim (Bool-cases (dp.d_type == type_file)) [
  | inl e ↦ rw e (size_text_fits n h)
  | inr e ↦ rw e (entry_count_fits files p v)
]

type_text_fits : (dp : Dirent) → length (type_text dp) < 32
unfolding type_text
type_text_fits dp = ground arith

-- The row that MakeEntryItem fills in.
unfoldable pub item_row : Files → List ℕ → List ℕ → Dirent → List ℕ → ℕ → RowInfo
item_row files p req dp time n = record {
  link = link_text req dp.d_name;
  name = dp.d_name;
  type = type_text dp;
  size = item_size_text files p dp n;
  time = time;
}

-- The name of an entry and its link are short enough for their arrays.
abbrev pub IsShort : List ℕ → Dirent → Type 0
IsShort req dp = (length dp.d_name < 255) × (length (link_text req dp.d_name) < 2048)

-- The row for an entry, if `stat` knows it.
abbrev pub item_of : Files → List ℕ → List ℕ → Dirent → List ℕ → Option ℕ → Option RowInfo
item_of files p req dp time none = none
item_of files p req dp time (some n) = some (item_row files p req dp time n)

fill_item_lem :
    (files : Files) (p req : List ℕ) (dp : Dirent) (time : List ℕ) (n : ℕ)
    → IsFiles files
    → IsShort req dp
    → n < 2 ^ 63
    → fill_item files p req dp time n ≡ ok (item_row files p req dp time n)
unfolding fill_item item_row
fill_item_lem files p req dp time n v (short, link) h = rw (
  array_string_fits 2048 (link_text req dp.d_name) link,
  array_string_fits 255 dp.d_name short,
  array_string_fits 32 (type_text dp) (type_text_fits dp),
  array_string_fits 32 (item_size_text files p dp n) (item_size_fits files p dp n v h),
)

-- A row for an entry whose size is known, and none for one that `stat` fails on.
pub stat_item_lem :
    (files : Files) (p req : List ℕ) (dp : Dirent) (time : List ℕ)
    → IsFiles files
    → IsShort req dp
    → stat_item files p req dp time (files.stat p) ≡ ok (item_of files p req dp time (files.stat p))
unfolding stat_item
stat_item_lem files p req dp time v s = elim (Option-cases (files.stat p)) [
  | inl e ↦ rw (e, stat_item)
  | inr (n, e) ↦
      rw (e, stat_item) (rw (fill_item_lem files p req dp time n v s (v.stat_fits p n e)))
]

-- A name of 255 characters, which file systems allow, does not fit the array with its end.
pub fill_item_long :
    (files : Files) (p req : List ℕ) (dp : Dirent) (time : List ℕ) (n : ℕ)
    → 255 ≤ length dp.d_name
    → fill_item files p req dp time n ≡ fault
unfolding fill_item array_string
fill_item_long files p req dp time n h = ground arith

-- The row of an entry ends within the arrays, if the string that stood in `time` does.
pub item_row-IsRow :
    (files : Files) (p req : List ℕ) (dp : Dirent) (time : List ℕ) (n : ℕ)
    → IsFiles files
    → IsShort req dp
    → n < 2 ^ 63
    → length time < 32
    → IsRow (item_row files p req dp time n)
unfolding item_row
item_row-IsRow files p req dp time n v (short, link) h k = record {
  link_fits = link;
  name_fits = short;
  type_fits = type_text_fits dp;
  size_fits = item_size_fits files p dp n v h;
  time_fits = k;
}
