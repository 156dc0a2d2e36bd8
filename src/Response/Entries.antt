-- ===== src/Response/Entries.antt =====
-- The entries of a directory: GetEntryCount, MakeEntryItem and GetEntry of response.c. The file
-- system is a parameter.
pub mod Items
pub mod Shown
pub mod Listing
use compile_service.Common.{
  ℕ, zero, suc, ◌+◌, ◌/◌, Bool, true, false, not, ◌&&◌, ◌||◌, List, [], ◌∷◌, ◌++◌, Option, none,
  some, ◌==◌, ltb, if◌then◌else◌, length, Malloc, Outcome, ok, fault, ◌>>=◌,
}
use compile_service.Text.{codes, decimal, array_string}
use compile_service.Page.{RowInfo}
use compile_service.Response.{sort_file_entry}
use compile_service.Response.Paths.{get_abs_path, is_dot_path, str_eq}

-- `d_type` and `d_name` of an entry.
pub record Dirent : Type 0 where
  pub d_type : ℕ
  pub d_name : List ℕ

abbrev pub type_all : ℕ
type_all = 0x00

abbrev pub type_dir : ℕ
type_dir = 0x04

abbrev pub type_file : ℕ
type_file = 0x08

-- opendir with what readdir then gives, the size by stat, and access.
pub record Files : Type 0 where
  pub opendir : List ℕ → Option (List Dirent)
  pub stat : List ℕ → Option ℕ
  pub exists : List ℕ → Bool

unfoldable pub count_entries : List Dirent → ℕ → ℕ
count_entries [] ret = ret
count_entries (dp ∷ ds) ret = count_entries ds (if is_dot_path dp.d_name then ret else ret + 1)

-- GetEntryCount; `none` is the answer -1.
unfoldable pub get_entry_count : Files → List ℕ → Option ℕ
unfolding count_entries
get_entry_count files path = elim (files.opendir path) [
  | none ↦ none
  | some ds ↦ some (count_entries ds 0)
]

unfoldable pub size_text : ℕ → List ℕ
size_text size =
    if ltb size 1024
    then decimal size ++ codes " Byte"
    else if ltb (size / 1024) 1024
    then decimal (size / 1024) ++ codes " KB"
    else decimal (size / 1024 / 1024) ++ codes " MB"

unfoldable pub count_text : Option ℕ → List ℕ
count_text none = codes "-1 Item"
count_text (some n) = decimal n ++ codes " Item"

unfoldable pub link_text : List ℕ → List ℕ → List ℕ
link_text req name = if str_eq req (codes "/") then req ++ name else (req ++ codes "/") ++ name

unfoldable pub type_text : Dirent → List ℕ
type_text dp = if dp.d_type == type_file then codes "File" else codes "Folder"

unfoldable pub item_size_text : Files → List ℕ → Dirent → ℕ → List ℕ
item_size_text files path dp size =
    if dp.d_type == type_file then size_text size else count_text (get_entry_count files path)

-- The copies into `item`. `time` is not written: it is the string that the memory held.
unfoldable pub fill_item : Files → List ℕ → List ℕ → Dirent → List ℕ → ℕ → Outcome RowInfo
fill_item files path req dp time size = do
  link ← array_string 2048 (link_text req dp.d_name)
  name ← array_string 255 dp.d_name
  type ← array_string 32 (type_text dp)
  size ← array_string 32 (item_size_text files path dp size)
  ok (record { link = link; name = name; type = type; size = size; time = time })

unfoldable pub stat_item :
    Files → List ℕ → List ℕ → Dirent → List ℕ → Option ℕ → Outcome (Option RowInfo)
stat_item files path req dp time none = ok none
stat_item files path req dp time (some size) =
    fill_item files path req dp time size >>= λ item. ok (some item)

-- MakeEntryItem; `none` is the answer 0.
unfoldable pub make_entry_item :
    Malloc → Files → Dirent → List ℕ → List ℕ → List ℕ → Outcome (Option RowInfo)
make_entry_item malloc files dp ap req time = get_abs_path malloc dp.d_name ap >>= λ path.
    elim path [ none ↦ ok none | some p ↦ stat_item files p req dp time (files.stat p) ]

-- `fe->data` and the number of entries that the block has room for.
unfoldable pub push_item : List RowInfo → ℕ → Option RowInfo → Outcome (List RowInfo)
push_item rows max none = ok rows
push_item rows max (some item) = if ltb (length rows) max then ok (rows ++ (item ∷ [])) else fault

unfoldable pub accepts : ℕ → Dirent → Bool
accepts type dp = (type == type_all || type == dp.d_type) && not (is_dot_path dp.d_name)

-- `if(*pLen == max) max = max + STEP`
unfoldable pub grown : List RowInfo → ℕ → ℕ
grown rows max = if length rows == max then max + 5 else max

-- The body of the loop's last `if`: an item for this entry, or none. `time` is the string that
-- stands in the item's unwritten `time`.
unfoldable pub candidate :
    Malloc → Files → List ℕ → List ℕ → ℕ → Dirent → List ℕ → Outcome (Option RowInfo)
candidate malloc files ap req type dp time =
    if accepts type dp then make_entry_item malloc files dp ap req time else ok none

-- The loop of GetEntry. `realloc max` says whether a block for `max` entries is given, `junk n` what
-- string stands in the unwritten `time` of entry `n`. With no block the loop ends, and the answer is
-- NULL: `pLen` is then the address of the first member of NULL.
unfoldable pub entry_loop :
    Malloc
    → (ℕ → Bool)
    → (ℕ → List ℕ)
    → Files
    → List ℕ
    → List ℕ
    → ℕ
    → List Dirent
    → List RowInfo
    → ℕ
    → Outcome (Option (List RowInfo))
entry_loop malloc realloc junk files ap req type [] rows max = ok (some rows)
entry_loop malloc realloc junk files ap req type (dp ∷ ds) rows max =
    let max' = grown rows max in
    elim (length rows == max && not (realloc max')) [
      | true ↦ ok none
      | false ↦ candidate malloc files ap req type dp (junk (length rows)) >>= λ item.
          push_item rows max' item >>= λ rows'.
          entry_loop malloc realloc junk files ap req type ds rows' max'
    ]

abbrev pub sort_some : Bool → Option (List RowInfo) → Option (List RowInfo)
sort_some temp none = none
sort_some temp (some rows) = some (sort_file_entry temp rows)

-- What GetEntry does in an open directory, `first` being whether its first `malloc` gives a block.
unfoldable pub read_entries :
    Malloc
    → (ℕ → Bool)
    → (ℕ → List ℕ)
    → Bool
    → Bool
    → Files
    → List ℕ
    → List ℕ
    → ℕ
    → List Dirent
    → Outcome (Option (List RowInfo))
read_entries malloc realloc junk first temp files ap req type ds =
    if first
    then (entry_loop malloc realloc junk files ap req type ds [] 0 >>= λ rows.
        ok (sort_some temp rows))
    else ok none

unfoldable pub get_entry :
    Malloc
    → (ℕ → Bool)
    → (ℕ → List ℕ)
    → Bool
    → Bool
    → Files
    → List ℕ
    → List ℕ
    → ℕ
    → Outcome (Option (List RowInfo))
get_entry malloc realloc junk first temp files req root type =
    get_abs_path malloc req root >>= λ ap. elim ap [
      | none ↦ ok none
      | some p ↦ elim (files.opendir p) [
        | none ↦ ok none
        | some ds ↦ read_entries malloc realloc junk first temp files p req type ds
      ]
    ]
