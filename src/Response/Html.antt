-- ===== src/Response/Html.antt =====
-- MakeHTML of response.c: the page of a directory, with a row that leads back to its parent.
pub mod Back
pub mod Up
pub mod Whole
use compile_service.Common.{
  ℕ, zero, suc, ◌+◌, ◌-◌, Bool, true, false, not, ◌&&◌, List, [], ◌∷◌, Option, none, some, ◌==◌,
  if◌then◌else◌, take, get_or, length, Malloc, Outcome, ok, fault, ◌>>=◌,
}
use compile_service.Text.{codes, array_string}
use compile_service.Page.{RowInfo, create_table, insert_row, to_table_string, to_page_string}
use compile_service.Page.Rows.{insert_rows}
use compile_service.Response.Paths.{slash, str_eq}
use compile_service.Response.Entries.{Files, type_dir, type_file, get_entry}

-- The answers of the allocator: blocks by their size, the blocks that a table grows into, the block
-- for so many entries with the strings in it, and whether small objects get memory.
pub record Memory : Type 0 where
  pub malloc : Malloc
  pub realloc : Malloc
  pub entries : ℕ → Bool
  pub junk : ℕ → List ℕ
  pub small : Bool

-- `while(back->link[i] != '/')i--;`, `none` when it runs below the string.
unfoldable pub slash_from : List ℕ → ℕ → Option ℕ
slash_from link zero = if get_or link zero 0 == slash then some zero else none
slash_from link (suc i) =
    let below = slash_from link i in if get_or link (suc i) 0 == slash then some (suc i) else below

-- The link of the row: the request up to its last slash, which stays if it is the first character.
unfoldable pub back_link : List ℕ → Outcome (List ℕ)
unfolding slash_from
back_link [] = fault
back_link (x ∷ xs) = elim (slash_from (x ∷ xs) (length xs)) [
  | none ↦ fault
  | some i ↦ ok (if i == 0 then take 1 (x ∷ xs) else take i (x ∷ xs))
]

unfoldable pub back_row : List ℕ → RowInfo
back_row link = record {
  link = link;
  name = codes "./..";
  type = codes "Back..";
  size = [];
  time = [];
}

-- The first `if` of MakeHTML.
unfoldable pub insert_back : Memory → Option (List ℕ) → List ℕ → Outcome (Option (List ℕ))
insert_back M table req =
    if not (str_eq req (codes "/")) && M.small
    then (array_string 2048 req >>= λ copied.
        back_link copied >>= λ link. insert_row M.malloc M.realloc table (some (back_row link)))
    else ok table

unfoldable pub insert_entries :
    Memory → Option (List ℕ) → Option (List RowInfo) → Outcome (Option (List ℕ))
insert_entries M table none = ok table
insert_entries M table (some rows) = insert_rows M.malloc M.realloc table rows

unfoldable pub entries_of : Memory → Files → List ℕ → List ℕ → ℕ → Outcome (Option (List RowInfo))
entries_of M files req root type =
    get_entry M.malloc M.entries M.junk M.small M.small files req root type

-- The rows of MakeHTML: first back, then the folders, then the files.
unfoldable pub fill_table :
    Memory → Files → List ℕ → List ℕ → Option (List ℕ) → Outcome (Option (List ℕ))
fill_table M files req root table = do
  backed ← insert_back M table req
  dirs ← entries_of M files req root type_dir
  with_dirs ← insert_entries M backed dirs
  plain ← entries_of M files req root type_file
  insert_entries M with_dirs plain

unfoldable pub make_html : Memory → Files → List ℕ → List ℕ → Outcome (Option (List ℕ))
make_html M files req root = create_table M.malloc >>= λ created. elim created [
  | none ↦ ok none
  | some table ↦ fill_table M files req root (some table) >>= λ filled.
      to_table_string M.malloc filled >>= λ ts. to_page_string M.malloc (some req) ts
]
