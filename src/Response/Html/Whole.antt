-- ===== src/Response/Html/Whole.antt =====
-- The page that MakeHTML gives for a directory: the row back, the folders, and the files.
use mathlib.Core.List.{Perm}
use compile_service.Common.{
  ℕ, map, ◌≡◌, ◌≢◌, refl, sym, ap, ◌∙◌, List, [], ◌∷◌, ◌++◌, some, append_assoc, ok, All, arith,
}
use compile_service.Text.{sprintf}
use compile_service.Text.Format.{new_string_granted, length-sprintf-le}
use compile_service.Page.{
  RowInfo, page_format, table_begin, table_title, table_end, to_page_string, row_text,
}
use compile_service.Page.Rows.{
  IsRow, rows_text, insert_rows_granted, create_table_granted, to_table_string_granted,
}
use compile_service.Response.Sort.{IsSorted}
use compile_service.Response.Paths.Join.{full_path}
use compile_service.Response.Entries.{Dirent, Files, type_dir, type_file, get_entry}
use compile_service.Response.Entries.Items.{IsFiles, IsShort}
use compile_service.Response.Entries.Listing.{listed_rows, IsKept, get_entry_rows}
use compile_service.Response.Entries.Shown.{without_time}
use compile_service.Response.Html.{Memory, insert_entries, entries_of, fill_table, make_html}
use compile_service.Response.Html.Up.{IsMemory, Backs, insert_back_lem}

-- A page around the rows of its table.
abbrev pub page_of : List ℕ → List RowInfo → List ℕ
page_of req rows =
    sprintf page_format (req ∷ (table_begin ++ ((table_title ++ rows_text rows) ++ table_end)) ∷ [])

rows_text-append : (xs ys : List RowInfo) → rows_text (xs ++ ys) ≡ rows_text xs ++ rows_text ys
rows_text-append [] ys = refl
rows_text-append (x ∷ xs) ys =
    ap (λ t. row_text x ++ t) (rows_text-append xs ys)
    ∙ sym (append_assoc (row_text x) (rows_text xs) (rows_text ys))

module _ (M : Memory) (v : IsMemory M) where
  kept_rows : (rows : List RowInfo) → All (IsKept M.junk) rows → All IsRow rows
  kept_rows [] a = tt
  kept_rows (r ∷ rows) (k, a) = (k v.short_junk, kept_rows rows a)

  insert_entries_lem :
      (table : List ℕ) (rows : List RowInfo)
      → All (IsKept M.junk) rows
      → insert_entries M (some table) (some rows) ≡ ok (some (table ++ rows_text rows))
  unfolding insert_entries
  insert_entries_lem table rows a =
      insert_rows_granted M.malloc M.realloc v.blocks v.longer rows table (kept_rows rows a)

  to_page_string_lem :
      (path ts : List ℕ)
      → to_page_string M.malloc (some path) (some ts)
        ≡ ok (some (sprintf page_format (path ∷ ts ∷ [])))
  unfolding to_page_string
  to_page_string_lem path ts =
      new_string_granted M.malloc _ (sprintf page_format (path ∷ ts ∷ [])) _ (v.blocks _).1
        (omega (arith, length-sprintf-le page_format (path ∷ ts ∷ [])))

  module _ (files : Files) (req root : List ℕ) (ds : List Dirent) (backs : List RowInfo)
      (known : IsFiles files) (rooted : root ≢ [])
      (opens : files.opendir (full_path root req) ≡ some ds) (short : All (IsShort req) ds)
      (back : Backs req backs) where
    entries_lem :
        (type : ℕ)
        → (rows : List RowInfo) × (entries_of M files req root type ≡ ok (some rows))
          × Perm (map without_time rows) (listed_rows files (full_path root req) req type ds)
          × IsSorted rows
          × All (IsKept M.junk) rows
    unfolding entries_of
    entries_lem type =
        let (rows, e, _, perm, sorted, kept) =
          get_entry_rows M.malloc M.entries M.junk files req root type ds v.blocks v.room known
            rooted opens short in
        (
          rows,
          ap (λ b. get_entry M.malloc M.entries M.junk b b files req root type) v.objects ∙ e,
          perm,
          sorted,
          kept,
        )

    fill_table_lem :
        (table : List ℕ) (dirs plain : List RowInfo)
        → entries_of M files req root type_dir ≡ ok (some dirs)
        → entries_of M files req root type_file ≡ ok (some plain)
        → All (IsKept M.junk) dirs
        → All (IsKept M.junk) plain
        → fill_table M files req root (some table)
          ≡ ok (some (table ++ rows_text (backs ++ (dirs ++ plain))))
    unfolding fill_table
    fill_table_lem table dirs plain d p kd kp =
        let t1 = table ++ rows_text backs in
        let t2 = t1 ++ rows_text dirs in
        let joined : t2 ++ rows_text plain ≡ table ++ rows_text (backs ++ (dirs ++ plain)) =
          append_assoc t1 (rows_text dirs) (rows_text plain)
          ∙ ap (λ t. t1 ++ t) (sym (rows_text-append dirs plain))
          ∙ append_assoc table (rows_text backs) (rows_text (dirs ++ plain))
          ∙ ap (λ t. table ++ t) (sym (rows_text-append backs (dirs ++ plain))) in
        rw (insert_back_lem M v req table backs back, d, insert_entries_lem t1 dirs kd, p)
          (insert_entries_lem t2 plain kp ∙ ap (λ t. ok (some t)) joined)

    -- MakeHTML with memory, on a directory that opens, for a request that is "/" or has a slash: the
    -- page has the path of the request and a table with, in this order, the row back, a row for each
    -- folder in the order of their names, and a row for each file in the order of their names. The
    -- row back leads to what stands before the last slash of the request, or to "/" if nothing does;
    -- "/" has none. The rows of folders and files show exactly the entries of these two types but
    -- `.`, `..` and what `stat` does not know: the link behind the path of the request, the name,
    -- "Folder" or "File", and the number of entries in the folder (-1 if it does not open) or the size
    -- of the file; a row's `time` may be any string. Nothing is written outside a block or an array.
    -- The request, every name and every link fit their arrays, and the strings that stand in the
    -- unwritten `time` do.
    pub make_html_lem :
        (dirs : List RowInfo) × (plain : List RowInfo) × (make_html M files req root
          ≡ ok (some (page_of req (backs ++ (dirs ++ plain)))))
        × Perm (map without_time dirs) (listed_rows files (full_path root req) req type_dir ds)
        × IsSorted dirs
        × Perm (map without_time plain) (listed_rows files (full_path root req) req type_file ds)
        × IsSorted plain
    unfolding make_html
    make_html_lem =
        let (dirs, d, perm_d, sorted_d, kd) = entries_lem type_dir in
        let (plain, p, perm_p, sorted_p, kp) = entries_lem type_file in
        let rows = table_title ++ rows_text (backs ++ (dirs ++ plain)) in
        let ts = table_begin ++ (rows ++ table_end) in
        (
          dirs,
          plain,
          rw (create_table_granted M.malloc M.realloc v.blocks v.longer, make_html)
              (rw (fill_table_lem table_title dirs plain d p kd kp) (
                rw (to_table_string_granted M.malloc M.realloc v.blocks v.longer rows)
                  (to_page_string_lem req ts))),
          perm_d,
          sorted_d,
          perm_p,
          sorted_p,
        )
