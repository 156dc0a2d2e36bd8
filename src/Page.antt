-- ===== src/Page.antt =====
-- page.c: the HTML of a directory. A table is the text of its rows, `none` the null pointer.
pub mod Rows
mod Tests
use compile_service.Common.{
  ℕ, ◌+◌, List, [], ◌∷◌, ◌++◌, Option, none, some, length, Malloc, Outcome, ok, fault, ◌>>=◌,
}
use compile_service.Text.{codes, sprintf, new_string}
use compile_service.Heap.{Heap, free}

-- The arrays of RowInfo hold one C string each.
pub record RowInfo : Type 0 where
  pub link : List ℕ
  pub name : List ℕ
  pub type : List ℕ
  pub size : List ℕ
  pub time : List ℕ

-- sizeof(RowInfo): arrays of 2048, 255 and three times 32 bytes.
abbrev pub sizeof_row_info : ℕ
sizeof_row_info = 2048 + 255 + 32 + 32 + 32

unfoldable pub page_format : List ℕ
page_format =
    codes
      "<!DOCTYPE html><html>  <head>    <meta charset=\"utf-8\">    <title>DownLoader Server</title>  </head>  <body>    <h1> Http File Server</h1>    <hr/>    <h3>Path: %s</h3>    %s  </body></html>"

unfoldable pub err_format : List ℕ
err_format =
    codes
      "<!DOCTYPE html><html>  <head>    <meta charset=\"utf-8\">    <title>DownLoader</title>  </head>  <body>    <h1> Http File Server</h1>    <hr/>    <h2>OOPS!!!</h2>    <h3>Path: '%s' is NOT available...</h3>  </body></html>"

unfoldable pub table_begin : List ℕ
table_begin = codes "<table border=\"1\" width=\"100%\">"

unfoldable pub table_title : List ℕ
table_title =
    codes
      "  <tr>    <th>File Name</th><th>File Type</th><th>File Size</th><th>Modify Time</th>  </tr>"

unfoldable pub row_format : List ℕ
row_format = codes "<tr>  <td><a href=\"%s\">%s</a></td><td>%s</td><td>%s</td><td>%s</td></tr>"

unfoldable pub table_end : List ℕ
table_end = codes "  </tr></table>"

unfoldable pub to_page_string :
    Malloc → Option (List ℕ) → Option (List ℕ) → Outcome (Option (List ℕ))
to_page_string malloc none ts = ok none
to_page_string malloc (some path) none = ok none
to_page_string malloc (some path) (some ts) =
    new_string malloc (length page_format + length path + length ts + 1)
      (sprintf page_format (path ∷ ts ∷ []))

unfoldable pub create_table : Malloc → Outcome (Option (List ℕ))
create_table malloc = new_string malloc (length table_title + 1) table_title

unfoldable pub to_table_string : Malloc → Option (List ℕ) → Outcome (Option (List ℕ))
to_table_string malloc none = ok none
to_table_string malloc (some table) =
    new_string malloc (length table + length table_begin + length table_end + 1)
      (table_begin ++ (table ++ table_end))

unfoldable pub to_err_string : Malloc → Option (List ℕ) → Outcome (Option (List ℕ))
to_err_string malloc none = ok none
to_err_string malloc (some path) =
    new_string malloc (length err_format + length path + 1) (sprintf err_format (path ∷ []))

-- The text of a row.
unfoldable pub row_text : RowInfo → List ℕ
row_text info = sprintf row_format (info.link ∷ info.name ∷ info.type ∷ info.size ∷ info.time ∷ [])

-- `realloc` for the longer table: a table that cannot grow stays as it was.
unfoldable pub grow : Malloc → List ℕ → Option (List ℕ) → Outcome (Option (List ℕ))
grow realloc table none = ok (some table)
grow realloc table (some buf) =
    new_string realloc (length table + length buf + 1) (table ++ buf) >>= λ longer. elim longer [
      | none ↦ ok (some table)
      | some t ↦ ok (some t)
    ]

unfoldable pub insert_row :
    Malloc → Malloc → Option (List ℕ) → Option RowInfo → Outcome (Option (List ℕ))
insert_row malloc realloc none info = ok none
insert_row malloc realloc (some table) none = ok none
insert_row malloc realloc (some table) (some info) =
    new_string malloc (length row_format + sizeof_row_info) (row_text info) >>= λ buf.
    grow realloc table buf

-- FreeTable, on the address of the table.
unfoldable pub free_table : Option ℕ → Heap → Outcome Heap
free_table table heap = free table heap
