-- ===== src/Page/Rows.antt =====
-- Every text of a page fits the block that is allocated for it, and a page has all rows in order.
use compile_service.Common.{
  ℕ, ◌+◌, ◌≤◌, ◌<◌, ◌≡◌, refl, sym, ap, ◌∙◌, List, [], ◌∷◌, ◌++◌, Option, none, some, length,
  length-append, append_assoc, append-nil, Malloc, Outcome, ok, ◌>>=◌, arith, inl, inr, ◌⊎◌, All,
  Option-cases,
}
use compile_service.Text.{sprintf}
use compile_service.Text.Format.{
  length-sprintf-le, new_string_fits, new_string_granted, new_string_refused, Always,
}
use compile_service.Page.{
  RowInfo, page_format, err_format, table_begin, table_title, table_end, row_format, row_text, grow,
  sizeof_row_info, to_page_string, to_table_string, to_err_string, create_table, insert_row,
}

-- Each field ends within its array.
pub record IsRow (r : RowInfo) : Type 0 where
  pub link_fits : length r.link < 2048
  pub name_fits : length r.name < 255
  pub type_fits : length r.type < 32
  pub size_fits : length r.size < 32
  pub time_fits : length r.time < 32

row_text_fits :
    (r : RowInfo) → IsRow r → length (row_text r) + 1 ≤ length row_format + sizeof_row_info
unfolding row_text
row_text_fits r v =
    omega (arith, length-sprintf-le row_format (r.link ∷ r.name ∷ r.type ∷ r.size ∷ r.time ∷ []))

-- ToPageString, ToErrString: either there is no memory, or the page comes out whole. Neither writes
-- outside its block, whatever the path and the table are.
pub page_strings_safe :
    (malloc : Malloc) (path ts : List ℕ)
    → ((to_page_string malloc (some path) (some ts) ≡ ok none)
        ⊎ (to_page_string malloc (some path) (some ts)
            ≡ ok (some (sprintf page_format (path ∷ ts ∷ [])))))
      × ((to_err_string malloc (some path) ≡ ok none)
          ⊎ (to_err_string malloc (some path) ≡ ok (some (sprintf err_format (path ∷ [])))))
unfolding to_page_string to_err_string
page_strings_safe malloc path ts = (
  new_string_fits malloc _ _ (omega (arith, length-sprintf-le page_format (path ∷ ts ∷ []))),
  new_string_fits malloc _ _ (omega (arith, length-sprintf-le err_format (path ∷ []))),
)

-- `old` without a block, and else `new`.
abbrev pub if_block : Option (List ℕ) → List ℕ → List ℕ → List ℕ
if_block none old new = old
if_block (some block) old new = new

grow_lem :
    (realloc : Malloc) (table buf : List ℕ)
    → grow realloc table (some buf)
      ≡ ok (some (if_block (realloc (length table + length buf + 1)) table (table ++ buf)))
unfolding grow
grow_lem realloc table buf =
    let size = length table + length buf + 1 in
    elim (Option-cases (realloc size)) [
      | inl e ↦ rw (new_string_refused realloc size (table ++ buf) e, grow) (rw e)
      | inr (block, e) ↦
          rw
            (
              new_string_granted realloc size (table ++ buf) block e
                  (omega (arith, length-append table buf)),
              grow,
            )
            (rw e)
    ]

-- InsertRow on a row whose fields, `time` included, end within their arrays writes outside no block.
-- If `malloc` has a block for the text of the row and `realloc` one for both texts with their end,
-- then the text of the row joins the end of the table. If one of the two has none, the table stays as
-- it was.
pub insert_row_safe :
    (malloc realloc : Malloc) (table : List ℕ) (r : RowInfo)
    → IsRow r
    → insert_row malloc realloc (some table) (some r)
      ≡ ok (
          some (
            if_block (malloc (length row_format + sizeof_row_info)) table (
              if_block
                (realloc (length table + length (row_text r) + 1))
                table
                (table ++ row_text r))))
unfolding insert_row
insert_row_safe malloc realloc table r v =
    let size = length row_format + sizeof_row_info in
    elim (Option-cases (malloc size)) [
      | inl e ↦
          rw (new_string_refused malloc size (row_text r) e, insert_row)
            (rw e (unfold grow in refl))
      | inr (block, e) ↦
          rw (new_string_granted malloc size (row_text r) block e (row_text_fits r v), insert_row)
            (rw e (grow_lem realloc table (row_text r)))
    ]

-- The loop over the entries of a directory.
unfoldable pub insert_rows :
    Malloc → Malloc → Option (List ℕ) → List RowInfo → Outcome (Option (List ℕ))
insert_rows malloc realloc table [] = ok table
insert_rows malloc realloc table (r ∷ rs) =
    insert_row malloc realloc table (some r) >>= λ t. insert_rows malloc realloc t rs

abbrev pub rows_text : List RowInfo → List ℕ
rows_text [] = []
rows_text (r ∷ rs) = row_text r ++ rows_text rs

module _ (malloc realloc : Malloc) (a : Always malloc) (b : Always realloc) where
  pub insert_row_granted :
      (table : List ℕ) (r : RowInfo)
      → IsRow r
      → insert_row malloc realloc (some table) (some r) ≡ ok (some (table ++ row_text r))
  unfolding insert_row grow
  insert_row_granted table r v =
      let first =
        new_string_granted malloc (length row_format + sizeof_row_info) (row_text r) _ (a _).1
          (row_text_fits r v) in
      let second =
        new_string_granted realloc (length table + length (row_text r) + 1) (table ++ row_text r) _
          (b _).1 (omega (arith, length-append table (row_text r))) in
      rw (first, insert_row) (rw (second, grow))

  pub insert_rows_granted :
      (rs : List RowInfo) (table : List ℕ)
      → All IsRow rs
      → insert_rows malloc realloc (some table) rs ≡ ok (some (table ++ rows_text rs))
  unfolding insert_rows
  insert_rows_granted [] table v = ap (λ t. ok (some t)) (sym (append-nil table))
  insert_rows_granted (r ∷ rs) table (v, vs) =
      ap (λ o. o >>= λ t. insert_rows malloc realloc t rs) (insert_row_granted table r v)
      ∙ insert_rows_granted rs (table ++ row_text r) vs
      ∙ ap (λ t. ok (some t)) (append_assoc table (row_text r) (rows_text rs))

  pub create_table_granted : create_table malloc ≡ ok (some table_title)
  unfolding create_table
  create_table_granted =
      new_string_granted malloc (length table_title + 1) table_title _ (a _).1 (omega arith)

  pub to_table_string_granted :
      (table : List ℕ)
      → to_table_string malloc (some table) ≡ ok (some (table_begin ++ (table ++ table_end)))
  unfolding to_table_string
  to_table_string_granted table =
      new_string_granted malloc (length table + length table_begin + length table_end + 1)
        (table_begin ++ (table ++ table_end)) _ (a _).1
        (omega
          (arith, length-append table_begin (table ++ table_end), length-append table table_end))

  -- With memory, a table that is created, filled with rows of which every field, `time` included,
  -- ends within its array, and closed is the opening tag, the title row, the text of every row in
  -- order, and the closing tag.
  pub table_document :
      (rs : List RowInfo)
      → All IsRow rs
      → (create_table malloc >>= λ t.
          insert_rows malloc realloc t rs >>= λ u. to_table_string malloc u)
        ≡ ok (some (table_begin ++ ((table_title ++ rows_text rs) ++ table_end)))
  table_document rs v = rw create_table_granted (
      ap (λ o. o >>= λ u. to_table_string malloc u) (insert_rows_granted rs table_title v)
      ∙ to_table_string_granted (table_title ++ rows_text rs))
