-- ===== src/Page/Tests.antt =====
-- The pages at concrete inputs.
use compile_service.Common.{◌≡◌, [], ◌∷◌, ◌++◌, some, ok, ◌>>=◌, arith, length, ◌+◌}
use compile_service.Text.{codes}
use compile_service.Samples.{zeros, zeros-Always}
use compile_service.Page.{
  RowInfo, row_format, sizeof_row_info, table_begin, table_title, table_end, row_text,
  to_table_string, create_table, insert_row,
}
use compile_service.Page.Rows.{
  IsRow, if_block, insert_rows, rows_text, insert_row_safe, table_document,
}

abbrev readme : RowInfo
readme = record {
  link = codes "/README.md";
  name = codes "README.md";
  type = codes "File";
  size = codes "312 Byte";
  time = [];
}

readme-IsRow : IsRow readme
readme-IsRow = record {
  link_fits = omega arith;
  name_fits = omega arith;
  type_fits = omega arith;
  size_fits = omega arith;
  time_fits = omega arith;
}

insert_row_safe_example :
    insert_row zeros zeros (some (codes "<table>")) (some readme)
    ≡ ok (
        some (
          if_block (zeros (length row_format + sizeof_row_info)) (codes "<table>") (
            if_block
              (zeros (7 + length (row_text readme) + 1))
              (codes "<table>")
              (codes "<table>" ++ row_text readme))))
insert_row_safe_example = insert_row_safe zeros zeros (codes "<table>") readme readme-IsRow

table_document_example :
    (create_table zeros >>= λ t.
    insert_rows zeros zeros t (readme ∷ readme ∷ []) >>= λ u. to_table_string zeros u)
    ≡ ok (some (table_begin ++ ((table_title ++ rows_text (readme ∷ readme ∷ [])) ++ table_end)))
table_document_example =
    table_document zeros zeros zeros-Always zeros-Always (readme ∷ readme ∷ [])
      (readme-IsRow, (readme-IsRow, tt))
