-- ===== src/Main/Requests/Tests.antt =====
-- Requests for a file and for a directory at concrete inputs.
use mathlib.Core.List.{Perm}
use compile_service.Common.{
  ℕ, ◌≡◌, refl, true, List, [], ◌∷◌, ◌++◌, map, none, some, take, ok, fault, false, arith,
}
use compile_service.Text.{codes}
use compile_service.Page.{RowInfo}
use compile_service.Samples.{memory, open_line, script, client}
use compile_service.Samples.Connection.{open_line-IsWhole, script-IsSteady}
use compile_service.Samples.Folder.{
  entries, folder, folder-IsFiles, entries-IsShort, memory-IsMemory, src-Backs,
}
use compile_service.Response.Sort.{IsSorted}
use compile_service.Response.Paths.{ends_slash, str_eq}
use compile_service.Response.Paths.Join.{base, lead, full_path}
use compile_service.Response.Entries.{type_dir, type_file}
use compile_service.Response.Entries.Shown.{without_time}
use compile_service.Response.Entries.Listing.{listed_rows}
use compile_service.Response.Html.Up.{up_row}
use compile_service.Response.Html.Whole.{page_of}
use compile_service.Response.Send.{file_head, html_response}
use compile_service.Main.Requests.{is_space, do_resp, process_thread}
use compile_service.TcpClient.{client_is_valid}
use compile_service.Main.Requests.Parse.{get_line}
use compile_service.Main.Requests.Served.{
  IsLine, file, do_resp_file, do_resp_dir, process_thread-fault,
}

abbrev line : List ℕ → ℕ → List ℕ
line path n = get_line path (codes "HTTP/1.1\r\n\r\n")

yes-IsLine : IsLine client (λ fd. some 21) (line (codes "/yes")) (codes "/yes")
unfolding is_space
yes-IsLine = record {
  rest = codes "HTTP/1.1\r\n\r\n";
  len = 21;
  named = λ e. cc;
  plain = ((refl, refl), ((refl, refl), ((refl, refl), ((refl, refl), tt))));
  waits = refl;
  some_bytes = omega arith;
  here = refl;
  fits = omega arith;
}

src-IsLine : IsLine client (λ fd. some 21) (line (codes "/src")) (codes "/src")
unfolding is_space
src-IsLine = record {
  rest = codes "HTTP/1.1\r\n\r\n";
  len = 21;
  named = λ e. cc;
  plain = ((refl, refl), ((refl, refl), ((refl, refl), ((refl, refl), tt))));
  waits = refl;
  some_bytes = omega arith;
  here = refl;
  fits = omega arith;
}

do_resp_file_example :
    (w' : List ℕ) × (k : ℕ) × (do_resp open_line script 9 memory folder
        (λ path. some (codes "abc"))
        []
        (λ fd. some 21)
        (some client)
        (codes "/srv")
        []
        (line (codes "/yes"))
      ≡ ok (true, w'))
    × (w' ≡ [] ++ (take k (file_head (codes "abc")) ++ codes "abc"))
unfolding str_eq base ends_slash lead
do_resp_file_example =
    do_resp_file open_line script memory memory-IsMemory 9 folder (λ path. some (codes "abc"))
      client (codes "/srv") [] [] (λ fd. some 21) (line (codes "/yes")) (codes "/yes") (codes "abc")
      open_line-IsWhole script-IsSteady yes-IsLine (λ e. cc) refl refl refl (omega arith)
      (omega arith)

do_resp_dir_example :
    (dirs : List RowInfo) × (plain : List RowInfo) × (do_resp open_line script 9 memory folder
        (λ path. none)
        []
        (λ fd. some 21)
        (some client)
        (codes "/srv")
        []
        (line (codes "/src"))
      ≡ ok (
        true,
        [] ++ html_response (page_of (codes "/src") ((up_row (codes "/") ∷ []) ++ (dirs ++ plain))),
      ))
    × Perm (map without_time dirs) (
        listed_rows folder
          (full_path (codes "/srv") (codes "/src"))
          (codes "/src")
          type_dir
          entries)
    × IsSorted dirs
    × Perm (map without_time plain) (
        listed_rows folder
          (full_path (codes "/srv") (codes "/src"))
          (codes "/src")
          type_file
          entries)
    × IsSorted plain
unfolding str_eq base ends_slash lead
do_resp_dir_example =
    do_resp_dir open_line script memory memory-IsMemory 9 folder (λ path. none) client
      (codes "/srv") [] [] (λ fd. some 21) (line (codes "/src")) (codes "/src") entries
      (up_row (codes "/") ∷ []) src-IsLine folder-IsFiles (λ e. cc) refl refl entries-IsShort
      src-Backs

process_thread-fault_example :
    process_thread open_line script 7 9 memory folder
      (λ path. some (codes "abc"))
      (λ w fd. 1)
      (λ w fd. some 21)
      client
      (codes "/srv")
      []
      (λ w. line (codes "/yes"))
      false
      []
    ≡ fault
unfolding client_is_valid str_eq base ends_slash lead
process_thread-fault_example =
    process_thread-fault open_line script memory memory-IsMemory 9 folder
      (λ path. some (codes "abc")) client (codes "/srv") [] 5 (λ w fd. 1) (λ w fd. some 21)
      (λ w. line (codes "/yes")) [] (codes "/yes") refl yes-IsLine (λ e. cc)
      (file (codes "abc") refl refl refl (omega arith) (omega arith))
