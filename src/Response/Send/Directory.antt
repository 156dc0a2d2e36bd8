-- ===== src/Response/Send/Directory.antt =====
-- What RequestHandler sends for a directory.
use mathlib.Core.List.{Perm}
use compile_service.Common.{ℕ, ◌≡◌, ◌≢◌, true, List, [], ◌++◌, Option, none, some, map, ok, All}
use compile_service.Page.{RowInfo}
use compile_service.Reader.{Reader}
use compile_service.Sender.{Sender}
use compile_service.TcpClient.{Client}
use compile_service.Response.Sort.{IsSorted}
use compile_service.Response.Paths.Join.{full_path, get_abs_path_granted}
use compile_service.Response.Entries.{Dirent, Files, type_dir, type_file, get_entry_count}
use compile_service.Response.Entries.Items.{IsFiles, IsShort}
use compile_service.Response.Entries.Listing.{listed_rows}
use compile_service.Response.Entries.Shown.{without_time}
use compile_service.Response.Html.{Memory}
use compile_service.Response.Html.Up.{IsMemory, Backs}
use compile_service.Response.Html.Whole.{page_of, make_html_lem}
use compile_service.Response.Send.{html_response, dir_req_handler, answer_path, request_handler}
use compile_service.Response.Send.Requests.{respond_lem}

module _ (S : Sender) (F : Reader) (M : Memory) (v : IsMemory M) where
  -- RequestHandler with memory, on a directory that opens: one call of `send`, with the directory's
  -- page behind its header, and nothing else is sent. The page and its rows are those of MakeHTML.
  -- The value of the call is that of a handler without `return`.
  pub request_handler_dir :
      (rounds : ℕ) (files : Files) (open_file : List ℕ → Option F.World) (w : S.World) (c : Client)
      (req root : List ℕ) (ds : List Dirent) (backs : List RowInfo)
      → IsFiles files
      → root ≢ []
      → files.exists (full_path root req) ≡ true
      → files.opendir (full_path root req) ≡ some ds
      → All (IsShort req) ds
      → Backs req backs
      → (dirs : List RowInfo) × (plain : List RowInfo) × (request_handler S F rounds M files
            open_file w
            (some c)
            (some req)
            (some root)
          ≡ ok (none, (S.send w (html_response (page_of req (backs ++ (dirs ++ plain))))).1))
        × Perm (map without_time dirs) (listed_rows files (full_path root req) req type_dir ds)
        × IsSorted dirs
        × Perm (map without_time plain) (listed_rows files (full_path root req) req type_file ds)
        × IsSorted plain
  unfolding request_handler answer_path get_entry_count dir_req_handler
  request_handler_dir rounds files open_file w c req root ds backs known rooted there opens short
        back =
      let (dirs, plain, page, pd, sd, pp, sp) =
        make_html_lem M v files req root ds backs known rooted opens short back in
      (
        dirs,
        plain,
        rw (get_abs_path_granted M.malloc req root v.blocks rooted, request_handler)
            (rw (there, answer_path, opens)
              (rw page
                (rw (respond_lem S F M v.blocks w c (page_of req (backs ++ (dirs ++ plain))))))),
        pd,
        sd,
        pp,
        sp,
      )
