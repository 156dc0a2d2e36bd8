-- ===== src/Main/Requests/Served.antt =====
-- From the bytes of a request to what its client gets: DoResp together with RequestHandler.
use mathlib.Core.List.{Perm}
use compile_service.Common.{
  ℕ, ◌≤◌, ◌<◌, ◌^◌, ◌≡◌, ◌≢◌, sym, ap, ◌∙◌, Bool, true, false, suc, fault, List, [], ◌++◌, Option,
  none, some, length, take, map, Outcome, ok, ◌>>=◌, All,
}
use compile_service.Reader.{IsSteady, Reader}
use compile_service.Sender.{IsWhole, Sender}
use compile_service.Page.{RowInfo}
use compile_service.TcpClient.{Client, client_is_valid}
use compile_service.Response.Sort.{IsSorted}
use compile_service.Response.Paths.Join.{full_path}
use compile_service.Response.Entries.{Dirent, Files, type_dir, type_file}
use compile_service.Response.Entries.Items.{IsFiles, IsShort}
use compile_service.Response.Entries.Listing.{listed_rows}
use compile_service.Response.Entries.Shown.{without_time}
use compile_service.Response.Html.{Memory}
use compile_service.Response.Html.Up.{IsMemory, Backs}
use compile_service.Response.Html.Whole.{page_of}
use compile_service.Response.Send.{file_head, html_response, request_handler}
use compile_service.Response.Send.Requests.{request_handler_bad, request_handler_file}
use compile_service.Response.Send.Success.{request_handler_served}
use compile_service.Response.Send.Directory.{request_handler_dir}
use compile_service.Main.Requests.{do_resp, process_thread}
use compile_service.Main.Requests.Parse.{IsPlain, get_line, do_resp_lem}

-- A request line for `path` waits whole on the client's descriptor, in at most 2048 bytes.
pub record IsLine (c : Client) (peek : Option ℕ → Option ℕ) (arrived : ℕ → List ℕ) (path : List ℕ)
    : Type 0 where
  pub rest : List ℕ
  pub len : ℕ
  pub named : path ≢ []
  pub plain : All IsPlain path
  pub waits : peek c.fd ≡ some len
  pub some_bytes : 0 < len
  pub here : arrived len ≡ get_line path rest
  pub fits : length (get_line path rest) ≤ 2048

-- What a path may name: nothing, an open file of less than 2 ^ 31 bytes and fewer than the rounds, or
-- a directory that opens and whose names and links fit their arrays.
pub data Target (F : Reader) (rounds : ℕ) (files : Files) (open_file : List ℕ → Option F.World)
    (root path : List ℕ) : Type 0 where
  missing : files.exists (full_path root path) ≡ false → Target F rounds files open_file root path
  file :
      (f : F.World)
      → files.exists (full_path root path) ≡ true
      → files.opendir (full_path root path) ≡ none
      → open_file (full_path root path) ≡ some f
      → length (F.pending f) < rounds
      → length (F.pending f) < 2 ^ 31
      → Target F rounds files open_file root path
  directory :
      (ds : List Dirent) (backs : List RowInfo)
      → IsFiles files
      → files.exists (full_path root path) ≡ true
      → files.opendir (full_path root path) ≡ some ds
      → All (IsShort path) ds
      → Backs path backs
      → Target F rounds files open_file root path

module _ (S : Sender) (F : Reader) (M : Memory) (v : IsMemory M) (rounds : ℕ) (files : Files)
    (open_file : List ℕ → Option F.World) (c : Client) (root junk : List ℕ) where
  through :
      (w : S.World) (peek : Option ℕ → Option ℕ) (arrived : ℕ → List ℕ) (path : List ℕ)
      (answer : Option Bool) (w' : S.World)
      → IsLine c peek arrived path
      → request_handler S F rounds M files open_file w (some c) (some path) (some root)
        ≡ ok (answer, w')
      → do_resp S F rounds M files open_file w peek (some c) root junk arrived ≡ ok (true, w')
  through w peek arrived path answer w' l run =
      do_resp_lem S F M v.blocks rounds files open_file c root junk w peek arrived l.len path l.rest
        l.named l.plain l.waits l.some_bytes l.here l.fits
      ∙ ap (λ (o : Outcome (Option Bool × S.World)). o >>= λ r. ok (true, r.1)) run

  -- DoResp with memory, when a request line waits whole, for a path that is an open file of less
  -- than 2 ^ 31 bytes and no directory, the connection takes every byte and no read fails: the client
  -- gets the first bytes of the header and behind them the whole file, in order, and nothing else,
  -- and it is deleted then.
  pub do_resp_file :
      (w : S.World) (peek : Option ℕ → Option ℕ) (arrived : ℕ → List ℕ) (path : List ℕ)
      (f : F.World)
      → IsWhole S
      → IsSteady F
      → IsLine c peek arrived path
      → root ≢ []
      → files.exists (full_path root path) ≡ true
      → files.opendir (full_path root path) ≡ none
      → open_file (full_path root path) ≡ some f
      → length (F.pending f) < rounds
      → length (F.pending f) < 2 ^ 31
      → (w' : S.World) × (k : ℕ) × (do_resp S F rounds M files open_file w peek
            (some c)
            root
            junk
            arrived
          ≡ ok (true, w'))
        × (S.sent w' ≡ S.sent w ++ (take k (file_head (F.pending f)) ++ F.pending f))
  do_resp_file w peek arrived path f whole steady l rooted there plain opens h small =
      let (answer, w', run, gets) =
        request_handler_file S F M v.blocks rounds files open_file w c path root f rooted there
          plain opens h small in
      let (w1, served) =
        request_handler_served S F whole steady M rounds files open_file w c path root f v.blocks
          rooted there plain opens h small in
      let yes : answer ≡ true = same_answer (sym run ∙ served) in
      (w', (gets yes).0, through w peek arrived path (some answer) w' l run, (gets yes).1)
    where
      same_answer :
          {W : Type 0} {b : Bool} {w w' : W}
          → ◌≡◌ {A = Outcome (Option Bool × W)} (ok (some b, w)) (ok (some true, w'))
          → b ≡ true
      same_answer e = cc

  -- DoResp with memory, when a request line waits whole, for a directory that opens, by a path that
  -- is "/" or has a slash: `send` is called once, with the directory's page behind its header, nothing
  -- else is sent, and the client is deleted then. The page has the row back, which leads to what
  -- stands before the last slash of the path, or to "/" if nothing does, and which "/" has not; then
  -- a row for each folder and a row for each file, both in the order of their names; `.`, `..` and
  -- what `stat` does not know have none. The rows show the link behind the path, the name, "Folder"
  -- or "File", and the number of entries (-1 for a folder that does not open) or the size; a row's
  -- `time` may be any string. The path, every name and every link fit their arrays, and the strings
  -- that stand in the unwritten `time` do.
  pub do_resp_dir :
      (w : S.World) (peek : Option ℕ → Option ℕ) (arrived : ℕ → List ℕ) (path : List ℕ)
      (ds : List Dirent) (backs : List RowInfo)
      → IsLine c peek arrived path
      → IsFiles files
      → root ≢ []
      → files.exists (full_path root path) ≡ true
      → files.opendir (full_path root path) ≡ some ds
      → All (IsShort path) ds
      → Backs path backs
      → (dirs : List RowInfo) × (plain : List RowInfo) × (do_resp S F rounds M files open_file w
            peek
            (some c)
            root
            junk
            arrived
          ≡ ok (true, (S.send w (html_response (page_of path (backs ++ (dirs ++ plain))))).1))
        × Perm (map without_time dirs) (listed_rows files (full_path root path) path type_dir ds)
        × IsSorted dirs
        × Perm (map without_time plain) (listed_rows files (full_path root path) path type_file ds)
        × IsSorted plain
  do_resp_dir w peek arrived path ds backs l known rooted there opens short back =
      let (dirs, plain, run, pd, sd, pp, sp) =
        request_handler_dir S F M v rounds files open_file w c path root ds backs known rooted there
          opens short back in
      (dirs, plain, through w peek arrived path none _ l run, pd, sd, pp, sp)

  answered :
      (w : S.World) (path : List ℕ)
      → root ≢ []
      → Target F rounds files open_file root path
      → (answer : Option Bool) × (w' : S.World) × (request_handler S F rounds M files open_file w
            (some c)
            (some path)
            (some root)
          ≡ ok (answer, w'))
  answered w path rooted (missing gone) =
      (_, _, request_handler_bad S F M v.blocks rounds files open_file w c path root rooted gone)
  answered w path rooted (file f there plain opens h small) =
      let (answer, w', run, _) =
        request_handler_file S F M v.blocks rounds files open_file w c path root f rooted there
          plain opens h small in
      (some answer, w', run)
  answered w path rooted (directory ds backs known there opens short back) =
      let (_, _, run, _, _, _, _) =
        request_handler_dir S F M v rounds files open_file w c path root ds backs known rooted there
          opens short back in
      (_, _, run)

  -- Process_Thread with memory, on a client that is valid and whose request line waits whole, for a
  -- path that there is not, for an open file of less than 2 ^ 31 bytes, or for a directory that opens
  -- by a path that is "/" or has a slash: whatever `send` answers, DoResp deletes the client, and the
  -- next test of the loop reads the freed memory. Two rounds of the loop come to that.
  pub process_thread-fault :
      (n : ℕ) (established : S.World → Option ℕ → ℕ) (peek : S.World → Option ℕ → Option ℕ)
      (arrived : S.World → ℕ → List ℕ) (w : S.World) (path : List ℕ)
      → client_is_valid (established w) (some c) ≡ true
      → IsLine c (peek w) (arrived w) path
      → root ≢ []
      → Target F rounds files open_file root path
      → process_thread S F
          (suc (suc n))
          rounds
          M
          files
          open_file
          established
          peek
          c
          root
          junk
          arrived
          false
          w
        ≡ fault
  unfolding process_thread
  process_thread-fault n established peek arrived w path valid l rooted target =
      let (answer, w', run) = answered w path rooted target in
      let gone = through w (peek w) (arrived w) path answer w' l run in
      rw (valid, process_thread, gone)
