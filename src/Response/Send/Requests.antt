-- ===== src/Response/Send/Requests.antt =====
-- What RequestHandler sends for a file, and for a path that there is not.
use compile_service.Common.{
  ℕ, ap, ◌∙◌, Outcome, ◌>>=◌, ◌+◌, ◌-◌, ◌%◌, ◌^◌, ◌≤◌, ◌<◌, ◌≡◌, ◌∙◌, Bool, true, false, List, [],
  ◌∷◌, ◌++◌, Option, none, some, take, length, ok, arith, ◌≢◌,
}
use compile_service.Text.{sprintf}
use compile_service.Text.Format.{Always, length-sprintf-le, length-decimal-int, new_string_granted}
use compile_service.Page.{err_format, to_err_string}
use compile_service.Reader.{Reader}
use compile_service.Sender.{Sender}
use compile_service.TcpClient.{Client, send_raw}
use compile_service.Response.Paths.Join.{full_path, get_abs_path_granted}
use compile_service.Response.Entries.{Files, get_entry_count}
use compile_service.Response.Html.{Memory}
use compile_service.Response.Send.{
  int_text, html_format, file_format, html_response, file_head, send_text, respond, positive,
  bad_req_handler, send_file, send_contents, file_req_handler, answer_path, request_handler,
}
use compile_service.Response.Send.Delivery.{send_contents_lem}

length-int_text-le : (n : ℕ) → length (int_text n) ≤ 11
unfolding int_text
length-int_text-le n =
    ground (
      arith,
      length-decimal-int (n % 2 ^ 32) (omega arith),
      length-decimal-int (2 ^ 32 - n % 2 ^ 32),
    )

file_head_fits : (content : List ℕ) → length (file_head content) + 1 ≤ length file_format + 32
unfolding file_head
file_head_fits content = omega (
  arith,
  length-sprintf-le file_format (int_text (length content) ∷ []),
  length-int_text-le (length content),
)

html_response_fits :
    (html : List ℕ) → length (html_response html) + 1 ≤ length html_format + length html + 16
unfolding html_response
html_response_fits html = omega (
  arith,
  length-sprintf-le html_format (int_text (length html) ∷ html ∷ []),
  length-int_text-le (length html),
)

module _ (S : Sender) (F : Reader) (M : Memory) (always : Always M.malloc) where
  -- A page that is sent with memory for the answer: one call of `send`, with exactly the answer.
  pub respond_lem :
      (w : S.World) (c : Client) (html : List ℕ)
      → respond S M.malloc w (some c) (some html)
        ≡ ok (positive (S.send w (html_response html)).0, (S.send w (html_response html)).1)
  unfolding respond send_text send_raw
  respond_lem w c html =
      let block =
        new_string_granted M.malloc (length html_format + length html + 16) (html_response html) _
          (always _).1 (html_response_fits html) in
      rw (block, respond)

  -- RequestHandler with memory, on a root that is not empty and a path that there is not: it makes
  -- one call of `send`, with the page that says so behind its header, and nothing else is sent. The
  -- value of the call is that of a handler without `return`.
  pub request_handler_bad :
      (rounds : ℕ) (files : Files) (open_file : List ℕ → Option F.World) (w : S.World) (c : Client)
      (req root : List ℕ)
      → root ≢ []
      → files.exists (full_path root req) ≡ false
      → request_handler S F rounds M files open_file w (some c) (some req) (some root)
        ≡ ok (none, (S.send w (html_response (sprintf err_format (req ∷ [])))).1)
  unfolding request_handler answer_path bad_req_handler to_err_string
  request_handler_bad rounds files open_file w c req root rooted missing =
      let page = sprintf err_format (req ∷ []) in
      let block =
        new_string_granted M.malloc (length err_format + length req + 1) page _ (always _).1
          (omega (arith, length-sprintf-le err_format (req ∷ []))) in
      rw (get_abs_path_granted M.malloc req root always rooted, request_handler)
        (rw (missing, answer_path) (rw block (rw (respond_lem w c page))))

  -- With memory, and on a path that is an open file and no directory, the call is the sending of the
  -- file.
  pub request_handler-send_contents :
      (rounds : ℕ) (files : Files) (open_file : List ℕ → Option F.World) (w : S.World) (c : Client)
      (req root : List ℕ) (f : F.World)
      → root ≢ []
      → files.exists (full_path root req) ≡ true
      → files.opendir (full_path root req) ≡ none
      → open_file (full_path root req) ≡ some f
      → request_handler S F rounds M files open_file w (some c) (some req) (some root) ≡ (
          send_contents S F rounds w (some c) f (file_head (F.pending f)) >>= λ r.
          ok (some r.0, r.1))
  unfolding request_handler answer_path file_req_handler send_file get_entry_count
  request_handler-send_contents rounds files open_file w c req root f rooted there plain opens =
      let path = get_abs_path_granted M.malloc req root always rooted in
      let block =
        new_string_granted M.malloc (length file_format + 32) (file_head (F.pending f)) _
          (always _).1 (file_head_fits (F.pending f)) in
      rw (path, request_handler)
        (rw (there, answer_path, plain)
          (rw (path, file_req_handler) (rw (opens, (always 1024).1, send_file) (rw block))))

  -- RequestHandler with memory, on a path that is an open file of less than 2 ^ 31 bytes and no
  -- directory: it ends, with a round for each byte of the file and one more, and it answers. If it
  -- answers 1 then the connection has taken the first bytes of the header and behind them the whole
  -- file, in order, and nothing else.
  pub request_handler_file :
      (rounds : ℕ) (files : Files) (open_file : List ℕ → Option F.World) (w : S.World) (c : Client)
      (req root : List ℕ) (f : F.World)
      → root ≢ []
      → files.exists (full_path root req) ≡ true
      → files.opendir (full_path root req) ≡ none
      → open_file (full_path root req) ≡ some f
      → length (F.pending f) < rounds
      → length (F.pending f) < 2 ^ 31
      → (answer : Bool) × (w' : S.World) × (request_handler S F rounds M files open_file w
            (some c)
            (some req)
            (some root)
          ≡ ok (some answer, w'))
        × (answer ≡ true
            → (k : ℕ) × (S.sent w' ≡ S.sent w ++ (take k (file_head (F.pending f)) ++ F.pending f)))
  request_handler_file rounds files open_file w c req root f rooted there plain opens h small =
      let (answer, w', e, s) =
        send_contents_lem S F rounds w c f (file_head (F.pending f)) h small in
      (
        answer,
        w',
        request_handler-send_contents rounds files open_file w c req root f rooted there plain opens
            ∙ ap (λ (o : Outcome (Bool × S.World)). o >>= λ r. ok (some r.0, r.1)) e,
        s,
      )
