-- ===== src/Response/Send.antt =====
-- The answers of response.c: Response, the three handlers, and RequestHandler. Descriptors are the
-- states of the two interfaces.
pub mod Delivery
pub mod Requests
pub mod Success
pub mod Directory
mod Tests
use compile_service.Common.{
  ℕ, zero, suc, ◌+◌, ◌-◌, ◌%◌, ◌^◌, Bool, true, false, List, [], ◌∷◌, ◌++◌, Option, none, some,
  ◌==◌, ltb, if◌then◌else◌, length, Malloc, Outcome, ok, fault, stuck, ◌>>=◌,
}
use compile_service.Text.{codes, sprintf, decimal, new_string}
use compile_service.Page.{to_err_string}
use compile_service.Reader.{Reader, Read, got, failed}
use compile_service.Sender.{Sender}
use compile_service.TcpClient.{Client, send_raw}
use compile_service.Response.Paths.{get_abs_path}
use compile_service.Response.Entries.{Files, get_entry_count}
use compile_service.Response.Html.{Memory, make_html}

-- `%d` of a number that is passed as an `int`, or as a `size_t` of which it prints the low half.
unfoldable pub int_text : ℕ → List ℕ
int_text n =
    let low = n % 2 ^ 32 in if ltb low (2 ^ 31) then decimal low else b'-' ∷ decimal (2 ^ 32 - low)

unfoldable pub html_format : List ℕ
html_format =
    codes
      "HTTP/1.1 200 OK\r\nServer:Test Http Server\r\nContent-Length:%d\r\nContent-Type:text/html\r\nConnection:close\r\n\r\n%s"

unfoldable pub file_format : List ℕ
file_format =
    codes
      "HTTP/1.1 200 OK\r\nServer:Test Http Server\r\nContent-Length:%d\r\nContent-Type:application/*\r\nConnection:close\r\n\r\n"

unfoldable pub html_response : List ℕ → List ℕ
html_response html = sprintf html_format (int_text (length html) ∷ html ∷ [])

unfoldable pub file_head : List ℕ → List ℕ
file_head content = sprintf file_format (int_text (length content) ∷ [])

-- `len > 0` for an answer of `send`.
abbrev pub positive : Option ℕ → Bool
positive none = false
positive (some k) = ltb 0 k

-- `ret += k` in 32 bits, -1 being the answer `none`.
abbrev pub add_answer : ℕ → Option ℕ → ℕ
add_answer ret none = (ret + (2 ^ 32 - 1)) % 2 ^ 32
add_answer ret (some k) = (ret + k) % 2 ^ 32

module _ (S : Sender) where
  unfoldable pub send_text : S.World → Option Client → Option (List ℕ) → Outcome (Bool × S.World)
  send_text w client none = ok (false, w)
  send_text w client (some resp) = let r = send_raw S w client (some resp) in ok (positive r.0, r.1)

  -- Response
  unfoldable pub respond :
      Malloc → S.World → Option Client → Option (List ℕ) → Outcome (Bool × S.World)
  respond malloc w client none = ok (false, w)
  respond malloc w client (some html) =
      new_string malloc (length html_format + length html + 16) (html_response html) >>= λ resp.
      send_text w client resp

  -- DirReqHandler and BadReqHandler end without `return`: they answer nothing that the caller may use.
  unfoldable pub dir_req_handler :
      Memory → Files → S.World → Option Client → List ℕ → List ℕ → Outcome S.World
  dir_req_handler M files w client req root =
      make_html M files req root >>= λ html. respond M.malloc w client html >>= λ r. ok r.1

  unfoldable pub bad_req_handler : Memory → S.World → Option Client → List ℕ → Outcome S.World
  bad_req_handler M w client req =
      to_err_string M.malloc (some req) >>= λ html. respond M.malloc w client html >>= λ r. ok r.1

  module _ (F : Reader) where
    -- The loop of FileReqHandler with `ret`, as an unsigned pattern, and the rounds it may take.
    unfoldable pub copy_loop : ℕ → S.World → Option Client → F.World → ℕ → Outcome (ℕ × S.World)
    copy_loop zero w client f ret = stuck
    copy_loop (suc rounds) w client f ret =
        let step = F.read f 1024 in
        elim step.0 [
          | failed ↦ ok (ret, w)
          | got bs ↦ elim bs [
            | [] ↦ ok (ret, w)
            | x ∷ xs ↦
                let r = send_raw S w client (some (x ∷ xs)) in
                copy_loop rounds r.1 client step.1 (add_answer ret r.0)
          ]
        ]

    -- The `if` of FileReqHandler, from the first `send` on: whether `ret == max`. The size of the file
    -- is the number of the bytes that it has to give.
    unfoldable pub send_contents :
        ℕ → S.World → Option Client → F.World → List ℕ → Outcome (Bool × S.World)
    unfolding copy_loop
    send_contents rounds w client f head =
        let max = length (F.pending f) % 2 ^ 32 in
        let r = send_raw S w client (some head) in
        if positive r.0
        then (copy_loop rounds r.1 client f 0 >>= λ end. ok (end.0 == max, end.1))
        else ok (0 == max, r.1)

    -- What it does with an open file.
    unfoldable pub send_file :
        ℕ → Memory → S.World → Option Client → F.World → Outcome (Bool × S.World)
    send_file rounds M w client f = elim (M.malloc 1024) [
      | none ↦ ok (false, w)
      | some buf ↦
          new_string M.malloc (length file_format + 32) (file_head (F.pending f)) >>= λ head.
          elim head [ none ↦ ok (false, w) | some h ↦ send_contents rounds w client f h ]
    ]

    -- FileReqHandler; `open_file` is `open(2)` for reading.
    unfoldable pub file_req_handler :
        ℕ
        → Memory
        → (List ℕ → Option F.World)
        → S.World
        → Option Client
        → List ℕ
        → List ℕ
        → Outcome (Bool × S.World)
    file_req_handler rounds M open_file w client req root = get_abs_path M.malloc req root >>= λ ap.
        elim ap [
          | none ↦ ok (false, w)
          | some path ↦ elim (open_file path) [
            | none ↦ ok (false, w)
            | some f ↦ send_file rounds M w client f
          ]
        ]

    -- The choice of RequestHandler. `none` is the value of a handler that ends without `return`.
    unfoldable pub answer_path :
        ℕ
        → Memory
        → Files
        → (List ℕ → Option F.World)
        → S.World
        → Option Client
        → List ℕ
        → List ℕ
        → Option (List ℕ)
        → Outcome (Option Bool × S.World)
    answer_path rounds M files open_file w client req root none =
        bad_req_handler M w client req >>= λ w'. ok (none, w')
    answer_path rounds M files open_file w client req root (some ap) = elim (files.exists ap) [
      | false ↦ bad_req_handler M w client req >>= λ w'. ok (none, w')
      | true ↦ elim (get_entry_count files ap) [
        | none ↦ file_req_handler rounds M open_file w client req root >>= λ r. ok (some r.0, r.1)
        | some count ↦ dir_req_handler M files w client req root >>= λ w'. ok (none, w')
      ]
    ]

    unfoldable pub request_handler :
        ℕ
        → Memory
        → Files
        → (List ℕ → Option F.World)
        → S.World
        → Option Client
        → Option (List ℕ)
        → Option (List ℕ)
        → Outcome (Option Bool × S.World)
    request_handler rounds M files open_file w none req root = ok (some false, w)
    request_handler rounds M files open_file w (some c) none root = ok (some false, w)
    request_handler rounds M files open_file w (some c) (some req) none = ok (some false, w)
    request_handler rounds M files open_file w (some c) (some req) (some root) =
        get_abs_path M.malloc req root >>= λ ap.
        answer_path rounds M files open_file w (some c) req root ap
