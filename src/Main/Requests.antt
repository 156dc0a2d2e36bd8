-- ===== src/Main/Requests.antt =====
-- DoResp and Process_Thread of main.c: a request is taken from the bytes that wait, answered, and the
-- client deleted.
pub mod Parse
pub mod Served
mod Tests
use compile_service.Common.{
  ℕ, zero, suc, ◌+◌, ◌≤◌, ◌<◌, ◌≡◌, ◌≢◌, refl, sym, ap, ◌∙◌, Bool, true, false, ◌&&◌, ◌||◌, List,
  [], ◌∷◌, ◌++◌, Option, none, some, ◌==◌, leb, ltb, if◌then◌else◌, length, length-append,
  append_assoc, Malloc, Outcome, ok, fault, stuck, ◌>>=◌, All, arith, Bool-cases, inl, inr, ◌⊎◌,
}
use compile_service.Text.{codes, array_string}
use compile_service.Text.Format.{array_string_fits}
use compile_service.Reader.{Reader}
use compile_service.Sender.{Sender}
use compile_service.TcpClient.{Client, client_available, client_is_valid, tcp_established}
use compile_service.Response.Entries.{Files}
use compile_service.Response.Html.{Memory}
use compile_service.Response.Send.{request_handler}

-- The bytes before the first zero.
unfoldable pub c_string : List ℕ → List ℕ
c_string [] = []
c_string (x ∷ xs) = let rest = c_string xs in if x == 0 then [] else x ∷ rest

-- isspace
unfoldable pub is_space : ℕ → Bool
is_space x = (leb 9 x && leb x 13) || (x == b' ')

unfoldable pub skip_space : List ℕ → List ℕ
skip_space [] = []
skip_space (x ∷ xs) = let rest = skip_space xs in if is_space x then rest else x ∷ xs

unfoldable pub token : List ℕ → List ℕ
token [] = []
token (x ∷ xs) = let rest = token xs in if is_space x then [] else x ∷ rest

-- Literal characters of a format, and what stands behind them.
unfoldable pub literal : List ℕ → List ℕ → Option (List ℕ)
literal [] s = some s
literal (c ∷ cs) [] = none
literal (c ∷ cs) (x ∷ xs) = let rest = literal cs xs in if x == c then rest else none

abbrev pub converted : List ℕ → Option (List ℕ)
converted [] = none
converted (x ∷ xs) = some (x ∷ xs)

-- sscanf(buf, "GET %s HTTP", req): what `req` gets, if it gets anything. What stands behind `%s` in
-- the format changes nothing.
unfoldable pub request_of : List ℕ → Option (List ℕ)
unfolding c_string skip_space token literal
request_of buf = elim (literal (codes "GET") (c_string buf)) [
  | none ↦ none
  | some rest ↦ converted (token (skip_space rest))
]

abbrev pub or_junk : List ℕ → Option (List ℕ) → List ℕ
or_junk junk none = junk
or_junk junk (some req) = req

module _ (S : Sender) (F : Reader) where
  -- DoResp once `len` bytes wait: whether the client has been deleted, and the connection.
  -- `received` is what the bytes of `buf` are after the call of TcpClient_RecvRaw, `junk` the string
  -- in the block `req` before `sscanf`.
  unfoldable pub answer :
      ℕ
      → Memory
      → Files
      → (List ℕ → Option F.World)
      → S.World
      → Option Client
      → List ℕ
      → List ℕ
      → List ℕ
      → Outcome (Bool × S.World)
  answer rounds M files open_file w client root junk received =
      elim (M.malloc (length received + 1)) [
        | none ↦ ok (true, w)
        | some buf ↦ elim (M.malloc 2048) [
          | none ↦ ok (true, w)
          | some block ↦ array_string 2048 (or_junk junk (request_of received)) >>= λ req.
              request_handler S F rounds M files open_file w client (some req) (some root) >>= λ r.
              ok (true, r.1)
        ]
      ]

  -- DoResp; `peek` is what `recv` says to TcpClient_Available, and `arrived n` the `n` bytes.
  unfoldable pub do_resp :
      ℕ
      → Memory
      → Files
      → (List ℕ → Option F.World)
      → S.World
      → (Option ℕ → Option ℕ)
      → Option Client
      → List ℕ
      → List ℕ
      → (ℕ → List ℕ)
      → Outcome (Bool × S.World)
  do_resp rounds M files open_file w peek client root junk arrived =
      elim (client_available peek client) [
        | none ↦ ok (false, w)
        | some len ↦
            if ltb 0 len
            then answer rounds M files open_file w client root junk (arrived len)
            else ok (false, w)
      ]

  -- Process_Thread: the loop with the rounds that it may take. `established w` is the state that the
  -- system reports for the descriptor, `peek w` what waits on it. Once the client is deleted the test
  -- of the loop reads freed memory.
  unfoldable pub process_thread :
      ℕ
      → ℕ
      → Memory
      → Files
      → (List ℕ → Option F.World)
      → (S.World → Option ℕ → ℕ)
      → (S.World → Option ℕ → Option ℕ)
      → Client
      → List ℕ
      → List ℕ
      → (S.World → ℕ → List ℕ)
      → Bool
      → S.World
      → Outcome S.World
  process_thread zero rounds M files open_file established peek c root junk arrived deleted w =
      stuck
  process_thread (suc n) rounds M files open_file established peek c root junk arrived true w =
      fault
  process_thread (suc n) rounds M files open_file established peek c root junk arrived false w =
      elim (client_is_valid (established w) (some c)) [
        | false ↦ ok w
        | true ↦ do_resp rounds M files open_file w (peek w) (some c) root junk (arrived w) >>= λ r.
            process_thread n rounds M files open_file established peek c root junk arrived r.0 r.1
      ]
