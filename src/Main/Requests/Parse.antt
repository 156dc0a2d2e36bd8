-- ===== src/Main/Requests/Parse.antt =====
-- The request that `sscanf` finds, and that DoResp hands it to RequestHandler.
use compile_service.Common.{
  ℕ, suc, ◌+◌, ◌≤◌, ◌<◌, ◌≡◌, ◌≢◌, refl, ap, Bool, true, false, List, [], ◌∷◌, ◌++◌, Option, none,
  some, ◌==◌, lt→ltb, if◌then◌else◌, length, ok, ◌>>=◌, All, arith, Bool-cases, inl, inr,
}
use compile_service.Text.{codes}
use compile_service.Text.Format.{Always, array_string_fits}
use compile_service.Reader.{Reader}
use compile_service.Sender.{Sender}
use compile_service.TcpClient.{Client, client_available}
use compile_service.Response.Entries.{Files}
use compile_service.Response.Html.{Memory}
use compile_service.Response.Send.{request_handler}
use compile_service.Main.Requests.{
  c_string, is_space, skip_space, token, literal, converted, request_of, answer, do_resp,
}

-- A character that neither ends a string nor a token.
abbrev pub IsPlain : ℕ → Type 0
IsPlain x = (is_space x ≡ false) × ((x == 0) ≡ false)

c_string-append :
    (path rest : List ℕ) → All IsPlain path → c_string (path ++ rest) ≡ path ++ c_string rest
unfolding c_string
c_string-append [] rest a = refl
c_string-append (x ∷ path) rest ((_, z), a) = rw z (ap (◌∷◌ x) (c_string-append path rest a))

token-append : (path rest : List ℕ) → All IsPlain path → token (path ++ (b' ' ∷ rest)) ≡ path
unfolding token
token-append [] rest a = unfold is_space in refl
token-append (x ∷ path) rest ((s, _), a) = rw s (ap (◌∷◌ x) (token-append path rest a))

skip_space-plain :
    (path rest : List ℕ) → path ≢ [] → All IsPlain path → skip_space (path ++ rest) ≡ path ++ rest
unfolding skip_space
skip_space-plain [] rest n a = absurd (n refl)
skip_space-plain (x ∷ path) rest n ((s, _), a) = rw s

converted-some : (path : List ℕ) → path ≢ [] → converted path ≡ some path
converted-some [] n = absurd (n refl)
converted-some (x ∷ path) n = refl

abbrev pub get_line : List ℕ → List ℕ → List ℕ
get_line path rest = codes "GET " ++ (path ++ (b' ' ∷ rest))

-- A request line gives its path.
pub request_of-get_line :
    (path rest : List ℕ)
    → path ≢ []
    → All IsPlain path
    → request_of (get_line path rest) ≡ some path
unfolding request_of c_string literal
request_of-get_line path rest n a =
    let tail = b' ' ∷ c_string rest in
    let skipped : skip_space (b' ' ∷ (path ++ tail)) ≡ path ++ tail =
      unfold skip_space is_space in skip_space-plain path tail n a in
    rw (c_string-append path (b' ' ∷ rest) a, skipped, token-append path (c_string rest) a)
      (converted-some path n)

length-c_string-le : (s : List ℕ) → length (c_string s) ≤ length s
unfolding c_string
length-c_string-le [] = omega arith
length-c_string-le (x ∷ xs) = ground (arith, length-c_string-le xs)

length-skip_space-le : (s : List ℕ) → length (skip_space s) ≤ length s
unfolding skip_space
length-skip_space-le [] = omega arith
length-skip_space-le (x ∷ xs) = elim (Bool-cases (is_space x)) [
  | inl e ↦ rw e (omega (arith, length-skip_space-le xs))
  | inr e ↦ rw e (omega arith)
]

length-token-le : (s : List ℕ) → length (token s) ≤ length s
unfolding token
length-token-le [] = omega arith
length-token-le (x ∷ xs) = elim (Bool-cases (is_space x)) [
  | inl e ↦ rw e (omega arith)
  | inr e ↦ rw e (omega (arith, length-token-le xs))
]

length-literal :
    (cs s rest : List ℕ) → literal cs s ≡ some rest → length rest + length cs ≡ length s
unfolding literal
length-literal [] s rest e = ground arith
length-literal (c ∷ cs) [] rest e = cc
length-literal (c ∷ cs) (x ∷ xs) rest e = go (x == c) e (length-literal cs xs rest)
  where
    go :
        (b : Bool)
        → (if b then literal cs xs else none) ≡ some rest
        → (literal cs xs ≡ some rest → length rest + length cs ≡ length xs)
        → length rest + suc (length cs) ≡ suc (length xs)
    go true e ih = omega (arith, ih e)
    go false e ih = cc

length-converted : (s req : List ℕ) → converted s ≡ some req → length req ≡ length s
length-converted [] req e = cc
length-converted (x ∷ xs) req e = ground arith

-- The request is shorter than the bytes that were received, by the three of `GET`.
pub request_of-length : (buf req : List ℕ) → request_of buf ≡ some req → length req + 3 ≤ length buf
unfolding request_of
request_of-length buf req e = go (literal (codes "GET") (c_string buf)) refl e
  where
    go :
        (found : Option (List ℕ))
        → literal (codes "GET") (c_string buf) ≡ found
        → elim found [ none ↦ none | some rest ↦ converted (token (skip_space rest)) ] ≡ some req
        → length req + 3 ≤ length buf
    go none g e = cc
    go (some rest) g e = omega (
      arith,
      length-converted (token (skip_space rest)) req e,
      length-token-le (skip_space rest),
      length-skip_space-le rest,
      length-literal (codes "GET") (c_string buf) rest g,
      length-c_string-le buf,
    )

module _ (S : Sender) (F : Reader) (M : Memory) (always : Always M.malloc) (rounds : ℕ)
    (files : Files) (open_file : List ℕ → Option F.World) (c : Client) (root junk : List ℕ) where
  -- DoResp with memory, when a request line has arrived whole in at most the 2048 bytes that
  -- TcpClient_Available can report: RequestHandler gets the path of the line, which fits the block
  -- `req`, and the client is deleted behind its answer.
  pub do_resp_lem :
      (w : S.World) (peek : Option ℕ → Option ℕ) (arrived : ℕ → List ℕ) (len : ℕ)
      (path rest : List ℕ)
      → path ≢ []
      → All IsPlain path
      → peek c.fd ≡ some len
      → 0 < len
      → arrived len ≡ get_line path rest
      → length (get_line path rest) ≤ 2048
      → do_resp S F rounds M files open_file w peek (some c) root junk arrived ≡ (
          request_handler S F rounds M files open_file w (some c) (some path) (some root) >>= λ r.
          ok (true, r.1))
  unfolding do_resp client_available answer
  do_resp_lem w peek arrived len path rest n a waits some_bytes here fits =
      let found = request_of-get_line path rest n a in
      let short : length path < 2048 =
        omega (arith, request_of-length (get_line path rest) path found) in
      rw (waits, do_resp, lt→ltb 0 len some_bytes, here)
        (rw ((always (length (get_line path rest) + 1)).1, (always 2048).1, answer)
          (rw (found, array_string_fits 2048 path short)))
