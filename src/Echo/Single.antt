-- ===== src/Echo/Single.antt =====
-- basic_material/server.c: a server that sends back what one client after the other says. The calls of
-- the system are parameters; `none` is the answer -1. The printing is not modelled, but for the bytes
-- that it reads.
use compile_service.Common.{
  ℕ, ◌<◌, ◌≡◌, ◌≢◌, refl, ap, ◌∙◌, Bool, false, List, [], ◌∷◌, ◌++◌, Option, none, some, ◌==◌,
  if◌then◌else◌, length, length-append, append_assoc, map, drop, replicate, All, Outcome, ok, fault,
  ◌>>=◌, poke, poke-append, length-drop, arith, Bool-cases, inl, inr,
}
use compile_service.Text.{codes}
use compile_service.Response.Paths.{str_eq}

-- The string in an array: `printf` and `strcmp` read up to its end, which the array has to hold.
unfoldable pub text_of : List ℕ → Outcome (List ℕ)
text_of [] = fault
text_of (b ∷ bs) = let rest = text_of bs in if b == 0 then ok [] else (rest >>= λ s. ok (b ∷ s))

-- The loop for a client, on what `recv` answers as long as it does; `buf` is not cleared between two
-- calls. The answer is what is sent, and `buf`.
unfoldable pub session : List (Option (List ℕ)) → List ℕ → Outcome (List (List ℕ) × List ℕ)
unfolding text_of
session [] buf = ok ([], buf)
session (none ∷ answers) buf = ok ([], buf)
session (some [] ∷ answers) buf = ok ([], buf)
session (some (b ∷ bytes) ∷ answers) buf = poke buf 0 (b ∷ bytes) >>= λ buf'. text_of buf' >>= λ s.
    let later = session answers buf' in
    if str_eq s (codes "quit") then ok ([], buf') else (later >>= λ r. ok ((b ∷ bytes) ∷ r.0, r.1))

-- The endless loop, for the clients that `accept` gives; then it fails, and main() returns.
unfoldable pub sessions : List (List (Option (List ℕ))) → List ℕ → Outcome (List (List (List ℕ)))
unfolding session
sessions [] buf = ok []
sessions (answers ∷ clients) buf =
    session answers buf >>= λ (sent, buf'). sessions clients buf' >>= λ rest. ok (sent ∷ rest)

-- main(): whether `socket`, `bind` and `listen` succeed, and what is sent to each client.
unfoldable pub single_main :
    Option ℕ
    → (ℕ → Bool)
    → (ℕ → Bool)
    → List (List (Option (List ℕ)))
    → Outcome (Option (List (List (List ℕ))))
unfolding sessions
single_main none binds listens clients = ok none
single_main (some fd) binds listens clients =
    let serve = sessions clients (replicate 32 0) in
    if binds fd
    then (if listens fd then (serve >>= λ sent. ok (some sent)) else ok none)
    else ok none

-- A string as a client sends it, with its end, that fits the array.
pub record IsText (s : List ℕ) : Type 0 where
  pub plain : All (λ (b : ℕ). (b == 0) ≡ false) s
  pub short : length s < 32

abbrev pub with_end : List ℕ → List ℕ
with_end s = s ++ (0 ∷ [])

-- The strings before "quit".
abbrev pub before_quit : List (List ℕ) → List (List ℕ)
before_quit [] = []
before_quit (s ∷ ss) = let rest = before_quit ss in if str_eq s (codes "quit") then [] else s ∷ rest

text_of-append :
    (s rest : List ℕ) → All (λ (b : ℕ). (b == 0) ≡ false) s → text_of (s ++ (0 ∷ rest)) ≡ ok s
unfolding text_of
text_of-append [] rest v = refl
text_of-append (b ∷ s) rest (e, v) = rw (e, text_of-append s rest v)

session-step :
    (bytes buf buf' s : List ℕ) (answers : List (Option (List ℕ)))
    → bytes ≢ []
    → poke buf 0 bytes ≡ ok buf'
    → text_of buf' ≡ ok s
    → session (some bytes ∷ answers) buf ≡ (
        if str_eq s (codes "quit")
        then ok ([], buf')
        else (session answers buf' >>= λ r. ok (bytes ∷ r.0, r.1)))
unfolding session
session-step [] buf buf' s answers n e f = absurd (n refl)
session-step (b ∷ bytes) buf buf' s answers n e f = rw (e, f)

with_end-some : (s : List ℕ) → with_end s ≢ []
with_end-some [] e = cc
with_end-some (b ∷ s) e = cc

-- A client of the server that sends each string with its end, as client.c does, each in one `recv`: the
-- strings before "quit" come back, in order and with their ends, whatever the array held before; the
-- first "quit" is the end.
pub session-strings :
    (ss : List (List ℕ)) (buf : List ℕ)
    → length buf ≡ 32
    → All IsText ss
    → (buf' : List ℕ) × (session (map (λ s. some (with_end s)) ss) buf
        ≡ ok (map with_end (before_quit ss), buf'))
      × (length buf' ≡ 32)
unfolding session
session-strings [] buf h v = (buf, refl, h)
session-strings (s ∷ ss) buf h (t, v) =
    let n = length-append s (0 ∷ []) in
    let rest = drop (length (with_end s)) buf in
    let copied : poke buf 0 (with_end s) ≡ ok (with_end s ++ rest) =
      poke-append [] (with_end s) buf 0 refl (omega (arith, n, t.short, h)) in
    let text : text_of (with_end s ++ rest) ≡ ok s =
      ap text_of (append_assoc s (0 ∷ []) rest) ∙ text_of-append s rest t.plain in
    let size : length (with_end s ++ rest) ≡ 32 = omega (
      arith,
      length-append (with_end s) rest,
      length-drop (length (with_end s)) buf,
      h,
      n,
      t.short,
    ) in
    let step =
      session-step (with_end s) buf (with_end s ++ rest) s (map (λ s. some (with_end s)) ss)
        (with_end-some s) copied text in
    elim (Bool-cases (str_eq s (codes "quit"))) [
      | inl q ↦ (with_end s ++ rest, step ∙ rw q, size)
      | inr q ↦
          let (buf', run, size') = session-strings ss (with_end s ++ rest) size v in
          (buf', step ∙ rw (q, run), size')
    ]
