-- ===== src/Samples.antt =====
-- Systems for the tests: an allocator, a connection, a descriptor to read from, and a client.
pub mod Messages
pub mod Folder
pub mod Connection
use compile_service.Common.{
  ℕ, ◌≤◌, ◌≡◌, refl, sym, ap, ◌∙◌, true, false, List, [], ◌++◌, Option, none, some, take, take_all,
  drop, take-append-drop, length-take, length, replicate, Malloc, arith,
}
use compile_service.Text.Format.{Always}
use compile_service.Reader.{Reader, Read, got, failed}
use compile_service.Sender.{Sender}
use compile_service.MsgParser.{MsgParser}
use compile_service.TcpClient.{Client}
use compile_service.Response.Html.{Memory}

-- An allocator that has every block, filled with zeros.
unfoldable pub zeros : Malloc
zeros n = some (replicate n 0)

pub zeros-Always : Always zeros
unfolding zeros
zeros-Always n = (replicate n 0, refl)

pub takes_all_some :
    (w w' bs : List ℕ) (k : ℕ)
    → ◌≡◌ {A = Option ℕ × List ℕ} (some (length bs), w ++ bs) (some k, w')
    → (k ≤ length bs) × (w' ≡ w ++ take k bs)
takes_all_some w w' bs k e =
    let size : length bs ≡ k = cc in
    let same : w ++ bs ≡ w' = cc in
    (omega (arith, size), sym same ∙ ap (λ s. w ++ s) (sym (take_all k bs (omega (arith, size)))))

pub takes_all_none :
    (w w' bs : List ℕ) → ◌≡◌ {A = Option ℕ × List ℕ} (some (length bs), w ++ bs) (none, w') → w' ≡ w
takes_all_none w w' bs e = cc

-- A connection that takes every byte.
abbrev pub open_line : Sender
open_line = record {
  World = List ℕ;
  send = λ w bs. (some (length bs), w ++ bs);
  sent = λ w. w;
  send_some = takes_all_some;
  send_none = takes_all_none;
}

abbrev pub parser : MsgParser
parser = record { cache = replicate 12 0; header = false; need = 3; msg = none }

abbrev pub client : Client
client = record { fd = some 5; parser = parser; user_data = some 77 }

pub script_failed :
    (w w' : List ℕ) (n : ℕ)
    → ◌≡◌ {A = Read × List ℕ} (got (take n w), drop n w) (failed, w')
    → w ≡ w'
script_failed w w' n e = cc

-- A descriptor with some bytes left; behind them `read` answers 0.
pub script_got :
    (w w' : List ℕ) (n : ℕ) (bs : List ℕ)
    → ◌≡◌ {A = Read × List ℕ} (got (take n w), drop n w) (got bs, w')
    → (length bs ≤ n) × (w ≡ bs ++ w')
script_got w w' n bs e = ground (arith, length-take n w, take-append-drop n w)

abbrev pub script : Reader
script = record {
  World = List ℕ;
  read = λ w n. (got (take n w), drop n w);
  pending = λ w. w;
  read_got = script_got;
  read_failed = script_failed;
}

abbrev pub memory : Memory
memory = record {
  malloc = zeros;
  realloc = zeros;
  entries = λ n. true;
  junk = λ n. [];
  small = true;
}
