-- ===== src/Samples/Folder.antt =====
-- A directory with two files, a folder and the entry for itself, for the tests.

use compile_service.Common.{
  ℕ, ◌^◌, ◌<◌, ◌≡◌, refl, Bool, true, false, List, [], ◌∷◌, none, some, length, arith, All,
  if◌then◌else◌,
}
use compile_service.Text.{codes}
use compile_service.Samples.{memory, zeros-Always}
use compile_service.Response.Paths.{str_eq}
use compile_service.Response.Entries.{Dirent, Files, link_text, type_file, type_dir}
use compile_service.Response.Entries.Items.{IsFiles, IsShort}
use compile_service.Response.Html.Up.{IsMemory, Backs, up_row, in_root}

abbrev pub entry : ℕ → List ℕ → Dirent
entry type name = record { d_type = type; d_name = name }

abbrev pub entries : List Dirent
entries =
    entry type_dir (codes ".")
    ∷ entry type_file (codes "b.c")
    ∷ entry type_dir (codes "lib")
    ∷ entry type_file (codes "a.c")
    ∷ []

-- One directory, and every path has a size.
abbrev pub folder : Files
folder = record {
  opendir = λ path. if str_eq path (codes "/srv/src") then some entries else none;
  stat = λ path. some 700;
  exists = λ path. true;
}

opens_entries :
    (b : Bool) (ds : List Dirent)
    → (if b then some entries else none) ≡ some ds
    → length ds < 2 ^ 31
opens_entries true ds e = ground arith
opens_entries false ds e = cc

pub folder-IsFiles : IsFiles folder
folder-IsFiles = record {
  stat_fits = λ p n e. ground arith;
  count_fits = λ p ds e. opens_entries (str_eq p (codes "/srv/src")) ds e;
}

pub entries-IsShort : All (IsShort (codes "/src")) entries
unfolding link_text str_eq
entries-IsShort = (
  (omega arith, omega arith),
  ((omega arith, omega arith), ((omega arith, omega arith), ((omega arith, omega arith), tt))),
)

pub memory-IsMemory : IsMemory memory
memory-IsMemory = record {
  blocks = zeros-Always;
  longer = zeros-Always;
  room = λ n. refl;
  objects = refl;
  short_junk = λ k. omega arith;
}

pub src-Backs : Backs (codes "/src") (up_row (codes "/") ∷ [])
src-Backs =
    in_root (codes "src") (λ e. cc)
      ((λ e. ground arith), ((λ e. ground arith), ((λ e. ground arith), tt))) refl (omega arith)
