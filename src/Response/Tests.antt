-- ===== src/Response/Tests.antt =====
-- Listings at concrete inputs: a directory with two folder, a folder and the entry for itself.
use mathlib.Core.List.{Perm}
use compile_service.Common.{ℕ, ◌≡◌, refl, true, List, [], ◌∷◌, ◌++◌, map, none, some, ok}
use compile_service.Text.{codes}
use compile_service.Page.{RowInfo}
use compile_service.Samples.Folder.{
  entries, folder, folder-IsFiles, entries-IsShort, memory-IsMemory, src-Backs,
}
use compile_service.Samples.{memory, zeros, zeros-Always}
use compile_service.Response.{sort_file_entry}
use compile_service.Response.Sort.{IsSorted, sort_file_entry-IsSorted}
use compile_service.Response.Paths.{slash, ends_slash, get_abs_path, str_eq}
use compile_service.Response.Paths.Join.{base, lead, full_path, get_abs_path_lem}
use compile_service.Response.Entries.{get_entry, type_file, type_dir}
use compile_service.Response.Entries.Shown.{without_time}
use compile_service.Response.Entries.Listing.{listed_rows, listed, names, get_entry_lem}
use compile_service.Response.Html.{make_html}
use compile_service.Response.Html.Up.{up_row}
use compile_service.Response.Html.Whole.{page_of, make_html_lem}

abbrev row : List ℕ → RowInfo
row name = record { link = []; name = name; type = []; size = []; time = [] }

sort_file_entry-IsSorted_example :
    Perm
      (sort_file_entry true (row (codes "b") ∷ row (codes "a") ∷ []))
      (row (codes "b") ∷ row (codes "a") ∷ [])
    × (true ≡ true → IsSorted (sort_file_entry true (row (codes "b") ∷ row (codes "a") ∷ [])))
sort_file_entry-IsSorted_example =
    sort_file_entry-IsSorted true (row (codes "b") ∷ row (codes "a") ∷ [])

get_abs_path_lem_example : get_abs_path zeros (codes "/src") (codes "/srv/") ≡ elim (zeros 11) [
  | none ↦ ok none
  | some block ↦ ok (some (base (codes "/srv/") ++ (slash ∷ lead (codes "/src"))))
]
get_abs_path_lem_example = get_abs_path_lem zeros (codes "/src") (codes "/srv/") (λ e. cc)

-- Only one slash of each goes.
two_slashes : base (codes "/srv") ++ (slash ∷ lead (codes "//etc")) ≡ codes "/srv//etc"
unfolding base lead ends_slash
two_slashes = refl

-- No directory of a request leaves the root: `..` stands in the path as the client wrote it.
dots_pass : base (codes "/srv") ++ (slash ∷ lead (codes "/../etc")) ≡ codes "/srv/../etc"
unfolding base lead ends_slash
dots_pass = refl

get_entry_lem_example :
    (rows : List RowInfo) × (get_entry zeros
        (λ n. true)
        (λ n. [])
        true
        true
        folder
        (codes "/src")
        (codes "/srv")
        type_file
      ≡ ok (some rows))
    × Perm (names rows) (listed folder (full_path (codes "/srv") (codes "/src")) type_file entries)
    × IsSorted rows
unfolding str_eq base ends_slash lead
get_entry_lem_example =
    get_entry_lem zeros (λ n. true) (λ n. []) folder (codes "/src") (codes "/srv") type_file entries
      zeros-Always (λ n. refl) folder-IsFiles (λ e. cc) refl entries-IsShort

make_html_lem_example :
    (dirs : List RowInfo) × (plain : List RowInfo) × (make_html memory folder
        (codes "/src")
        (codes "/srv")
      ≡ ok (some (page_of (codes "/src") ((up_row (codes "/") ∷ []) ++ (dirs ++ plain)))))
    × Perm (map without_time dirs) (
        listed_rows folder
          (full_path (codes "/srv") (codes "/src"))
          (codes "/src")
          type_dir
          entries)
    × IsSorted dirs
    × Perm (map without_time plain) (
        listed_rows folder
          (full_path (codes "/srv") (codes "/src"))
          (codes "/src")
          type_file
          entries)
    × IsSorted plain
unfolding str_eq base ends_slash lead
make_html_lem_example =
    make_html_lem memory memory-IsMemory folder (codes "/src") (codes "/srv") entries
      (up_row (codes "/") ∷ []) folder-IsFiles (λ e. cc) refl entries-IsShort src-Backs
