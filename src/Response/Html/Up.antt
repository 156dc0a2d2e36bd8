-- ===== src/Response/Html/Up.antt =====
-- The row of a page that leads back, for each form of a request.

use compile_service.Common.{
  ℕ, ◌<◌, ◌≤◌, ◌+◌, suc, inl, inr, Bool-cases, length-append, ◌≡◌, ◌≢◌, refl, sym, ap, ◌∙◌, true,
  false, not, ◌&&◌, List, [], ◌∷◌, ◌++◌, Option, some, length, append-nil, Outcome, ok, ◌>>=◌, All,
  arith, if◌then◌else◌,
}
use compile_service.Text.{codes, array_string}
use compile_service.Text.Format.{Always, array_string_fits}
use compile_service.Page.{RowInfo, insert_row, row_text}
use compile_service.Page.Rows.{IsRow, rows_text, insert_row_granted}
use compile_service.Response.Paths.{slash, str_eq}
use compile_service.Response.Paths.Join.{str_eq_refl, str_eq→eq}
use compile_service.Response.Html.Back.{back_link_lem}
use compile_service.Response.Html.{Memory, back_link, back_row, insert_back}

-- All calls get memory, and what stands in it are strings that end within `time`.
pub record IsMemory (M : Memory) : Type 0 where
  pub blocks : Always M.malloc
  pub longer : Always M.realloc
  pub room : (n : ℕ) → M.entries n ≡ true
  pub objects : M.small ≡ true
  pub short_junk : (k : ℕ) → length (M.junk k) < 32

-- The row that leads back to `link`.
abbrev pub up_row : List ℕ → RowInfo
up_row link = record {
  link = link;
  name = codes "./..";
  type = codes "Back..";
  size = [];
  time = [];
}

-- No slash in a name.
abbrev pub IsName : List ℕ → Type 0
IsName = All (λ c. c ≢ slash)

-- The rows before the entries: none for the request "/"; for a slash and a name, a row back to "/";
-- and for a longer request with a slash, a row back to what stands before the last one. A request
-- without a slash has none of these forms.
pub data Backs (req : List ℕ) : List RowInfo → Type 0 where
  at_root : req ≡ codes "/" → Backs req []
  in_root :
      (name : List ℕ)
      → name ≢ []
      → IsName name
      → req ≡ slash ∷ name
      → length req < 2048
      → Backs req (up_row (slash ∷ []) ∷ [])
  below :
      (above name : List ℕ)
      → above ≢ []
      → IsName name
      → req ≡ above ++ (slash ∷ name)
      → length req < 2048
      → Backs req (up_row above ∷ [])

longer_than_root : (req : List ℕ) → 2 ≤ length req → str_eq req (codes "/") ≡ false
longer_than_root req h = elim (Bool-cases (str_eq req (codes "/"))) [
  | inr e ↦ e
  | inl e ↦ absurd (omega (arith, h, ap length (str_eq→eq req (codes "/") e)))
]

back_row-IsRow : (link : List ℕ) → length link < 2048 → IsRow (back_row link)
unfolding back_row
back_row-IsRow link h = record {
  link_fits = h;
  name_fits = omega arith;
  type_fits = omega arith;
  size_fits = omega arith;
  time_fits = omega arith;
}

module _ (M : Memory) (v : IsMemory M) where
  insert_back_row :
      (req table link : List ℕ)
      → 2 ≤ length req
      → length req < 2048
      → back_link req ≡ ok link
      → length link < 2048
      → insert_back M (some table) req ≡ ok (some (table ++ rows_text (up_row link ∷ [])))
  unfolding insert_back back_row
  insert_back_row req table link long short b fits =
      ap (λ s. if not s && M.small then rest else ok (some table)) (longer_than_root req long)
      ∙ ap (λ s. if s then rest else ok (some table)) v.objects
      ∙ rw (array_string_fits 2048 req short, b)
          (insert_row_granted M.malloc M.realloc v.blocks v.longer table (back_row link)
              (back_row-IsRow link fits)
            ∙ ap (λ (t : List ℕ). ok (some (table ++ t)))
                (sym (append-nil (row_text (back_row link)))))
    where
      rest : Outcome (Option (List ℕ))
      rest = array_string 2048 req >>= λ copied. back_link copied >>= λ link.
          insert_row M.malloc M.realloc (some table) (some (back_row link))

  pub insert_back_lem :
      (req table : List ℕ) (backs : List RowInfo)
      → Backs req backs
      → insert_back M (some table) req ≡ ok (some (table ++ rows_text backs))
  unfolding insert_back
  insert_back_lem req table _ (at_root e) =
      let same : str_eq req (codes "/") ≡ true =
        ap (λ s. str_eq s (codes "/")) e ∙ str_eq_refl (codes "/") in
      rw same (ap (λ (t : List ℕ). ok (some t)) (sym (append-nil table)))
  insert_back_lem req table _ (in_root [] named plain e short) = absurd (named refl)
  insert_back_lem req table _ (in_root (x ∷ name) named plain e short) =
      insert_back_row req table (slash ∷ []) (omega (arith, ap length e)) short
        (ap back_link e ∙ (back_link_lem [] (x ∷ name) plain).1) (omega arith)
  insert_back_lem req table _ (below [] name named plain e short) = absurd (named refl)
  insert_back_lem req table _ (below (x ∷ above) name named plain e short) =
      let long : length req ≡ suc (length above) + suc (length name) =
        ap length e ∙ length-append (x ∷ above) (slash ∷ name) in
      insert_back_row req table (x ∷ above) (omega (arith, long)) short
        (ap back_link e ∙ (back_link_lem (x ∷ above) name plain).0 named) (omega (arith, long))
