-- ===== src/Response/Send/Tests.antt =====
-- Requests for a file, for a path that there is not, and the row back, at concrete inputs.
use compile_service.Common.{
  ℕ, ◌≡◌, refl, Bool, true, false, not, List, [], ◌∷◌, ◌++◌, none, some, take, ok, arith, ◌≢◌,
}
use compile_service.Text.{codes, sprintf}
use compile_service.Page.{err_format}
use compile_service.Samples.{zeros-Always, memory, open_line, script, client}
use compile_service.Samples.Connection.{open_line-IsWhole, script-IsSteady}
use compile_service.Response.Paths.{slash, ends_slash, str_eq}
use compile_service.Response.Paths.Join.{base, lead, full_path}
use compile_service.Response.Entries.{Files}
use compile_service.Response.Html.{back_link}
use compile_service.Response.Html.Back.{back_link_lem}
use compile_service.Response.Send.{html_response, file_head, request_handler}
use compile_service.Response.Send.Success.{request_handler_served}
use compile_service.Response.Send.Requests.{request_handler_bad, request_handler_file}

back_link_lem_example :
    (codes "/src" ≢ [] → back_link (codes "/src" ++ (slash ∷ codes "lib")) ≡ ok (codes "/src"))
    × (back_link (slash ∷ codes "lib") ≡ ok (slash ∷ []))
back_link_lem_example =
    back_link_lem (codes "/src") (codes "lib")
      ((λ e. ground arith), ((λ e. ground arith), ((λ e. ground arith), tt)))

-- Every path is there but `/srv/no`, and none is a directory.
abbrev files : Files
files = record {
  opendir = λ path. none;
  stat = λ path. some 3;
  exists = λ path. not (str_eq path (codes "/srv/no"));
}

there : files.exists (full_path (codes "/srv") (codes "/yes")) ≡ true
unfolding str_eq base ends_slash lead
there = refl

missing : files.exists (full_path (codes "/srv") (codes "/no")) ≡ false
unfolding str_eq base ends_slash lead
missing = refl

request_handler_bad_example :
    request_handler open_line script 9 memory files
      (λ path. none)
      []
      (some client)
      (some (codes "/no"))
      (some (codes "/srv"))
    ≡ ok (none, [] ++ html_response (sprintf err_format (codes "/no" ∷ [])))
request_handler_bad_example =
    request_handler_bad open_line script memory zeros-Always 9 files (λ path. none) [] client
      (codes "/no") (codes "/srv") (λ e. cc) missing

request_handler_file_example :
    (answer : Bool) × (w' : List ℕ) × (request_handler open_line script 9 memory files
        (λ path. some (codes "abc"))
        []
        (some client)
        (some (codes "/yes"))
        (some (codes "/srv"))
      ≡ ok (some answer, w'))
    × (answer ≡ true → (k : ℕ) × (w' ≡ [] ++ (take k (file_head (codes "abc")) ++ codes "abc")))
request_handler_file_example =
    request_handler_file open_line script memory zeros-Always 9 files (λ path. some (codes "abc"))
      [] client (codes "/yes") (codes "/srv") (codes "abc") (λ e. cc) there refl refl (omega arith)
      (omega arith)

request_handler_served_example :
    (w' : List ℕ) × (request_handler open_line script 9 memory files
        (λ path. some (codes "abc"))
        []
        (some client)
        (some (codes "/yes"))
        (some (codes "/srv"))
      ≡ ok (some true, w'))
request_handler_served_example =
    request_handler_served open_line script open_line-IsWhole script-IsSteady memory 9 files
      (λ path. some (codes "abc")) [] client (codes "/yes") (codes "/srv") (codes "abc")
      zeros-Always (λ e. cc) there refl refl (omega arith) (omega arith)
