-- ===== src/Utility/Tests.antt =====
-- Command lines at concrete inputs.
use compile_service.Common.{ℕ, ◌≡◌, refl, true, List, some, ok, map, take, All}
use compile_service.Text.{codes}
use compile_service.Utility.{skip, format_loop, trim, format_by_char, divide_by_char}
use compile_service.Utility.Divide.{divide_by_char-words}
use compile_service.Utility.Words.{words, join, IsWord, format_by_char-words}

-- Two spaces before the word, three behind it.
start_line : format_by_char true (some (codes "  start   now ")) b' ' ≡ some (codes "start now")
unfolding format_by_char skip format_loop trim
start_line = refl

format_by_char-words_example :
    (out : List ℕ) × (format_by_char true (some (codes " a  b")) b' ' ≡ some out)
    × (out ≡ join b' ' (words b' ' (codes " a  b")))
    × (words b' ' out ≡ words b' ' (codes " a  b"))
    × All (IsWord b' ') (words b' ' out)
format_by_char-words_example = format_by_char-words b' ' b' ' (codes "a  b")

divide_by_char-words_example :
    divide_by_char true (some (codes "stop  the server")) b' ' true 2 4
    ≡ ok (map (take 3) (take 2 (words b' ' (codes "stop  the server"))))
divide_by_char-words_example = divide_by_char-words b' ' 3 b's' (codes "top  the server") 2
