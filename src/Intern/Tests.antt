-- ===== src/Intern/Tests.antt =====
-- The length of a body, printed and read.
use chttpd.Prelude.{◌≡◌, refl, [], ◌∷◌, ◌++◌, arith}
use chttpd.Libc.{ok, tolower}
use chttpd.Libc.Text.{codes, bytes_eq, lower}
use chttpd.Util.{StringPair}
use chttpd.Http.Request.{find_content_length}
use chttpd.Intern.{print_ℕ}
use chttpd.Intern.Numbers.{IsOther, find_content_length-print}

abbrev host : StringPair
host = record { first = codes "Host"; second = codes "me" }

host-IsOther : IsOther host
unfolding bytes_eq lower tolower
host-IsOther = record { name_cstr = ground arith; other_name = refl }

same_name : lower (codes "content-length") ≡ lower (codes "Content-Length")
unfolding lower tolower
same_name = refl

find_content_length-print_example :
    find_content_length (
      (host ∷ []) ++ (record { first = codes "content-length"; second = print_ℕ 1024 }) ∷ host ∷ [])
    ≡ ok 1024
find_content_length-print_example =
    find_content_length-print (host ∷ []) (host ∷ []) (codes "content-length") 1024
      (host-IsOther, tt) (ground arith) same_name (omega arith)
