-- ===== src/Static/Tests.antt =====
-- Files at concrete paths.
use chttpd.Prelude.{◌≡◌, refl, ◌⊎◌, true, some, arith}
use chttpd.Prelude.Int.{pos}
use chttpd.Libc.{ok, cstr, tolower}
use chttpd.Libc.Text.{codes}
use chttpd.Error.{new_error}
use chttpd.Static.{System, mime_guess, handle_static}
use chttpd.Static.Mime.{dot, mime_type, mime_guess-type_of}
use chttpd.Static.Outcome.{Unavailable, Available, Fails, response, handle_static-outcome}

-- Every path names the same page.
abbrev one_page : System
one_page = record {
  fopen = λ path. some (record { size = some 5; readable = codes "hello" });
  malloc = λ n. true;
  errno = 0;
}

mime_guess-type_of_example : mime_guess (cstr (codes "/www/a.b.HTML")) ≡ ok (codes "text/html")
unfolding mime_type tolower
mime_guess-type_of_example =
    mime_guess-type_of (codes "/www/a.b.HTML") (ground arith)
      (dot (codes "/www/a.b") (codes "HTML") refl (ground arith))

handle_static-outcome_example :
    ((a : Available one_page (codes "/www/a.txt")) × (handle_static one_page
          (codes "/www/a.txt")
          (pos 60)
          (new_error 4096)
        ≡ ok (response one_page (codes "/www/a.txt") (pos 60) a, new_error 4096)))
    ⊎ (Unavailable one_page (codes "/www/a.txt")
        × Fails (handle_static one_page (codes "/www/a.txt") (pos 60) (new_error 4096)))
handle_static-outcome_example =
    handle_static-outcome one_page (codes "/www/a.txt") (pos 60) (new_error 4096) (ground arith)
