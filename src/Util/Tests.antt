-- ===== src/Util/Tests.antt =====
-- The comparisons at concrete strings.
use chttpd.Prelude.{◌≡◌, true, false, ◌∷◌, [], ◌++◌, arith}
use chttpd.Libc.{ok, tolower}
use chttpd.Libc.Text.{codes, lower}
use chttpd.Util.{urlcmp, urlcmp_icase}
use chttpd.Util.Compare.{url_matches, urlcmp-url_matches, urlcmp_icase-lower}

urlcmp-url_matches_example : urlcmp (codes "/a/b" ++ 0 ∷ []) (codes "/a" ++ 0 ∷ codes "z") ≡ ok true
unfolding url_matches
urlcmp-url_matches_example =
    urlcmp-url_matches (codes "/a/b") (codes "/a") [] (codes "z") (ground arith) (ground arith)

urlcmp_icase-lower_example :
    urlcmp_icase (codes "/A/b" ++ 0 ∷ []) (codes "!/a" ++ 0 ∷ []) ≡ ok false
unfolding url_matches lower tolower
urlcmp_icase-lower_example =
    urlcmp_icase-lower (codes "/A/b") (codes "!/a") [] [] (ground arith) (ground arith)
