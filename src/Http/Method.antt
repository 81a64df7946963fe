-- ===== src/Http/Method.antt =====
-- Which method a word names, and that both parsers of src/http.c agree on it.
use chttpd.Prelude.{◌≡◌, ◌↔◌, refl, Bool, true, false, [], arith, if◌then◌else◌}
use chttpd.Libc.{Bytes, ok, cstr, IsCStr, tolower}
use chttpd.Libc.Text.{bytes_eq, bytes_eq_iff, lower}
use chttpd.Util.Compare.{strcmp_icase-lower, slicecmp_icase-lower}
use chttpd.Http.{HttpMethod, http_method_names, parse_http_method, parse_http_method_slice}

http_method_names-IsCStr : (m : HttpMethod) → IsCStr (http_method_names m)
unfolding http_method_names
http_method_names-IsCStr HttpMethod.get = omega arith
http_method_names-IsCStr HttpMethod.post = omega arith
http_method_names-IsCStr HttpMethod.options = omega arith

-- Whether the word names the method, in any case of its letters.
abbrev is_name : Bytes → HttpMethod → Bool
is_name s m = bytes_eq (lower s) (lower (http_method_names m))

-- The ladder of tests that both parsers come to.
unfoldable pub choose : Bytes → HttpMethod × Bool
choose s =
    if is_name s HttpMethod.get
    then (HttpMethod.get, false)
    else if is_name s HttpMethod.post
    then (HttpMethod.post, false)
    else if is_name s HttpMethod.options
    then (HttpMethod.options, false)
    else (HttpMethod.get, true)

pub slice-choose : (s : Bytes) → parse_http_method_slice s ≡ ok (choose s)
unfolding parse_http_method_slice choose
slice-choose s =
    let at = λ (m : HttpMethod).
      slicecmp_icase-lower s (http_method_names m) [] (http_method_names-IsCStr m) in
    rw (at HttpMethod.get, at HttpMethod.post, at HttpMethod.options) (ground arith)

-- `parseHttpMethod` on a terminated word and `parseHttpMethodSlice` on its characters give the same
-- method and the same error.
pub parse_http_method-slice :
    (s : Bytes) → IsCStr s → parse_http_method (cstr s) ≡ parse_http_method_slice s
unfolding parse_http_method choose
parse_http_method-slice s c =
    let at = λ (m : HttpMethod).
      strcmp_icase-lower s (http_method_names m) [] [] c (http_method_names-IsCStr m) in
    rw (slice-choose s, at HttpMethod.get, at HttpMethod.post, at HttpMethod.options) (ground arith)

names_distinct :
    (m n : HttpMethod) → lower (http_method_names m) ≡ lower (http_method_names n) → m ≡ n
unfolding lower http_method_names tolower
names_distinct HttpMethod.get HttpMethod.get e = refl
names_distinct HttpMethod.post HttpMethod.post e = refl
names_distinct HttpMethod.options HttpMethod.options e = refl
names_distinct m n e = cc

-- `parseHttpMethodSlice` returns a method without an error exactly if the slice is its name in any
-- case of the letters.
pub parse_http_method_slice_iff :
    (s : Bytes) (m : HttpMethod)
    → (parse_http_method_slice s ≡ ok (m, false)) ↔ (lower s ≡ lower (http_method_names m))
unfolding choose
parse_http_method_slice_iff s m = rw slice-choose (
  ground (
    arith,
    bytes_eq_iff (lower s) (lower (http_method_names HttpMethod.get)),
    bytes_eq_iff (lower s) (lower (http_method_names HttpMethod.post)),
    bytes_eq_iff (lower s) (lower (http_method_names HttpMethod.options)),
  ),
  λ e. ground (
    arith,
    bytes_eq_iff (lower s) (lower (http_method_names HttpMethod.get)),
    bytes_eq_iff (lower s) (lower (http_method_names HttpMethod.post)),
    bytes_eq_iff (lower s) (lower (http_method_names HttpMethod.options)),
    names_distinct m HttpMethod.get,
    names_distinct m HttpMethod.post,
    names_distinct m HttpMethod.options,
  ),
)
