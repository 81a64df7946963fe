-- ===== src/Http/Request/RoundTrip.antt =====
-- A request that is written in good order is read back as it was meant.
use mathlib.Core.List.{append-nil, append_assoc}
use chttpd.Prelude.{
  ℕ, zero, suc, Bool, true, ◌<◌, ◌≡◌, ◌≢◌, refl, sym, ap, ◌∙◌, false, List, [], ◌∷◌, ◌++◌, arith,
  ◌==◌, ltb, All, All-append, length, length-append, take-append, drop-append,
}
use chttpd.Libc.{Bytes, ok, cstr, IsCStr, strlen}
use chttpd.Libc.Strings.{Without, strlen-length}
use chttpd.Libc.Text.{codes}
use chttpd.Util.{StringPair}
use chttpd.Http.{HttpMethod, HttpRequest, parse_http_method_slice}
use chttpd.Http.Query.{QueryPath, parse_query_path}
use chttpd.Http.Lines.{Stream, read_http_line, parse_http_header_line}
use chttpd.Http.Lines.FirstLine.{first_line, parse_http_first_line-print}
use chttpd.Http.Lines.Laws.{IsHeader, parse_http_header_line-print, read_http_line-crlf}
use chttpd.Http.Request.{
  Line, Headers, read_headers, find_content_length, read_body, after_headers, after_first_line,
  read_http_request,
}

-- A header that stands on a line of its own.
pub record IsHeaderLine (p : StringPair) : Type 0 where
  pub header : IsHeader p
  pub name_line : Without b'\n' p.first
  pub value_line : Without b'\n' p.second

-- The headers, the empty line, and what follows it.
unfoldable pub print_headers : List StringPair → Bytes → Bytes
print_headers [] body = b'\r' ∷ b'\n' ∷ body
print_headers (p ∷ ps) body =
    p.first ++ b':' ∷ b' ' ∷ (p.second ++ b'\r' ∷ b'\n' ∷ print_headers ps body)

-- The line of one header, as `getdelim` leaves it in memory.
line_of : StringPair → Bytes
line_of p = p.first ++ b':' ∷ b' ' ∷ (p.second ++ b'\r' ∷ b'\n' ∷ 0 ∷ [])

read_http_line-header :
    (p : StringPair) (ps : List StringPair) (body : Bytes)
    → IsHeaderLine p
    → read_http_line (print_headers (p ∷ ps) body) ≡ ok (line_of p, print_headers ps body)
unfolding print_headers line_of
read_http_line-header p ps body h =
    let line = b':' ∷ b' ' ∷ p.second in
    let plain =
      All-append (λ c. c ≢ b'\n') p.first line h.name_line
        (omega arith, (omega arith, h.value_line)) in
    ap read_http_line (sym (append_assoc p.first line (b'\r' ∷ b'\n' ∷ print_headers ps body)))
    ∙ read_http_line-crlf (p.first ++ line) (print_headers ps body) plain
    ∙ ap (λ l. ok (l, print_headers ps body))
        (append_assoc (p.first ++ line) (b'\r' ∷ b'\n' ∷ []) (0 ∷ [])
          ∙ append_assoc p.first line (b'\r' ∷ b'\n' ∷ 0 ∷ []))

strlen-line_of : (p : StringPair) → IsHeaderLine p → (n : ℕ) × (strlen (line_of p) ≡ ok n) × (2 < n)
unfolding line_of
strlen-line_of p h =
    let value = p.second ++ b'\r' ∷ b'\n' ∷ [] in
    let line = p.first ++ b':' ∷ b' ' ∷ value in
    let c =
      All-append (λ c. c ≢ 0) p.first (b':' ∷ b' ' ∷ value) h.header.name_cstr
        (
          omega arith,
          (
            omega arith,
            All-append (λ c. c ≢ 0) p.second (b'\r' ∷ b'\n' ∷ []) h.header.value_cstr (omega arith),
          ),
        ) in
    (
      length line,
      ap strlen (
            ap (λ v. p.first ++ b':' ∷ b' ' ∷ v)
              (sym (append_assoc p.second (b'\r' ∷ b'\n' ∷ []) (0 ∷ [])))
            ∙ sym (append_assoc p.first (b':' ∷ b' ' ∷ value) (0 ∷ [])))
          ∙ strlen-length line [] c,
      omega (
        arith,
        length-append p.first (b':' ∷ b' ' ∷ value),
        length-append p.second (b'\r' ∷ b'\n' ∷ []),
      ),
    )

parse-line_of : (p : StringPair) → IsHeaderLine p → parse_http_header_line (line_of p) ≡ ok p
unfolding line_of
parse-line_of p h = parse_http_header_line-print p (b'\n' ∷ 0 ∷ []) h.header

read_http_line-empty :
    (body : Bytes) → read_http_line (print_headers [] body) ≡ ok (b'\r' ∷ b'\n' ∷ 0 ∷ [], body)
unfolding print_headers
read_http_line-empty body = read_http_line-crlf [] body tt

strlen-empty : strlen (b'\r' ∷ b'\n' ∷ 0 ∷ []) ≡ ok 2
unfolding strlen
strlen-empty = refl

-- The loop reads back all the headers, and leaves the stream behind the empty line.
pub read_headers-print :
    (fuel : ℕ) (ps acc : List StringPair) (body : Bytes)
    → All IsHeaderLine ps
    → length ps < fuel
    → read_headers fuel (print_headers ps body) acc
      ≡ ok (Headers.done (acc ++ ps) body Line.dangling)
unfolding read_headers
read_headers-print zero ps acc body h f = absurd (omega arith)
read_headers-print (suc fuel) [] acc body h f =
    rw (read_http_line-empty body, strlen-empty, append-nil acc)
read_headers-print (suc fuel) (p ∷ ps) acc body h f =
    let (n, e, l) = strlen-line_of p h.0 in
    let ne : (n == 2) ≡ false = ground arith in
    rw (read_http_line-header p ps body h.0) (
      rw (e, ne)
        (rw (parse-line_of p h.0) (
          read_headers-print fuel ps (acc ++ p ∷ []) body h.1 (omega arith)
          ∙ ap (λ hs. ok (Headers.done hs body Line.dangling)) (append_assoc acc (p ∷ []) ps))))

-- The target of a request line, behind its first `/`.
pub record IsTarget (target : Bytes) (r : HttpRequest) : Type 0 where
  pub target_cstr : IsCStr target
  pub target_plain : Without b' ' target
  pub target_line : Without b'\n' target
  pub target_says : parse_query_path (b'/' ∷ target) ≡ ok (r.request_path, r.query_string, r.params)

-- A request in good order, written with the word `name` for its method.
pub record IsRequest (name target : Bytes) (r : HttpRequest) : Type 0 where
  pub name_cstr : IsCStr name
  pub name_plain : Without b' ' name
  pub name_line : Without b'\n' name
  pub names_method : parse_http_method_slice name ≡ ok (r.method, false)
  pub is_target : IsTarget target r
  pub header_lines : All IsHeaderLine r.headers

unfoldable pub print_request : Bytes → Bytes → List StringPair → Bytes → Stream
unfolding print_headers
print_request name target headers body =
    name ++ b' ' ∷ b'/' ∷ (target ++ (b' ' ∷ (codes "HTTP/1.1\r\n" ++ print_headers headers body)))

request_line :
    (name target : Bytes) (headers : List StringPair) (body : Bytes)
    → Without b'\n' name
    → Without b'\n' target
    → read_http_line (print_request name target headers body)
      ≡ ok (cstr (first_line name target), print_headers headers body)
unfolding print_request first_line
request_line name target headers body h k =
    let version = codes " HTTP/1.1" in
    let behind = b' ' ∷ b'/' ∷ (target ++ version) in
    let rest = print_headers headers body in
    let regroup = λ (m : Bytes).
      append_assoc name behind m
      ∙ ap (λ t. name ++ b' ' ∷ b'/' ∷ t) (append_assoc target version m) in
    let plain =
      All-append (λ c. c ≢ b'\n') name behind h
        (omega arith, (omega arith, All-append (λ c. c ≢ b'\n') target version k (omega arith))) in
    ap read_http_line (sym (regroup (b'\r' ∷ b'\n' ∷ rest)))
    ∙ read_http_line-crlf (name ++ behind) rest plain
    ∙ ap (λ l. ok (cstr l, rest)) (regroup (b'\r' ∷ b'\n' ∷ []))

length-print_headers :
    (ps : List StringPair) (body : Bytes) → length ps < suc (length (print_headers ps body))
unfolding print_headers
length-print_headers [] body = omega arith
length-print_headers (p ∷ ps) body = omega (
  arith,
  length-print_headers ps body,
  length-append p.first (b':' ∷ b' ' ∷ (p.second ++ b'\r' ∷ b'\n' ∷ print_headers ps body)),
  length-append p.second (b'\r' ∷ b'\n' ∷ print_headers ps body),
)

-- Up to its body a request in good order is read as it was written, whatever follows its headers.
pub read_http_request-body :
    (malloc : ℕ → Bool) (name target : Bytes) (r : HttpRequest) (body : Bytes) (n : ℕ)
    → IsRequest name target r
    → find_content_length r.headers ≡ ok n
    → read_http_request malloc (print_request name target r.headers body)
      ≡ read_body malloc
          (r.method, (r.request_path, r.query_string, r.params))
          r.headers
          body
          Line.dangling
          n
unfolding read_http_request after_first_line after_headers
read_http_request-body malloc name target r body n h announced =
    let t = h.is_target in
    rw (request_line name target r.headers body h.name_line t.target_line) (
      rw
        (
          parse_http_first_line-print name target r.method h.name_cstr h.name_plain h.names_method
              t.target_cstr t.target_plain,
          t.target_says,
        )
        (rw
          (read_headers-print (suc (length (print_headers r.headers body))) r.headers [] body
            h.header_lines (length-print_headers r.headers body))
          (rw announced)))

whole_body :
    (malloc : ℕ → Bool) (m : HttpMethod) (path : QueryPath) (headers : List StringPair)
    (body more : Bytes) (n : ℕ)
    → malloc n ≡ true
    → length body ≡ n
    → read_body malloc (m, path) headers (body ++ more) Line.dangling n
      ≡ ok (
        record {
          method = m;
          content_length = n;
          request_path = path.0;
          query_string = path.1;
          params = path.2;
          headers = headers;
          body = body;
        },
        more,
      )
unfolding read_body
whole_body malloc m path headers body more n given e =
    let enough : ltb (length (body ++ more)) (length body) ≡ false =
      ground (arith, length-append body more) in
    rw given (rw (← e) (rw (enough, take-append body more, drop-append body more)))

-- A request in good order, with as many bytes of body as its headers announce and memory for it, is
-- read back: the
-- method, path, query string, parameters, headers and body are those that were written, and the
-- bytes behind the body stay in the stream.
pub read_http_request-print :
    (malloc : ℕ → Bool) (name target : Bytes) (r : HttpRequest) (more : Stream)
    → IsRequest name target r
    → find_content_length r.headers ≡ ok r.content_length
    → malloc r.content_length ≡ true
    → length r.body ≡ r.content_length
    → read_http_request malloc (print_request name target r.headers (r.body ++ more)) ≡ ok (r, more)
read_http_request-print malloc name target r more h announced given long =
    rw (read_http_request-body malloc name target r (r.body ++ more) r.content_length h announced) (
      whole_body malloc r.method (r.request_path, r.query_string, r.params) r.headers r.body more
        r.content_length given long)
