-- ===== src/Http/Request.antt =====
-- `readHttpRequest` of src/http.c: the first line, the headers, the body. The variable `line`
-- holds a block that several paths free.
pub mod Faults
pub mod Release
pub mod RoundTrip
pub mod Total
use chttpd.Prelude.{
  ℕ, zero, suc, ◌+◌, Bool, true, false, not, Option, none, some, List, [], ◌∷◌, ◌++◌, ltb, leb,
  ◌==◌, if◌then◌else◌, length, take, drop,
}
use chttpd.Prelude.Int.{ℤ, pos, negsuc}
use chttpd.Libc.{
  Bytes, Result, ok, reject, fault, double_free, out_of_fuel, ◌>>=◌, cstr, strlen, atoi,
}
use chttpd.Libc.Text.{codes}
use chttpd.Util.{StringPair, strcmp_icase}
use chttpd.Http.{HttpMethod, HttpRequest}
use chttpd.Http.Query.{QueryPath}
use chttpd.Http.Lines.{
  Stream, read_http_line, FirstLine, parse_http_first_line, parse_http_header_line,
}

-- The block that `line` points to: it may be freed once.
pub data Line : Type 0 where
  null live dangling : Line

-- `free(line)`
unfoldable pub free : Line → Result Line
free Line.null = ok Line.null
free Line.live = ok Line.dangling
free Line.dangling = fault double_free

-- `free_params_ret` and the labels that fall through to it. The vectors and strings are dropped
-- with the values that hold them; what is left of the block is `free(line)`.
unfoldable pub free_ret {ℓ} : {A : Type ℓ} → Line → Result A
unfolding free
free_ret line = free line >>= λ _. reject

-- The outcome of the loop over the headers: they and the stream behind the empty line, or the
-- jump to `free_headers_ret` with what `line` then is.
pub data Headers : Type 0 where
  done : List StringPair → Stream → Line → Headers
  failed : Line → Headers

-- The end of a round, on what `parseHttpHeaderLine` returned; `next_round` is the loop.
unfoldable pub add_header :
    (Stream → List StringPair → Result Headers)
    → Stream
    → List StringPair
    → Result StringPair
    → Result Headers
unfolding free
add_header next_round rest headers (ok header) =
    free Line.live >>= λ _. next_round rest (headers ++ header ∷ [])
add_header next_round rest headers reject = ok (Headers.failed Line.live)
add_header next_round rest headers (fault e) = fault e

-- A line whose string has two characters ends the headers.
unfoldable pub take_line :
    (Stream → List StringPair → Result Headers) → List StringPair → Bytes → Stream → Result Headers
unfolding free add_header
take_line next_round headers line rest = strlen line >>= λ n.
    if n == 2
    then (free Line.live >>= λ l. ok (Headers.done headers rest l))
    else add_header next_round rest headers (parse_http_header_line line)

-- The begin of a round, on what `readHttpLine` returned.
unfoldable pub start_round :
    (Stream → List StringPair → Result Headers)
    → List StringPair
    → Result (Bytes × Stream)
    → Result Headers
unfolding take_line
start_round next_round headers (ok (line, rest)) = take_line next_round headers line rest
start_round next_round headers reject = ok (Headers.failed Line.null)
start_round next_round headers (fault e) = fault e

-- `for (;;)` on fuel: each round takes a byte at least off the stream.
unfoldable pub read_headers : ℕ → Stream → List StringPair → Result Headers
unfolding start_round
read_headers zero fp headers = fault out_of_fuel
read_headers (suc fuel) fp headers = start_round (read_headers fuel) headers (read_http_line fp)

-- A length that is not positive is ignored, with a warning.
unfoldable pub positive_length : ℤ → ℕ
positive_length (pos n) = n
positive_length (negsuc n) = 0

-- The first header of that name decides.
unfoldable pub find_content_length : List StringPair → Result ℕ
unfolding positive_length
find_content_length [] = ok 0
find_content_length (header ∷ headers) =
    let rest = find_content_length headers in
    strcmp_icase (cstr header.first) (cstr (codes "Content-Length")) >>= λ same.
    if same then ok (positive_length (atoi header.second)) else rest

-- The block of the request, or `free_headers_ret`, and `fread` of the body: all the bytes that are
-- announced, or `free_all_ret`. `line` is whatever the loop over the headers left.
unfoldable pub read_body :
    (ℕ → Bool) → FirstLine → List StringPair → Stream → Line → ℕ → Result (HttpRequest × Stream)
unfolding free_ret
read_body malloc (method, (path, query, params)) headers fp line content_length =
    if not (malloc content_length)
    then free_ret line
    else if ltb (length fp) content_length
    then free_ret line
    else ok (
      record {
        method = method;
        content_length = content_length;
        request_path = path;
        query_string = query;
        params = params;
        headers = headers;
        body = take content_length fp;
      },
      drop content_length fp,
    )

-- Behind the loop over the headers.
unfoldable pub after_headers : (ℕ → Bool) → FirstLine → Headers → Result (HttpRequest × Stream)
unfolding free_ret find_content_length read_body
after_headers malloc first (Headers.failed line) = free_ret line
after_headers malloc first (Headers.done headers fp line) =
    find_content_length headers >>= λ n. read_body malloc first headers fp line n

-- Behind the first line.
unfoldable pub after_first_line :
    (ℕ → Bool) → Stream → Result FirstLine → Result (HttpRequest × Stream)
unfolding free free_ret read_headers after_headers
after_first_line malloc fp (ok first) = do
  freed ← free Line.live
  headers ← read_headers (suc (length fp)) fp []
  after_headers malloc first headers
after_first_line malloc fp reject = free_ret Line.live
after_first_line malloc fp (fault e) = fault e

-- `malloc` says of a length of the body whether there is memory for the request with it. The request
-- comes with what the connection has yet to deliver.
unfoldable pub read_http_request : (ℕ → Bool) → Stream → Result (HttpRequest × Stream)
unfolding after_first_line
read_http_request malloc fp =
    read_http_line fp >>= λ (line, rest). after_first_line malloc rest (parse_http_first_line line)
