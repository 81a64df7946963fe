-- ===== src/Http/Lines.antt =====
-- `readHttpLine`, `parseHttpFirstLine`, `parseHttpHeaderLine` and `skipWhitespace` of src/http.c.
-- The stream is the list of the bytes that the connection has yet to deliver.
pub mod FirstLine
pub mod Header
pub mod Target
pub mod Laws
use chttpd.Prelude.{
  ℕ, suc, Bool, true, false, not, ◌&&◌, ◌||◌, Option, none, some, List, [], ◌∷◌, ◌++◌, ltb, ◌==◌,
  if◌then◌else◌, length,
}
use chttpd.Libc.{
  Bytes, Result, ok, reject, fault, out_of_bounds, missing_argument, ◌>>=◌, cstr, isspace,
  until_nul, strchr, strncmp_eq,
}
use chttpd.Libc.Text.{codes}
use chttpd.Util.{StringPair}
use chttpd.Http.{HttpMethod, parse_http_method_slice}
use chttpd.Http.Query.{QueryPath, parse_query_path, parse_query_path_null}

abbrev pub Stream : Type 0
Stream = List ℕ

-- `getdelim`: the bytes up to a newline, the newline with them, and what is left.
unfoldable pub getdelim : Stream → Bytes × Stream
getdelim [] = ([], [])
getdelim (c ∷ fp) =
    if c == b'\n' then (c ∷ [], fp) else (let (line, rest) = getdelim fp in (c ∷ line, rest))

-- Whether the bytes end in `\r\n`.
unfoldable pub ends_crlf : Bytes → Bool
ends_crlf [] = false
ends_crlf (c ∷ []) = false
ends_crlf (c ∷ d ∷ []) = c == b'\r' && d == b'\n'
ends_crlf (c ∷ d ∷ e ∷ s) = ends_crlf (d ∷ e ∷ s)

-- `reject` for `NULL`: nothing left, or a line of more than two bytes that does not end in `\r\n`.
-- The line comes with the terminator that `getdelim` writes behind it.
unfoldable pub read_http_line : Stream → Result (Bytes × Stream)
unfolding ends_crlf
read_http_line fp =
    let (line, rest) = getdelim fp in
    if length line == 0
    then reject
    else if ltb 2 (length line) && not (ends_crlf line)
    then reject
    else ok (cstr line, rest)

unfoldable pub skip_whitespace : Bytes → Result Bytes
skip_whitespace [] = fault out_of_bounds
skip_whitespace (c ∷ str) =
    if isspace c && not (c == b'\r') && not (c == b'\n') then skip_whitespace str else ok (c ∷ str)

abbrev pub FirstLine : Type 0
FirstLine = HttpMethod × QueryPath

-- What follows the path: the space that ended it, and the version. The message for another version
-- has a `%s` and no argument for it.
unfoldable pub check_version : Bytes → FirstLine → Result FirstLine
check_version it2 first = do
  it2' ← skip_whitespace it2
  same ← strncmp_eq it2' (cstr (codes "HTTP/1.1")) 8
  if same then ok first else fault missing_argument

-- From the `/` on.
unfoldable pub parse_target : Bytes → HttpMethod → Result FirstLine
unfolding check_version
parse_target it method = do
  space ← strchr it b' '
  elim space [
    | none ↦ parse_query_path_null it >>= λ path. ok (method, path)
    | some (slice, rest) ↦
        parse_query_path slice >>= λ path. check_version (b' ' ∷ rest) (method, path)
  ]

-- Behind the method: the first `/` begins the path.
unfoldable pub parse_after_method : Bytes → HttpMethod → Result FirstLine
unfolding parse_target
parse_after_method it method = do
  it' ← skip_whitespace it
  slash ← strchr it' b'/'
  elim slash [ none ↦ reject | some (skipped, rest) ↦ parse_target (b'/' ∷ rest) method ]

unfoldable pub parse_http_first_line : Bytes → Result FirstLine
unfolding parse_after_method
parse_http_first_line line = do
  space ← strchr line b' '
  elim space [
    | none ↦ reject
    | some (name, rest) ↦ do
      (method, parse_error) ← parse_http_method_slice name
      if parse_error then reject else parse_after_method (b' ' ∷ rest) method
  ]

-- `while (*it2 != '\r') it2++`, which no terminator stops.
unfoldable pub until_cr : Bytes → Result Bytes
until_cr [] = fault out_of_bounds
until_cr (c ∷ it2) = if not (c == b'\r') then (until_cr it2 >>= λ s. ok (c ∷ s)) else ok []

-- The header that is pushed to the vector.
unfoldable pub parse_http_header_line : Bytes → Result StringPair
unfolding until_cr
parse_http_header_line line = do
  colon ← strchr line b':'
  elim colon [
    | none ↦ reject
    | some (name, rest) ↦ do
      it ← skip_whitespace rest
      value ← until_cr it
      ok (record { first = until_nul name; second = until_nul value })
  ]
