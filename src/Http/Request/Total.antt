-- ===== src/Http/Request/Total.antt =====
-- The reader of a request ends, on every stream, and fails in no other way than its parsers.
use chttpd.Prelude.{
  ℕ, zero, suc, Bool, ◌<◌, ◌≡◌, ◌≢◌, refl, inl, inr, List, [], ◌∷◌, ◌++◌, arith, ◌==◌, Bool-cases,
  length,
}
use chttpd.Libc.{
  Bytes, Fault, Result, ok, reject, fault, out_of_fuel, out_of_bounds, null_pointer,
  missing_argument, >>=-ne_fault, cstr, strlen,
}
use chttpd.Libc.Text.{codes}
use chttpd.Util.{StringPair, strcmp_icase}
use chttpd.Http.Lines.{
  Stream, read_http_line, FirstLine, parse_http_first_line, parse_http_header_line,
}
use chttpd.Http.Lines.Laws.{length-read_http_line}
use chttpd.Http.Request.{
  Line, free, Headers, read_headers, find_content_length, read_body, read_http_request, add_header,
  start_round, after_headers, after_first_line,
}
use chttpd.Http.Request.Faults.{
  Spares, strlen-Spares, strcmp_icase-Spares, parse_http_first_line-Spares,
  parse_http_header_line-Spares,
}

module _ (e : Fault) (h : e ≢ out_of_bounds) (k : e ≢ null_pointer) (m : e ≢ missing_argument) where
  pub read_http_line-Spares : (fp : Stream) → Spares e (read_http_line fp)
  unfolding read_http_line
  read_http_line-Spares fp = ground arith

  pub find_content_length-Spares : (hs : List StringPair) → Spares e (find_content_length hs)
  unfolding find_content_length
  find_content_length-Spares [] = λ p. cc
  find_content_length-Spares (x ∷ hs) =
      >>=-ne_fault (strcmp_icase (cstr x.first) (cstr (codes "Content-Length"))) _ e
        (strcmp_icase-Spares e h k m _ _) (λ same. ground (arith, find_content_length-Spares hs))

  add_header-Spares :
      (next_round : Stream → List StringPair → Result Headers) (rest : Stream)
      (hs : List StringPair) (r : Result StringPair)
      → Spares e r
      → ((gs : List StringPair) → Spares e (next_round rest gs))
      → Spares e (add_header next_round rest hs r)
  unfolding add_header
  add_header-Spares next_round rest hs (ok x) s t = t (hs ++ x ∷ [])
  add_header-Spares next_round rest hs reject s t = λ p. cc
  add_header-Spares next_round rest hs (fault d) s t = λ p. s (cc p)

  start_round-Spares :
      (next_round : Stream → List StringPair → Result Headers) (hs : List StringPair)
      (r : Result (Bytes × Stream))
      → Spares e r
      → ((line : Bytes) (rest : Stream) (gs : List StringPair)
          → r ≡ ok (line, rest)
          → Spares e (next_round rest gs))
      → Spares e (start_round next_round hs r)
  unfolding start_round
  start_round-Spares next_round hs (ok (line, rest)) s t =
      >>=-ne_fault (strlen line) _ e (strlen-Spares e h k m line) λ n. elim (Bool-cases (n == 2)) [
        | inl two ↦ rw two (λ p. cc)
        | inr more ↦ rw more (
            add_header-Spares next_round rest hs (parse_http_header_line line)
              (parse_http_header_line-Spares e h k m line) (λ gs. t line rest gs refl))
      ]
  start_round-Spares next_round hs reject s t = λ p. cc
  start_round-Spares next_round hs (fault d) s t = λ p. s (cc p)

  -- The fuel is enough if it exceeds the bytes of the stream.
  pub read_headers-Spares :
      (fuel : ℕ) (fp : Stream) (hs : List StringPair)
      → length fp < fuel
      → Spares e (read_headers fuel fp hs)
  unfolding read_headers
  read_headers-Spares zero fp hs l = absurd (omega arith)
  read_headers-Spares (suc fuel) fp hs l =
      start_round-Spares (read_headers fuel) hs (read_http_line fp) (read_http_line-Spares fp)
        λ line rest gs q.
          read_headers-Spares fuel rest gs (omega (arith, length-read_http_line fp q))

read_body-ends :
    (malloc : ℕ → Bool) (first : FirstLine) (hs : List StringPair) (fp : Stream) (line : Line)
    (n : ℕ)
    → read_body malloc first hs fp line n ≢ fault out_of_fuel
unfolding read_body free
read_body-ends malloc first hs fp Line.null n = ground arith
read_body-ends malloc first hs fp Line.live n = ground arith
read_body-ends malloc first hs fp Line.dangling n = ground arith

module _ (b : out_of_fuel ≢ out_of_bounds) (n : out_of_fuel ≢ null_pointer)
    (m : out_of_fuel ≢ missing_argument) where
  after_headers-ends :
      (malloc : ℕ → Bool) (first : FirstLine) (h : Headers)
      → after_headers malloc first h ≢ fault out_of_fuel
  unfolding after_headers
  after_headers-ends malloc first (Headers.failed Line.null) = λ p. cc
  after_headers-ends malloc first (Headers.failed Line.live) = λ p. cc
  after_headers-ends malloc first (Headers.failed Line.dangling) = λ p. cc
  after_headers-ends malloc first (Headers.done hs fp line) =
      >>=-ne_fault (find_content_length hs) _ _ (find_content_length-Spares out_of_fuel b n m hs)
        (read_body-ends malloc first hs fp line)

  after_first_line-ends :
      (malloc : ℕ → Bool) (fp : Stream) (r : Result FirstLine)
      → r ≢ fault out_of_fuel
      → after_first_line malloc fp r ≢ fault out_of_fuel
  unfolding after_first_line
  after_first_line-ends malloc fp (ok first) s =
      >>=-ne_fault (read_headers (suc (length fp)) fp []) _ _
        (read_headers-Spares out_of_fuel b n m (suc (length fp)) fp [] (omega arith))
        (after_headers-ends malloc first)
  after_first_line-ends malloc fp reject s = λ p. cc
  after_first_line-ends malloc fp (fault d) s = λ p. s (cc p)

  read_http_request-ends :
      (malloc : ℕ → Bool) (fp : Stream) → read_http_request malloc fp ≢ fault out_of_fuel
  unfolding read_http_request
  read_http_request-ends malloc fp =
      >>=-ne_fault (read_http_line fp) _ _ (read_http_line-Spares out_of_fuel b n m fp)
        λ (line, rest).
          after_first_line-ends malloc rest (parse_http_first_line line)
            (parse_http_first_line-Spares out_of_fuel b n m line)

-- `readHttpRequest` ends on every stream: the fuel of its loops, one more than the bytes that they
-- may read, never runs out.
pub read_http_request-ne_out_of_fuel :
    (malloc : ℕ → Bool) (fp : Stream) → read_http_request malloc fp ≢ fault out_of_fuel
read_http_request-ne_out_of_fuel = read_http_request-ends (λ p. cc) (λ p. cc) (λ p. cc)
