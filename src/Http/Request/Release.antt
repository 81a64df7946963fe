-- ===== src/Http/Request/Release.antt =====
-- The block of `line` is freed once, unless the body is not read.
use chttpd.Prelude.{
  ℕ, zero, suc, ◌<◌, ◌≡◌, ◌≢◌, ◌↔◌, refl, ◌∙◌, inl, inr, ◌⊎◌, Bool, true, false, ltb, List, [], ◌∷◌,
  ◌++◌, arith, ◌==◌, if◌then◌else◌, Bool-cases, length,
}
use chttpd.Libc.{
  Bytes, Result, ok, reject, fault, out_of_bounds, null_pointer, missing_argument, double_free,
  fault-injective, ◌>>=◌, >>=-eq-fault, strlen,
}
use chttpd.Util.{StringPair}
use chttpd.Http.Lines.{
  Stream, read_http_line, FirstLine, parse_http_first_line, parse_http_header_line,
}
use mathlib.Core.Path.{subst}
use chttpd.Prelude.{ap}
use chttpd.Http.{HttpRequest}
use chttpd.Http.Request.Total.{
  read_http_line-Spares, find_content_length-Spares, read_headers-Spares,
}
use chttpd.Http.Request.{
  Line, free, free_ret, Headers, read_headers, find_content_length, read_body, read_http_request,
  add_header, start_round, after_headers, after_first_line,
}
use chttpd.Http.Request.Faults.{parse_http_first_line-Spares}

-- `line` when the loop is left: freed in the last round, or not yet.
abbrev pub LineInv : Result Headers → Type 0
LineInv (ok (Headers.done headers fp line)) = line ≡ Line.dangling
LineInv (ok (Headers.failed line)) = line ≢ Line.dangling
LineInv _ = Unit

add_header-LineInv :
    (next_round : Stream → List StringPair → Result Headers) (rest : Stream) (hs : List StringPair)
    (r : Result StringPair)
    → ((gs : List StringPair) → LineInv (next_round rest gs))
    → LineInv (add_header next_round rest hs r)
unfolding add_header
add_header-LineInv next_round rest hs (ok x) t = t (hs ++ x ∷ [])
add_header-LineInv next_round rest hs reject t = λ p. cc
add_header-LineInv next_round rest hs (fault d) t = tt

start_round-LineInv :
    (next_round : Stream → List StringPair → Result Headers) (hs : List StringPair)
    (r : Result (Bytes × Stream))
    → ((rest : Stream) (gs : List StringPair) → LineInv (next_round rest gs))
    → LineInv (start_round next_round hs r)
unfolding start_round
start_round-LineInv next_round hs (ok (line, rest)) t = go (strlen line)
  where
    go :
        (n : Result ℕ)
        → LineInv (
            n >>= λ n.
            if n == 2
            then (free Line.live >>= λ l. ok (Headers.done hs rest l))
            else add_header next_round rest hs (parse_http_header_line line))
    go (ok n) = elim (Bool-cases (n == 2)) [
      | inl two ↦ rw two refl
      | inr more ↦ rw more (add_header-LineInv next_round rest hs _ (t rest))
    ]
    go reject = tt
    go (fault d) = tt
start_round-LineInv next_round hs reject t = λ p. cc
start_round-LineInv next_round hs (fault d) t = tt

pub read_headers-LineInv :
    (fuel : ℕ) (fp : Stream) (hs : List StringPair) → LineInv (read_headers fuel fp hs)
unfolding read_headers
read_headers-LineInv zero fp hs = tt
read_headers-LineInv (suc fuel) fp hs =
    start_round-LineInv (read_headers fuel) hs (read_http_line fp) (read_headers-LineInv fuel)

-- There is no memory for a body of that length, or it is short.
abbrev pub NoBody : (ℕ → Bool) → Stream → ℕ → Type 0
NoBody malloc left announced = (malloc announced ≡ false) ⊎ (length left < announced)

-- The request is in order up to its body, which is not read.
pub record LostBody (malloc : ℕ → Bool) (fp : Stream) : Type 0 where
  pub line : Bytes
  pub rest : Stream
  pub first : FirstLine
  pub headers : List StringPair
  pub left : Stream
  pub freed : Line
  pub announced : ℕ
  pub reads_line : read_http_line fp ≡ ok (line, rest)
  pub reads_first : parse_http_first_line line ≡ ok first
  pub reads_headers :
      read_headers (suc (length rest)) rest [] ≡ ok (Headers.done headers left freed)
  pub announces : find_content_length headers ≡ ok announced
  pub no_body : NoBody malloc left announced

free_ret-double_free :
    (line : Line)
    → free_ret {A = HttpRequest × Stream} line ≡ fault double_free
    → line ≡ Line.dangling
unfolding free_ret
free_ret-double_free Line.null h = cc
free_ret-double_free Line.live h = cc
free_ret-double_free Line.dangling h = refl

read_body-double_free :
    (malloc : ℕ → Bool) (first : FirstLine) (hs : List StringPair) (fp : Stream) (line : Line)
    (n : ℕ)
    → read_body malloc first hs fp line n ≡ fault double_free
    → NoBody malloc fp n
unfolding read_body
read_body-double_free malloc first hs fp block n h = elim (Bool-cases (malloc n)) [
  | inr none ↦ inl none
  | inl given ↦ elim (Bool-cases (ltb (length fp) n)) [
    | inl short ↦ inr (ground arith)
    | inr enough ↦ cc (rw (given, enough) at h)
  ]
]

-- What the loop and what follows it come to, if the block is freed twice.
record Behind (malloc : ℕ → Bool) (first : FirstLine) (fp : Stream) : Type 0 where
  headers : List StringPair
  left : Stream
  freed : Line
  announced : ℕ
  reads_headers : read_headers (suc (length fp)) fp [] ≡ ok (Headers.done headers left freed)
  announces : find_content_length headers ≡ ok announced
  no_body : NoBody malloc left announced

module _ (b : double_free ≢ out_of_bounds) (n : double_free ≢ null_pointer)
    (m : double_free ≢ missing_argument) where
  after_headers-Behind :
      (malloc : ℕ → Bool) (first : FirstLine) (fp : Stream) (h : Headers)
      → read_headers (suc (length fp)) fp [] ≡ ok h
      → after_headers malloc first h ≡ fault double_free
      → Behind malloc first fp
  unfolding after_headers
  after_headers-Behind malloc first fp (Headers.failed line) q h =
      absurd (
        subst LineInv q (read_headers-LineInv (suc (length fp)) fp [])
          (free_ret-double_free line h))
  after_headers-Behind malloc first fp (Headers.done hs left line) q h =
      elim (>>=-eq-fault (find_content_length hs) _ h) [
        | inl f ↦ absurd (find_content_length-Spares double_free b n m hs f)
        | inr (k, found, short) ↦ record {
          headers = hs;
          left = left;
          freed = line;
          announced = k;
          reads_headers = q;
          announces = found;
          no_body = read_body-double_free malloc first hs left line k short;
        }
      ]

  after_first_line-Behind :
      (malloc : ℕ → Bool) (first : FirstLine) (fp : Stream)
      → after_first_line malloc fp (ok first) ≡ fault double_free
      → Behind malloc first fp
  unfolding after_first_line
  after_first_line-Behind malloc first fp h =
      elim (>>=-eq-fault (read_headers (suc (length fp)) fp []) _ h) [
        | inl f ↦
            absurd (read_headers-Spares double_free b n m (suc (length fp)) fp [] (omega arith) f)
        | inr (l, q, later) ↦ after_headers-Behind malloc first fp l q later
      ]

  after_parse :
      (malloc : ℕ → Bool) (line : Bytes) (fp : Stream) (r : Result FirstLine)
      → parse_http_first_line line ≡ r
      → after_first_line malloc fp r ≡ fault double_free
      → (first : FirstLine) × (parse_http_first_line line ≡ ok first) × Behind malloc first fp
  unfolding after_first_line
  after_parse malloc line fp (ok first) q h = (first, q, after_first_line-Behind malloc first fp h)
  after_parse malloc line fp reject q h = cc (free_ret-double_free Line.live h)
  after_parse malloc line fp (fault d) q h = absurd (
      parse_http_first_line-Spares double_free b n m line
        (q ∙ ap fault (fault-injective (HttpRequest × Stream) h)))

  double_free-LostBody :
      (malloc : ℕ → Bool) (fp : Stream)
      → read_http_request malloc fp ≡ fault double_free
      → LostBody malloc fp
  unfolding read_http_request
  double_free-LostBody malloc fp h = elim (>>=-eq-fault (read_http_line fp) _ h) [
    | inl f ↦ absurd (read_http_line-Spares double_free b n m fp f)
    | inr (lr, q, later) ↦
        let (first, parsed, behind) =
          after_parse malloc lr.0 lr.1 (parse_http_first_line lr.0) refl later in
        record {
          line = lr.0;
          rest = lr.1;
          first = first;
          headers = behind.headers;
          left = behind.left;
          freed = behind.freed;
          announced = behind.announced;
          reads_line = q;
          reads_first = parsed;
          reads_headers = behind.reads_headers;
          announces = behind.announces;
          no_body = behind.no_body;
        }
  ]

read_body-NoBody :
    (malloc : ℕ → Bool) (first : FirstLine) (hs : List StringPair) (fp : Stream) (n : ℕ)
    → NoBody malloc fp n
    → read_body malloc first hs fp Line.dangling n ≡ fault double_free
unfolding read_body free
read_body-NoBody malloc first hs fp n (inl none) = rw none refl
read_body-NoBody malloc first hs fp n (inr h) =
    let short : ltb (length fp) n ≡ true = ground arith in
    elim (Bool-cases (malloc n)) [ inr none ↦ rw none refl | inl given ↦ rw given (rw short refl) ]

LostBody-double_free :
    (malloc : ℕ → Bool) (fp : Stream)
    → LostBody malloc fp
    → read_http_request malloc fp ≡ fault double_free
unfolding read_http_request
LostBody-double_free malloc fp s =
    let freed : s.freed ≡ Line.dangling =
      subst LineInv s.reads_headers (read_headers-LineInv (suc (length s.rest)) s.rest []) in
    rw (s.reads_line, s.reads_first)
      (rw s.reads_headers (
        rw (s.announces, freed)
          (read_body-NoBody malloc s.first s.headers s.left s.announced s.no_body)))

-- `readHttpRequest` frees the block of `line` a second time exactly if the first line and the
-- headers are in order, and either there is no memory for a body of the length that they announce,
-- or the connection delivers fewer bytes of it.
pub read_http_request-double_free_iff :
    (malloc : ℕ → Bool) (fp : Stream)
    → (read_http_request malloc fp ≡ fault double_free) ↔ LostBody malloc fp
read_http_request-double_free_iff malloc fp =
    (double_free-LostBody (λ p. cc) (λ p. cc) (λ p. cc) malloc fp, LostBody-double_free malloc fp)
