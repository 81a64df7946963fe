-- ===== src/Http/Lines/Laws.antt =====
-- Lines: what they are read as, and that reading stays inside them.
use chttpd.Prelude.{◌<◌, ◌≡◌, refl, ap, true, false, [], ◌∷◌, ◌++◌, arith, length, length-append}
use chttpd.Libc.{Bytes, ok, cstr, IsCStr, isspace}
use chttpd.Libc.Strings.{Without, strchr-some, until_nul-id}
use chttpd.Util.{StringPair}
use chttpd.Http.Lines.{
  Stream, getdelim, ends_crlf, read_http_line, skip_whitespace, until_cr, parse_http_header_line,
}

-- What `getdelim` takes and leaves is what there was.
pub getdelim-splits : (fp : Stream) → fp ≡ (getdelim fp).0 ++ (getdelim fp).1
unfolding getdelim
getdelim-splits [] = refl
getdelim-splits (c ∷ fp) = ground (arith, getdelim-splits fp)

getdelim-crlf :
    (s : Bytes) (fp : Stream)
    → Without b'\n' s
    → getdelim (s ++ b'\r' ∷ b'\n' ∷ fp) ≡ (s ++ b'\r' ∷ b'\n' ∷ [], fp)
unfolding getdelim
getdelim-crlf [] fp h = refl
getdelim-crlf (c ∷ s) fp h = ground (arith, getdelim-crlf s fp h.1)

ends_crlf-append : (s : Bytes) → ends_crlf (s ++ b'\r' ∷ b'\n' ∷ []) ≡ true
unfolding ends_crlf
ends_crlf-append [] = ground arith
ends_crlf-append (c ∷ []) = ground arith
ends_crlf-append (c ∷ d ∷ []) = ground arith
ends_crlf-append (c ∷ d ∷ e ∷ s) = ends_crlf-append (d ∷ e ∷ s)

-- A line that ends in `\r\n`, and has no newline before, is read whole.
pub read_http_line-crlf :
    (s : Bytes) (fp : Stream)
    → Without b'\n' s
    → read_http_line (s ++ b'\r' ∷ b'\n' ∷ fp) ≡ ok (cstr (s ++ b'\r' ∷ b'\n' ∷ []), fp)
unfolding read_http_line
read_http_line-crlf s fp h =
    rw (getdelim-crlf s fp h, ends_crlf-append s)
      (ground (arith, length-append s (b'\r' ∷ b'\n' ∷ [])))

-- The length of the rest, after a line was read.
pub length-read_http_line :
    (fp : Stream) {line : Bytes} {rest : Stream}
    → read_http_line fp ≡ ok (line, rest)
    → length rest < length fp
unfolding read_http_line
length-read_http_line fp h =
    let b = getdelim fp in
    ground (arith, ap (length {0}) (getdelim-splits fp), length-append b.0 b.1)

-- What the value of a header begins with, if it begins with anything.
abbrev pub IsTrimmed : Bytes → Type 0
IsTrimmed [] = Unit
IsTrimmed (c ∷ s) = isspace c ≡ false

skip_whitespace-id :
    (s m : Bytes) → IsTrimmed s → skip_whitespace (s ++ b'\r' ∷ m) ≡ ok (s ++ b'\r' ∷ m)
unfolding skip_whitespace isspace
skip_whitespace-id [] m h = refl
skip_whitespace-id (c ∷ s) m h = rw h

pub skip_one : (m : Bytes) → skip_whitespace (b' ' ∷ m) ≡ skip_whitespace m
unfolding skip_whitespace isspace
skip_one m = refl

pub until_cr-append : (s m : Bytes) → Without b'\r' s → until_cr (s ++ b'\r' ∷ m) ≡ ok s
unfolding until_cr
until_cr-append [] m h = refl
until_cr-append (c ∷ s) m h = ground (arith, until_cr-append s m h.1)

-- A header that a line can say.
pub record IsHeader (p : StringPair) : Type 0 where
  pub name_cstr : IsCStr p.first
  pub name_plain : Without b':' p.first
  pub value_cstr : IsCStr p.second
  pub value_plain : Without b'\r' p.second
  pub value_trimmed : IsTrimmed p.second

-- `Name: value` is read back by `parseHttpHeaderLine` as it was written, where the name has no colon,
-- the value no carriage return and no space at its front, and neither a terminator.
pub parse_http_header_line-print :
    (p : StringPair) (m : Bytes)
    → IsHeader p
    → parse_http_header_line (p.first ++ b':' ∷ b' ' ∷ (p.second ++ b'\r' ∷ m)) ≡ ok p
unfolding parse_http_header_line
parse_http_header_line-print p m h =
    rw (strchr-some p.first b':' (b' ' ∷ (p.second ++ b'\r' ∷ m)) h.name_plain h.name_cstr) (
      rw (
        skip_one (p.second ++ b'\r' ∷ m),
        skip_whitespace-id p.second m h.value_trimmed,
        until_cr-append p.second m h.value_plain,
        until_nul-id p.first h.name_cstr,
        until_nul-id p.second h.value_cstr,
      ))
