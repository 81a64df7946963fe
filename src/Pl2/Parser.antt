-- ===== src/Pl2/Parser.antt =====
-- `pl2b_parse` of pl2/pl2b.c. The source is the list of the characters from the cursor to the
-- terminator, and a slice is the list of its characters. The terminators that the parser writes
-- behind its slices stand before the cursor, or in the place of it after a question mark, where
-- the model writes them too. The allocations are taken to succeed.
pub mod Bounds
pub mod Lines
pub mod Marks
use chttpd.Prelude.{
  ℕ, zero, suc, ◌+◌, ◌*◌, Bool, true, false, not, ◌&&◌, ◌||◌, none, some, List, [], ◌∷◌, ◌++◌, ltb,
  leb, ◌==◌, if◌then◌else◌, length,
}
use chttpd.Prelude.Int.{ℤ, pos, negsuc}
use chttpd.Libc.{
  Bytes, Result, ok, fault, null_pointer, out_of_bounds, out_of_fuel, ◌>>=◌, isdigit, until_nul,
}
use chttpd.Libc.Text.{codes, bytes_eq}
use chttpd.Error.{SourceInfo, Error, is_error, format_error}
use chttpd.Pl2.{CmdPart, Cmd, Cmds}

pub data ParseMode : Type 0 where
  single_line multi_line : ParseMode

-- A slice with no characters is the null slice.
pub record ParsedPartCache : Type 0 where
  pub slice : Bytes
  pub is_string : Bool

-- The commands in order, the last of which is `listTail`; the parts in use of the parse buffer.
pub record ParseContext : Type 0 where
  pub program : Cmds
  pub src : Bytes
  pub mode : ParseMode
  pub source_info : SourceInfo
  pub parse_buffer_size : ℕ
  pub parse_buffer : List ParsedPartCache

abbrev pub add_line : ℤ → ℤ
add_line (pos n) = pos (n + 1)
add_line (negsuc zero) = pos 0
add_line (negsuc (suc n)) = negsuc n

-- What `nextChar` does to the source and the line.
unfoldable pub step : Bytes → ℤ → Bytes × ℤ
step [] line = ([], line)
step (c ∷ src) line =
    if c == 0 then (c ∷ src, line) else if c == b'\n' then (src, add_line line) else (src, line)

unfoldable pub next_char : ParseContext → ParseContext
unfolding step
next_char ctx =
    let (src, line) = step ctx.src ctx.source_info.line in
    record ctx { src = src; source_info = record ctx.source_info { line = line } }

unfoldable pub head_char : Bytes → ℕ
head_char [] = 0
head_char (c ∷ src) = c

unfoldable pub cur_char : ParseContext → ℕ
unfolding head_char
cur_char ctx = head_char ctx.src

unfoldable pub isalnum : ℕ → Bool
unfolding isdigit
isalnum c = isdigit c || leb b'A' c && leb c b'Z' || leb b'a' c && leb c b'z'

unfoldable pub mem : ℕ → Bytes → Bool
mem c [] = false
mem c (d ∷ s) = c == d || mem c s

unfoldable pub is_id_char : ℕ → Bool
unfolding isalnum mem
is_id_char c = leb 128 c || isalnum c || mem c (codes "!$%^&*()-+_=[]{}|\\:;',<>/?~@.")

unfoldable pub is_line_end : ℕ → Bool
is_line_end c = c == 0 || c == b'\n'

-- `while (test(curChar(ctx))) nextChar(ctx);` where no newline passes the test: the characters
-- passed over, and the source from there.
unfoldable pub span : (ℕ → Bool) → Bytes → Bytes × Bytes
span test [] = ([], [])
span test (c ∷ src) =
    let (passed, rest) = span test src in
    if test c && not (c == 0) then (c ∷ passed, rest) else ([], c ∷ src)

unfoldable pub is_blank : ℕ → Bool
is_blank c = c == b' ' || c == b'\t' || c == 12 || c == 11 || c == b'\r'

unfoldable pub skip_blanks : ParseContext → ParseContext
unfolding span is_blank
skip_blanks ctx = record ctx { src = (span is_blank ctx.src).1 }

-- The newline that ends the comment is passed over too.
unfoldable pub skip_comment : ParseContext → ParseContext
unfolding span is_line_end next_char cur_char
skip_comment ctx =
    let ctx1 = record ctx { src = (span (λ c. not (is_line_end c)) ctx.src).1 } in
    if cur_char ctx1 == b'\n' then next_char ctx1 else ctx1

-- The character that an escape stands for.
unfoldable pub escape : ℕ → Bytes
escape c =
    if c == b'n'
    then b'\n' ∷ []
    else if c == b'r'
    then b'\r' ∷ []
    else if c == b'f'
    then 12 ∷ []
    else if c == b'v'
    then 11 ∷ []
    else if c == b't'
    then b'\t' ∷ []
    else if c == b'a'
    then 7 ∷ []
    else if c == 34
    then 34 ∷ []
    else if c == b'0'
    then 0 ∷ []
    else []

-- The loop of `shrinkConv` on the characters before `end`; `behind` is the character at `end`. A
-- backslash that stands last makes an escape with it, if it is one: then the cursor steps over
-- `end`, and no test stops it.
unfoldable pub shrink_conv : ℕ → Bytes → Result Bytes
unfolding escape
shrink_conv behind [] = ok []
shrink_conv behind (c ∷ []) = elim (c == b'\\') [
  | true ↦ elim (escape behind) [ [] ↦ ok (c ∷ []) | e ∷ _ ↦ fault out_of_bounds ]
  | false ↦ ok (c ∷ [])
]
shrink_conv behind (c ∷ d ∷ s) = elim (c == b'\\') [
  | true ↦ elim (escape d) [
    | [] ↦ shrink_conv behind (d ∷ s) >>= λ r. ok (c ∷ r)
    | e ∷ _ ↦ shrink_conv behind s >>= λ r. ok (e ∷ r)
  ]
  | false ↦ shrink_conv behind (d ∷ s) >>= λ r. ok (c ∷ r)
]

unfoldable pub ends_str : ℕ → Bool
unfolding is_line_end
ends_str c = c == 34 || c == 39 || is_line_end c

-- The loop of `parseStr`: the characters passed over, the source from there and the line.
unfoldable pub str_chars : Bytes → ℤ → Bytes × Bytes × ℤ
unfolding ends_str step
str_chars [] line = ([], [], line)
str_chars (c ∷ []) line = elim (ends_str c) [
  | true ↦ ([], c ∷ [], line)
  | false ↦ (c ∷ [], [], line)
]
str_chars (c ∷ d ∷ s) line = elim (ends_str c) [
  | true ↦ ([], c ∷ d ∷ s, line)
  | false ↦ elim (c == b'\\' && not (d == 0)) [
    | true ↦
        let (raw, rest, line') = str_chars s (if d == b'\n' then add_line line else line) in
        (c ∷ d ∷ raw, rest, line')
    | false ↦ let (raw, rest, line') = str_chars (d ∷ s) line in (c ∷ raw, rest, line')
  ]
]

-- The slice and the error; where the string is not closed, the null slice.
unfoldable pub parse_str : ParseContext → Error → Result (Bytes × ParseContext × Error)
unfolding next_char str_chars shrink_conv cur_char
parse_str ctx error =
    let ctx1 = next_char ctx in
    let (raw, rest, line) = str_chars ctx1.src ctx1.source_info.line in
    let ctx2 = record ctx1 { src = rest; source_info = record ctx1.source_info { line = line } } in
    shrink_conv (cur_char ctx2) raw >>= λ slice.
    if cur_char ctx2 == 34 || cur_char ctx2 == 39
    then ok (slice, next_char ctx2, error)
    else ok
        ([], ctx2, format_error error ctx2.source_info (pos 984) (codes "unclosed string literal"))

unfoldable pub parse_id : ParseContext → Bytes × ParseContext
unfolding span is_id_char
parse_id ctx = let (passed, rest) = span is_id_char ctx.src in (passed, record ctx { src = rest })
