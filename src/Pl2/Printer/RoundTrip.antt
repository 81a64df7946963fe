-- ===== src/Pl2/Printer/RoundTrip.antt =====
-- `pl2b_parse` of pl2/pl2b.c reads back what is printed.
use mathlib.Core.List.{append-nil, append_assoc}
use chttpd.Prelude.{
  ℕ, zero, suc, ◌+◌, ◌*◌, ◌≤◌, ◌<◌, ◌≡◌, refl, ◌∙◌, Bool, true, false, List, [], ◌∷◌, ◌++◌, ◌==◌,
  arith, All, length, length-append,
}
use chttpd.Libc.{Bytes, ok, ◌>>=◌}
use chttpd.Error.{Error, is_error}
use chttpd.Pl2.{Cmds}
use chttpd.Pl2.Parser.{ParsedPartCache, ParseContext, head_char, cur_char}
use chttpd.Pl2.Parser.Lines.{parse_line, parse_lines, create_parse_context, parse}
use chttpd.Pl2.Printer.{
  print_chars, print_text, print_word, print_args, print_commands, Command, IsCommand, numbered,
}
use chttpd.Pl2.Printer.Line.{context, printed, word-IsStart, parse_line-print}

-- The words of a command fit into the parse buffer of so many places.
abbrev pub Fits : ℕ → Command → Type 0
Fits size c = (1 + length c.args) * 24 ≤ size * 16

commands-head :
    (cs : List Command) → All IsCommand cs → (head_char (print_commands cs) == b'\n') ≡ false
unfolding head_char
commands-head [] h = refl
commands-head (c ∷ cs) h =
    let s = word-IsStart c.name (print_args c.args (print_commands cs)) h.0.0 in
    let inside = s.1 in ground arith

length-print_chars : (s tail : Bytes) → length tail ≤ length (print_chars s tail)
unfolding print_chars
length-print_chars [] tail = omega arith
length-print_chars (c ∷ s) tail = ground (arith, length-print_chars s tail)

length-print_text :
    (is_string : Bool) (s tail : Bytes) → length tail ≤ length (print_text is_string s tail)
length-print_text true s tail = omega (arith, length-print_chars s (34 ∷ tail))
length-print_text false s tail = omega (arith, length-append s tail)

length-print_args :
    (args : List ParsedPartCache) (tail : Bytes) → length tail < length (print_args args tail)
length-print_args [] tail = omega arith
length-print_args (w ∷ args) tail = omega (
  arith,
  length-print_args args tail,
  length-print_text w.is_string w.slice (print_args args tail),
)

length-print_commands : (cs : List Command) → length cs ≤ length (print_commands cs)
length-print_commands [] = omega arith
length-print_commands (c ∷ cs) = omega (
  arith,
  length-print_commands cs,
  length-print_args c.args (print_commands cs),
  length-print_text c.name.is_string c.name.slice (print_args c.args (print_commands cs)),
)

parse_lines-step :
    (fuel : ℕ) (ctx ctx1 : ParseContext) (error : Error)
    → (cur_char ctx == 0) ≡ false
    → parse_line ctx error ≡ ok (ctx1, error)
    → is_error error ≡ false
    → parse_lines (suc fuel) ctx error ≡ parse_lines fuel ctx1 error
unfolding parse_lines
parse_lines-step fuel ctx ctx1 error more reads clean =
    rw (more, parse_lines) (rw (reads, parse_lines) (rw (clean, ◌>>=◌) refl))

parse_lines-print :
    (fuel size line : ℕ) (program : Cmds) (cs : List Command) (error : Error)
    → length cs < fuel
    → All IsCommand cs
    → All (Fits size) cs
    → is_error error ≡ false
    → (last : ℕ) × (parse_lines fuel (context size program line [] (print_commands cs)) error
        ≡ ok (context size (program ++ numbered (line + 1) cs) last [] [], error))
unfolding cur_char
parse_lines-print zero size line program cs error f h fits clean = absurd (omega (arith, f))
parse_lines-print (suc fuel) size line program [] error f h fits clean =
    (line, unfold parse_lines cur_char head_char in rw (append-nil program) refl)
parse_lines-print (suc fuel) size line program (c ∷ cs) error f h fits clean =
    let tail = print_commands cs in
    let start = (word-IsStart c.name (print_args c.args tail) h.0.0).1 in
    let more : (head_char (print_word c.name (print_args c.args tail)) == 0) ≡ false =
      ground arith in
    let reads =
      parse_line-print size program line c tail error h.0 (commands-head cs h.1) clean fits.0 in
    let (last, others) =
      parse_lines-print fuel size (line + 1) (program ++ printed size program line c ∷ []) cs error
        (omega (arith, f)) h.1 fits.1 clean in
    (
      last,
      parse_lines-step fuel _ _ error more reads clean ∙ (others ∙ rw (append_assoc program) refl),
    )

pub parse-print :
    (cs : List Command) (size : ℕ) (error : Error)
    → 0 < size
    → All IsCommand cs
    → All (Fits size) cs
    → is_error error ≡ false
    → parse (print_commands cs) size error ≡ ok (numbered 2 cs, error)
unfolding parse create_parse_context
parse-print cs size error positive h fits clean =
    let some_place : (size == 0) ≡ false = ground arith in
    let (last, reads) =
      parse_lines-print (suc (length (print_commands cs))) size 1 [] cs error
        (omega (arith, length-print_commands cs)) h fits clean in
    rw some_place (rw reads refl)
