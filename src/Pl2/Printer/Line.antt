-- ===== src/Pl2/Printer/Line.antt =====
-- `parseLine` of pl2/pl2b.c on a printed command.
use chttpd.Prelude.{
  ℕ, zero, suc, ◌+◌, ◌*◌, ◌≤◌, ◌<◌, ◌≡◌, ◌≢◌, refl, sym, ap, ◌∙◌, Bool, true, false, ◌||◌, some,
  List, [], ◌∷◌, ◌++◌, ◌==◌, arith, All, map, length, length-append,
}
use mathlib.Core.List.{append-nil, append_assoc}
use mathlib.Core.Path.{subst}
use chttpd.Prelude.Int.{pos}
use chttpd.Libc.{Bytes, Result, ok, isdigit, ◌>>=◌}
use chttpd.Libc.Text.{codes}
use chttpd.Error.{SourceInfo, Error, is_error}
use chttpd.Pl2.{Cmd, Cmds}
use chttpd.Pl2.Parser.{
  ParseMode, ParsedPartCache, ParseContext, span, isalnum, mem, is_id_char, head_char, cur_char,
  next_char, step, is_blank, skip_blanks,
}
use chttpd.Pl2.Parser.Lines.{
  parse_part, cmd_part, cmd_parts, cmd_from_slices, finish_line, end_line, parse_parts, line_fuel,
  parse_line,
}
use chttpd.Pl2.Printer.{print_text, print_word, print_args, Command, IsText, IsWord, IsCommand}
use chttpd.Pl2.Printer.Words.{Stops, span-append, is_id_char-plain, parse_part-print}

-- The parser on a line, outside a block.
abbrev pub context : ℕ → Cmds → ℕ → List ParsedPartCache → Bytes → ParseContext
context size program line words src = record {
  program = program;
  src = src;
  mode = ParseMode.single_line;
  source_info = record { source_file = some (codes "<unknown-file>"); line = pos line };
  parse_buffer_size = size;
  parse_buffer = words;
}

-- What begins a word is no blank, no end of a line and no comment.
abbrev IsStart : Bytes → Type 0
IsStart s =
    (is_blank (head_char s) ≡ false)
    × ((head_char s == 0 || head_char s == b'\n') ≡ false)
    × ((head_char s == b'#') ≡ false)

text-IsStart :
    (is_string : Bool) (s tail : Bytes)
    → s ≢ []
    → IsText is_string s
    → IsStart (print_text is_string s tail)
unfolding head_char
text-IsStart true s tail n h = (unfold is_blank in refl, refl, refl)
text-IsStart false [] tail n h = absurd (n refl)
text-IsStart false (c ∷ s) tail n h =
    let (p0, p1, p2, p3, p4) = is_id_char-plain c h.0.0 in (p4, ground arith, ground arith)

pub word-IsStart : (w : ParsedPartCache) (tail : Bytes) → IsWord w → IsStart (print_word w tail)
word-IsStart w tail h = text-IsStart w.is_string w.slice tail h.0 h.1

length_slice : (s : Bytes) → s ≢ [] → (length s == 0) ≡ false
length_slice [] h = absurd (h refl)
length_slice (c ∷ s) h = ground arith

text-head :
    (is_string : Bool) (s tail : Bytes)
    → s ≢ []
    → head_char (print_text is_string s tail) ≡ head_char (print_text is_string s [])
unfolding head_char
text-head true s tail n = refl
text-head false [] tail n = absurd (n refl)
text-head false (c ∷ s) tail n = refl

-- A round of the loop that stores a part, and the one that ends the line.
parse_parts-part :
    (fuel : ℕ) (ctx ctx1 ctx2 : ParseContext) (error : Error)
    → skip_blanks ctx ≡ ctx1
    → (cur_char ctx1 == 0 || cur_char ctx1 == b'\n') ≡ false
    → (cur_char ctx1 == b'#') ≡ false
    → parse_part ctx1 error ≡ ok (ctx2, error)
    → is_error error ≡ false
    → parse_parts (suc fuel) ctx error ≡ parse_parts fuel ctx2 error
unfolding parse_parts
parse_parts-part fuel ctx ctx1 ctx2 error skips inside plain stores clean =
    let back = sym skips in
    let inside' = subst (λ c. (cur_char c == 0 || cur_char c == b'\n') ≡ false) back inside in
    let plain' = subst (λ c. (cur_char c == b'#') ≡ false) back plain in
    let stores' = subst (λ c. parse_part c error ≡ ok (ctx2, error)) back stores in
    rw (inside', parse_parts)
      (rw (plain', parse_parts) (rw (stores', parse_parts) (rw (clean, ◌>>=◌) refl)))

module _ (size : ℕ) (program : Cmds) (line : ℕ) where
  -- Blanks, of which there may be none, are passed over.
  skip_blanks-word :
      (words : List ParsedPartCache) (blanks text : Bytes)
      → All (λ c. is_blank c ≡ true) blanks
      → IsStart text
      → skip_blanks (context size program line words (blanks ++ text))
        ≡ context size program line words text
  unfolding skip_blanks
  skip_blanks-word words blanks text b s =
      ap (λ (r : Bytes × Bytes). context size program line words r.1)
        (span-append is_blank blanks text b (unfold is_blank in refl) s.0)

  parse_parts-word :
      (fuel : ℕ) (words : List ParsedPartCache) (w : ParsedPartCache) (blanks tail : Bytes)
      (error : Error)
      → All (λ c. is_blank c ≡ true) blanks
      → IsWord w
      → Stops is_id_char tail
      → is_error error ≡ false
      → (length words + 1) * 24 ≤ size * 16
      → parse_parts (suc fuel) (context size program line words (blanks ++ print_word w tail)) error
        ≡ parse_parts fuel (context size program line (words ++ w ∷ []) tail) error
  unfolding cur_char
  parse_parts-word fuel words w blanks tail error b h t clean room =
      let s = word-IsStart w tail h in
      parse_parts-part fuel _ _ _ error (skip_blanks-word words blanks (print_word w tail) b s) s.1
        s.2 (parse_part-print (context size program line words []) error w tail h t clean room)
        clean

  print_args-Stops :
      (args : List ParsedPartCache) (tail : Bytes) → Stops is_id_char (print_args args tail)
  unfolding head_char is_id_char isalnum isdigit mem
  print_args-Stops [] tail = refl
  print_args-Stops (w ∷ args) tail = refl

  parse_parts-args :
      (fuel : ℕ) (words args : List ParsedPartCache) (tail : Bytes) (error : Error)
      → length args < fuel
      → All IsWord args
      → is_error error ≡ false
      → (length words + length args) * 24 ≤ size * 16
      → parse_parts fuel (context size program line words (print_args args tail)) error ≡ (
          finish_line (context size program line (words ++ args) (b'\n' ∷ tail)) >>= λ ctx.
          ok (end_line ctx error))
  parse_parts-args zero words args tail error f h clean room = absurd (omega (arith, f))
  parse_parts-args (suc fuel) words [] tail error f h clean room =
      unfold parse_parts skip_blanks span is_blank cur_char head_char in
      (rw (append-nil words) refl)
  parse_parts-args (suc fuel) words (w ∷ args) tail error f h clean room =
      parse_parts-word fuel words w (b' ' ∷ []) (print_args args tail) error
        (unfold is_blank in (refl, tt)) h.0 (print_args-Stops args tail) clean (omega (arith, room))
      ∙ (parse_parts-args fuel (words ++ w ∷ []) args tail error (omega (arith, f)) h.1 clean
            (rw length-append (omega (arith, room)))
          ∙ rw (append_assoc words) refl)

  cmd_parts-words : (ws : List ParsedPartCache) → All IsWord ws → cmd_parts ws ≡ map cmd_part ws
  unfolding cmd_parts
  cmd_parts-words [] h = refl
  cmd_parts-words (w ∷ ws) h =
      let full : (length w.slice == 0) ≡ false = length_slice w.slice h.0.0 in
      rw full (ap (◌∷◌ (cmd_part w)) (cmd_parts-words ws h.1))

  abbrev pub printed : Command → Cmd
  printed c = record {
    source_info = record { source_file = some (codes "<unknown-file>"); line = pos (line + 1) };
    cmd = cmd_part c.name;
    args = map cmd_part c.args;
  }

  cmd_from_slices-words :
      (info : SourceInfo) (w : ParsedPartCache) (ws : List ParsedPartCache)
      → IsWord w
      → All IsWord ws
      → cmd_from_slices info (w ∷ ws)
        ≡ ok (record { source_info = info; cmd = cmd_part w; args = map cmd_part ws })
  unfolding cmd_from_slices cmd_parts
  cmd_from_slices-words info w ws h hs =
      let full : (length w.slice == 0) ≡ false = length_slice w.slice h.0 in
      rw (full, cmd_from_slices, cmd_parts) (rw (cmd_parts-words ws hs) refl)

  finish_line-print :
      (c : Command) (tail : Bytes)
      → IsCommand c
      → finish_line (context size program line (c.name ∷ c.args) (b'\n' ∷ tail))
        ≡ ok (context size (program ++ printed c ∷ []) (line + 1) [] tail)
  unfolding finish_line next_char step
  finish_line-print c tail h =
      ap
        (λ (r : Result Cmd).
          r >>= λ cmd. ok (context size (program ++ cmd ∷ []) (line + 1) [] tail))
        (cmd_from_slices-words _ c.name c.args h.0 h.1)

  -- Behind the newline of the command the text ends or does not begin with another.
  parse_parts-print :
      (fuel : ℕ) (c : Command) (tail : Bytes) (error : Error)
      → suc (length c.args) < fuel
      → IsCommand c
      → (head_char tail == b'\n') ≡ false
      → is_error error ≡ false
      → (1 + length c.args) * 24 ≤ size * 16
      → parse_parts fuel
          (context size program line [] (print_word c.name (print_args c.args tail)))
          error
        ≡ ok (context size (program ++ printed c ∷ []) (line + 1) [] tail, error)
  parse_parts-print zero c tail error f h t clean room = absurd (omega (arith, f))
  parse_parts-print (suc fuel) c tail error f h t clean room =
      parse_parts-word fuel [] c.name [] (print_args c.args tail) error tt h.0
        (print_args-Stops c.args tail) clean (omega (arith, room))
      ∙ (parse_parts-args fuel (c.name ∷ []) c.args tail error (omega (arith, f)) h.1 clean room
          ∙ rw (finish_line-print c tail h) (unfold end_line cur_char in rw t refl))

  pub parse_line-print :
      (c : Command) (tail : Bytes) (error : Error)
      → IsCommand c
      → (head_char tail == b'\n') ≡ false
      → is_error error ≡ false
      → (1 + length c.args) * 24 ≤ size * 16
      → parse_line (context size program line [] (print_word c.name (print_args c.args tail))) error
        ≡ ok (context size (program ++ printed c ∷ []) (line + 1) [] tail, error)
  unfolding parse_line line_fuel cur_char
  parse_line-print c tail error h t clean room =
      let text = print_args c.args tail in
      let start = text-head c.name.is_string c.name.slice text h.0.0 in
      let no_mark : head_char (print_word c.name text) ≢ b'?' = λ e. h.2 (sym start ∙ e) in
      let mark : (head_char (print_word c.name text) == b'?') ≡ false = ground arith in
      rw (mark, parse_line)
        (parse_parts-print (suc (length (print_word c.name text) + size)) c tail error
          (omega (arith, room)) h t clean room)
