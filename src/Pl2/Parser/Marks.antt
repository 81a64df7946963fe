-- ===== src/Pl2/Parser/Marks.antt =====
-- What `?begin` does in pl2/pl2b.c.
use chttpd.Prelude.{ℕ, suc, ◌≡◌, refl, ap, false, ◌∷◌, ◌++◌, ◌+◌, length}
use chttpd.Prelude.Int.{pos}
use chttpd.Libc.{Bytes, ok, ◌>>=◌}
use chttpd.Libc.Text.{codes, bytes_eq}
use chttpd.Error.{Error, is_error, format_error}
use chttpd.Pl2.Parser.{
  ParseContext, ParseMode, isalnum, span, step, next_char, cur_char, skip_blanks,
}
use chttpd.Pl2.Parser.Lines.{
  parse_line, parse_parts, parse_ques_mark, ques_cmd, write_nul, end_line, line_fuel,
}

span_begin :
    (c : ℕ) (rest : Bytes)
    → isalnum c ≡ false
    → span isalnum (codes "begin" ++ c ∷ rest) ≡ (codes "begin", c ∷ rest)
unfolding span
span_begin c rest h = rw h (unfold isalnum in refl)

-- A block that is open where the terminator stands.
parse_parts_unclosed :
    (fuel : ℕ) (ctx : ParseContext) (error : Error) (rest : Bytes)
    → parse_parts (suc fuel) (record ctx { src = 0 ∷ rest; mode = ParseMode.multi_line }) error
      ≡ ok (
        record ctx { src = 0 ∷ rest; mode = ParseMode.multi_line },
        format_error error ctx.source_info (pos 984) (codes "unclosed `?begin` block"),
      )
unfolding parse_parts end_line skip_blanks
parse_parts_unclosed fuel ctx error rest = refl

parse_ques_mark_begin :
    (ctx : ParseContext) (error : Error) (c : ℕ) (rest : Bytes)
    → isalnum c ≡ false
    → parse_ques_mark (record ctx { src = b'?' ∷ (codes "begin" ++ c ∷ rest) }) error
      ≡ ok (record ctx { src = 0 ∷ rest; mode = ParseMode.multi_line }, error)
unfolding parse_ques_mark ques_cmd bytes_eq next_char step write_nul
parse_ques_mark_begin ctx error c rest h =
    ap (λ (p : Bytes × Bytes). ques_cmd (record ctx { src = write_nul p.1 }) p.0 error)
      (span_begin c rest h)

-- With no error before it, `?begin` is refused as an unclosed block, whatever follows it in the text
-- but a letter or a digit.
pub parse_line-begin :
    (ctx : ParseContext) (error : Error) (c : ℕ) (rest : Bytes)
    → isalnum c ≡ false
    → is_error error ≡ false
    → parse_line (record ctx { src = b'?' ∷ (codes "begin" ++ c ∷ rest) }) error
      ≡ ok (
        record ctx { src = 0 ∷ rest; mode = ParseMode.multi_line },
        format_error error ctx.source_info (pos 984) (codes "unclosed `?begin` block"),
      )
unfolding parse_line line_fuel cur_char
parse_line-begin ctx error c rest h clean =
    rw (parse_ques_mark_begin ctx error c rest h, parse_line)
      (rw (clean, ◌>>=◌)
        (parse_parts_unclosed (suc (length rest) + ctx.parse_buffer_size) ctx error rest))
