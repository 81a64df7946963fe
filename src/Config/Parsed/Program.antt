-- ===== src/Config/Parsed/Program.antt =====
-- The loops of the parser of pl2/pl2b.c over parts and lines, up to the whole program.
use chttpd.Prelude.{
  ℕ, zero, suc, ◌≤◌, ◌<◌, ◌≡◌, sym, ap, ◌∙◌, ◌⊎◌, inl, inr, ◌||◌, Bool-cases, [], ◌∷◌, arith, ◌==◌,
  All, length,
}
use mathlib.Core.Path.{subst}
use chttpd.Libc.{Bytes}
use chttpd.Libc.Ensures.{Ensures, Ensures-bind}
use chttpd.Libc.Text.{codes, bytes_eq}
use chttpd.Error.{Error, is_error}
use chttpd.Pl2.Parser.{
  ParseMode, ParseContext, step, next_char, head_char, cur_char, span, is_blank, skip_blanks,
  skip_comment, isalnum,
}
use chttpd.Pl2.Parser.Lines.{
  parse_part, finish_line, ques_cmd, parse_ques_mark, parse_parts, line_fuel, parse_line,
  parse_lines, create_parse_context, parse,
}
use chttpd.Config.Invariant.{IsCmd}
use chttpd.Pl2.Parser.Bounds.{
  length-step, length-span, measure, Parted, parse_part-Parted, skip_comment-Less, step_shorter,
  length-write_nul, next_rounds,
}
use chttpd.Config.Parsed.{Finished, finish_line-Finished, Lined, last_parts-Lined}

parse_parts-Lined :
    (fuel n : ℕ) (ctx : ParseContext) (error : Error)
    → All IsCmd ctx.program
    → length ctx.src ≤ n
    → measure ctx < fuel
    → Ensures (Lined n) (parse_parts fuel ctx error)
unfolding parse_parts skip_blanks cur_char measure
parse_parts-Lined zero n ctx error h l m = absurd (omega arith)
parse_parts-Lined (suc fuel) n ctx error h l m =
    let ctx1 = skip_blanks ctx in
    let short = length-span is_blank ctx.src in
    let c = head_char ctx1.src in
    elim (Bool-cases (c == 0 || c == b'\n')) [
      | inl e ↦ rw (e, parse_parts) (last_parts-Lined n ctx1 error h e (omega (arith, short)))
      | inr e ↦
          rw (e, parse_parts)
            (elim (Bool-cases (c == b'#')) [
              | inl f ↦
                  rw (f, Ensures)
                    (let (p, q, r) = skip_comment-Less ctx1 (ground arith) in
                      parse_parts-Lined fuel n (skip_comment ctx1) error
                        (subst (All IsCmd) (sym p) h) (omega (arith, short)) (omega (arith, short)))
              | inr f ↦
                  rw (f, Ensures)
                    (Ensures-bind (Parted ctx1) (Lined n) (parse_part ctx1 error) _
                      (parse_part-Parted ctx1 error)
                      λ r p. elim (Bool-cases (is_error r.1)) [
                        | inl g ↦
                            rw (g, Ensures)
                              (record {
                                commands = subst (All IsCmd) (sym p.same_program) h;
                                progress = λ k. cc;
                              })
                        | inr g ↦
                            rw (g, Ensures)
                              (parse_parts-Lined fuel n r.0 r.1
                                (subst (All IsCmd) (sym p.same_program) h)
                                (omega (arith, short, p.shorter))
                                (omega (arith, short, p.decreases g)))
                      ])
            ])
    ]

-- What a word behind a question mark leaves.
abbrev Marked : ℕ → ParseContext × Error → Type 0
Marked n r = All IsCmd r.0.program × (length r.0.src < n)

ques_cmd-Marked :
    (n : ℕ) (ctx : ParseContext) (word : Bytes) (error : Error)
    → All IsCmd ctx.program
    → length ctx.src < n
    → Ensures (Marked n) (ques_cmd ctx word error)
unfolding ques_cmd
ques_cmd-Marked n ctx [] error h l = λ p. cc
ques_cmd-Marked n ctx (w ∷ ws) error h l = elim (Bool-cases (bytes_eq (w ∷ ws) (codes "begin"))) [
  | inl e ↦ rw e (h, l)
  | inr e ↦ rw e (elim (Bool-cases (bytes_eq (w ∷ ws) (codes "end"))) [
    | inr f ↦ rw f (h, l)
    | inl f ↦ rw f (
        let single = record ctx { mode = ParseMode.single_line } in
        unfold next_char in
        Ensures-bind (Finished single) (Marked n) (finish_line single) _
          (finish_line-Finished single h)
          (λ c d. (
            d.commands,
            omega (arith, ap (length {0}) d.source, length-step ctx.src ctx.source_info.line),
          )))
  ])
]

parse_ques_mark-Marked :
    (ctx : ParseContext) (error : Error)
    → All IsCmd ctx.program
    → head_char ctx.src ≡ b'?'
    → Ensures (Marked (length ctx.src)) (parse_ques_mark ctx error)
unfolding parse_ques_mark next_char
parse_ques_mark-Marked ctx error h q =
    let s = step ctx.src ctx.source_info.line in
    let first = step_shorter ctx.src ctx.source_info.line (λ z. cc (sym z ∙ q)) in
    ques_cmd-Marked (length ctx.src) _ (span isalnum s.0).0 error h
      (omega (arith, first, length-span isalnum s.0, length-write_nul (span isalnum s.0).1))

parse_line-Lined :
    (ctx : ParseContext) (error : Error)
    → All IsCmd ctx.program
    → Ensures (Lined (length ctx.src)) (parse_line ctx error)
unfolding parse_line cur_char measure line_fuel
parse_line-Lined ctx error h = elim (Bool-cases (head_char ctx.src == b'?')) [
  | inr e ↦
      rw (e, parse_line)
        (parse_parts-Lined (line_fuel ctx) (length ctx.src) ctx error h (omega arith) (omega arith))
  | inl e ↦
      rw (e, parse_line)
        (Ensures-bind (Marked (length ctx.src)) (Lined (length ctx.src)) (parse_ques_mark ctx error)
          _ (parse_ques_mark-Marked ctx error h (ground arith))
          λ r (c, l). elim (Bool-cases (is_error r.1)) [
            | inl f ↦ rw (f, Ensures) (record { commands = c; progress = λ k. cc })
            | inr f ↦
                rw (f, Ensures)
                  (parse_parts-Lined (line_fuel r.0) (length ctx.src) r.0 r.1 c (omega arith)
                    (omega arith))
          ])
]

parse_lines-IsCmd :
    (fuel : ℕ) (ctx : ParseContext) (error : Error)
    → All IsCmd ctx.program
    → (length ctx.src < fuel) ⊎ ((head_char ctx.src ≡ 0) × (0 < fuel))
    → Ensures (λ r. All IsCmd r.0.program) (parse_lines fuel ctx error)
unfolding parse_lines cur_char
parse_lines-IsCmd zero ctx error h p =
    absurd (elim p [ inl l ↦ omega arith | inr z ↦ omega (arith, z.1) ])
parse_lines-IsCmd (suc fuel) ctx error h p = elim (Bool-cases (head_char ctx.src == 0)) [
  | inl e ↦ rw (e, parse_lines) h
  | inr e ↦
      rw (e, parse_lines)
        (Ensures-bind (Lined (length ctx.src)) (λ r. All IsCmd r.0.program) (parse_line ctx error) _
          (parse_line-Lined ctx error h)
          λ r l. elim (Bool-cases (is_error r.1)) [
            | inl f ↦ rw (f, Ensures) l.commands
            | inr f ↦
                rw (f, Ensures)
                  (parse_lines-IsCmd fuel r.0 r.1 l.commands
                    (next_rounds fuel ctx.src r.0.src (ground arith) p (l.progress f)))
          ])
]

pub parse-IsCmd :
    (source : Bytes) (size : ℕ) (error : Error)
    → Ensures (λ r. All IsCmd r.0) (parse source size error)
unfolding parse create_parse_context
parse-IsCmd source size error = elim (Bool-cases (size == 0)) [
  | inl e ↦ rw e tt
  | inr e ↦ rw e (
      Ensures-bind (λ r. All IsCmd r.0.program) (λ r. All IsCmd r.0)
        (parse_lines (suc (length source)) (create_parse_context source size) error) _
        (parse_lines-IsCmd (suc (length source)) (create_parse_context source size) error tt
          (inl (omega arith)))
        (λ r c. c))
]
