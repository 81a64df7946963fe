-- ===== src/Config/Parsed.antt =====
-- The commands that the parser of pl2/pl2b.c reads: their strings are terminated, and the parser ends.
pub mod Program
use chttpd.Prelude.{
  ℕ, zero, suc, ◌≤◌, ◌<◌, ◌≡◌, ◌≢◌, refl, sym, ap, ◌∙◌, ◌⊎◌, inl, inr, true, false, ◌||◌,
  Bool-cases, List, [], ◌∷◌, ◌++◌, arith, ◌==◌, if◌then◌else◌, All, All-append, length,
}
use mathlib.Core.Path.{subst}
use chttpd.Prelude.Int.{ℤ}
use chttpd.Libc.{Bytes, ok, fault, out_of_bounds, ◌>>=◌}
use chttpd.Libc.Ensures.{Ensures, Ensures-bind}
use chttpd.Libc.Strings.{until_nul-IsCStr}
use chttpd.Libc.Text.{codes, bytes_eq}
use chttpd.Error.{Error, SourceInfo, is_error}
use chttpd.Pl2.{CmdPart}
use chttpd.Pl2.Parser.{
  ParseMode, ParsedPartCache, ParseContext, step, next_char, head_char, cur_char, span, is_blank,
  skip_blanks, skip_comment, isalnum,
}
use chttpd.Pl2.Parser.Lines.{
  parse_part, cmd_part, cmd_parts, cmd_from_slices, finish_line, ques_cmd, parse_ques_mark,
  is_single, end_line, parse_parts, line_fuel, parse_line, parse_lines, create_parse_context, parse,
}
use chttpd.Config.Invariant.{IsCmd, OptionCStr}
use chttpd.Pl2.Parser.Bounds.{
  length-step, length-span, measure, Parted, parse_part-Parted, length_next-newline, step_end,
  skip_comment-Less, step_shorter, length-write_nul, next_rounds,
}

pub cmd_parts-IsCStr :
    (parts : List ParsedPartCache) → All (λ (p : CmdPart). OptionCStr p.str) (cmd_parts parts)
unfolding cmd_parts cmd_part
cmd_parts-IsCStr [] = tt
cmd_parts-IsCStr (part ∷ parts) = elim (Bool-cases (length part.slice == 0)) [
  | inl e ↦ rw e tt
  | inr e ↦ rw e (until_nul-IsCStr part.slice, cmd_parts-IsCStr parts)
]

pub cmd_from_slices-IsCmd :
    (s : SourceInfo) (parts : List ParsedPartCache) → Ensures IsCmd (cmd_from_slices s parts)
unfolding cmd_from_slices
cmd_from_slices-IsCmd s parts = go (cmd_parts parts) (cmd_parts-IsCStr parts)
  where
    go :
        (ps : List CmdPart)
        → All (λ (p : CmdPart). OptionCStr p.str) ps
        → Ensures IsCmd (elim ps [
          | [] ↦ fault out_of_bounds
          | part ∷ args ↦ ok (record { source_info = s; cmd = part; args = args })
        ])
    go [] h = λ p. cc
    go (p ∷ ps) h = h

-- What `finishLine` leaves: commands in order, and the source that `nextChar` leaves.
pub record Finished (ctx ctx' : ParseContext) : Type 0 where
  pub commands : All IsCmd ctx'.program
  pub source : ctx'.src ≡ (next_char ctx).src

pub finish_line-Finished :
    (ctx : ParseContext) → All IsCmd ctx.program → Ensures (Finished ctx) (finish_line ctx)
unfolding finish_line next_char
finish_line-Finished ctx h = go ctx.parse_buffer
  where
    go :
        (b : List ParsedPartCache)
        → Ensures (Finished ctx) (elim b [
          | [] ↦ ok (next_char ctx)
          | part ∷ parts ↦ cmd_from_slices (next_char ctx).source_info (part ∷ parts) >>= λ cmd.
              ok (record (next_char ctx) { program = ctx.program ++ cmd ∷ []; parse_buffer = [] })
        ])
    go [] = record { commands = h; source = refl }
    go (part ∷ parts) =
        Ensures-bind IsCmd (Finished ctx)
          (cmd_from_slices (next_char ctx).source_info (part ∷ parts)) _
          (cmd_from_slices-IsCmd (next_char ctx).source_info (part ∷ parts))
          (λ cmd c. record {
            commands = All-append IsCmd ctx.program (cmd ∷ []) h (c, tt);
            source = refl;
          })

-- What a line leaves: commands in order, and a shorter source or its end, unless there is an error.
pub record Lined (n : ℕ) (r : ParseContext × Error) : Type 0 where
  pub commands : All IsCmd r.0.program
  pub progress : is_error r.1 ≡ false → (length r.0.src < n) ⊎ (cur_char r.0 ≡ 0)

-- Where the end of a line is met: behind what was read, at the terminator, or at a newline.
abbrev pub AtEnd : ℕ → Bytes → Type 0
AtEnd n s = (length s < n) ⊎ ((head_char s ≡ 0) ⊎ ((head_char s ≡ b'\n') × (length s ≤ n)))

AtEnd-newline : (n : ℕ) (s : Bytes) → AtEnd n s → head_char s ≡ b'\n' → length s ≤ n
AtEnd-newline n s (inl l) e = omega arith
AtEnd-newline n s (inr (inl z)) e = omega arith
AtEnd-newline n s (inr (inr (q, l))) e = l

AtEnd-other :
    (n : ℕ) (s : Bytes) → AtEnd n s → head_char s ≢ b'\n' → (length s < n) ⊎ (head_char s ≡ 0)
AtEnd-other n s (inl l) e = inl l
AtEnd-other n s (inr (inl z)) e = inr z
AtEnd-other n s (inr (inr (q, l))) e = absurd (e q)

pub end_line-Lined :
    (n : ℕ) (ctx : ParseContext) (error : Error)
    → All IsCmd ctx.program
    → AtEnd n ctx.src
    → Lined n (end_line ctx error)
unfolding end_line next_char cur_char
end_line-Lined n ctx error h p = elim (Bool-cases (head_char ctx.src == b'\n')) [
  | inl e ↦
      rw (e, end_line)
        (record {
          commands = h;
          progress = λ f.
              let here : head_char ctx.src ≡ b'\n' = ground arith in
              inl (
                omega (
                  arith,
                  AtEnd-newline n ctx.src p here,
                  length_next-newline ctx.src ctx.source_info.line here,
                ));
        })
  | inr e ↦
      rw (e, end_line)
        (record { commands = h; progress = λ f. AtEnd-other n ctx.src p (ground arith) })
]

Lined-weaken : (m n : ℕ) (r : ParseContext × Error) → m ≤ n → Lined m r → Lined n r
Lined-weaken m n r le l = record {
  commands = l.commands;
  progress = λ f. elim (l.progress f) [ inl p ↦ inl (omega arith) | inr q ↦ inr q ];
}

-- The end of a line, at a newline or at the terminator.
pub finish-AtEnd :
    (n : ℕ) (s : Bytes) (line : ℤ)
    → (head_char s == 0 || head_char s == b'\n') ≡ true
    → length s ≤ n
    → AtEnd n (step s line).0
finish-AtEnd n s line e l = elim (Bool-cases (head_char s == 0)) [
  | inl z ↦ inr (inl (ap head_char (step_end s line (ground arith)) ∙ ground arith))
  | inr z ↦ inl (omega (arith, length_next-newline s line (ground arith)))
]

pub start-AtEnd :
    (n : ℕ) (s : Bytes)
    → (head_char s == 0 || head_char s == b'\n') ≡ true
    → length s ≤ n
    → AtEnd n s
start-AtEnd n s e l = elim (Bool-cases (head_char s == 0)) [
  | inl z ↦ inr (inl (ground arith))
  | inr z ↦ inr (inr (ground arith, l))
]

pub last_parts-Lined :
    (n : ℕ) (ctx : ParseContext) (error : Error)
    → All IsCmd ctx.program
    → (head_char ctx.src == 0 || head_char ctx.src == b'\n') ≡ true
    → length ctx.src ≤ n
    → Ensures
        (Lined n)
        ((if is_single ctx.mode then finish_line ctx else ok ctx) >>= λ c. ok (end_line c error))
unfolding next_char
last_parts-Lined n ctx error h e l = elim (Bool-cases (is_single ctx.mode)) [
  | inl s ↦ rw s (
      Ensures-bind (Finished ctx) (Lined n) (finish_line ctx) (λ c. ok (end_line c error))
        (finish_line-Finished ctx h)
        (λ c f.
          end_line-Lined n c error f.commands
            (subst (AtEnd n) (sym f.source) (finish-AtEnd n ctx.src ctx.source_info.line e l))))
  | inr s ↦ rw s (end_line-Lined n ctx error h (start-AtEnd n ctx.src e l))
]
