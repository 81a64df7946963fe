-- ===== src/Pl2/Parser/Lines.antt =====
-- `parsePart`, `parseLine` and `pl2b_parse` of pl2/pl2b.c: from parts to commands.
use chttpd.Prelude.{
  ℕ, zero, suc, ◌+◌, ◌*◌, Bool, true, false, not, ◌&&◌, ◌||◌, none, some, List, [], ◌∷◌, ◌++◌, ltb,
  leb, ◌==◌, if◌then◌else◌, length,
}
use chttpd.Prelude.Int.{pos, negsuc}
use chttpd.Libc.{
  Bytes, Result, ok, fault, null_pointer, out_of_bounds, out_of_fuel, ◌>>=◌, until_nul,
}
use chttpd.Libc.Text.{codes, bytes_eq}
use chttpd.Error.{SourceInfo, Error, is_error, format_error}
use chttpd.Pl2.{CmdPart, Cmd, Cmds}
use chttpd.Pl2.Parser.{
  ParseMode, ParsedPartCache, ParseContext, next_char, cur_char, isalnum, span, skip_blanks,
  skip_comment, parse_str, parse_id,
}

unfoldable pub check_buffer_size : ParseContext → Error → Error
check_buffer_size ctx error =
    if leb ctx.parse_buffer_size (length ctx.parse_buffer + 1)
    then format_error error ctx.source_info (pos 984)
        (codes "command parts exceed internal parsing buffer")
    else error

-- The store into the parse buffer. A part takes 24 bytes, and the buffer has 16 for each.
unfoldable pub push_part : ParseContext → ParsedPartCache → Result ParseContext
push_part ctx part =
    if ltb (ctx.parse_buffer_size * 16) ((length ctx.parse_buffer + 1) * 24)
    then fault out_of_bounds
    else ok (record ctx { parse_buffer = ctx.parse_buffer ++ part ∷ [] })

-- What follows the parse of a part.
unfoldable pub store_part : ParseContext → ParsedPartCache → Error → Result (ParseContext × Error)
unfolding check_buffer_size push_part
store_part ctx part error =
    if is_error error
    then ok (ctx, error)
    else (let error' = check_buffer_size ctx error in
        if is_error error'
        then ok (ctx, error')
        else push_part ctx part >>= λ ctx'. ok (ctx', error'))

unfoldable pub parse_part : ParseContext → Error → Result (ParseContext × Error)
unfolding cur_char parse_str parse_id store_part
parse_part ctx error =
    let (id, ctx2) = parse_id ctx in
    if cur_char ctx == 34 || cur_char ctx == 39
    then (parse_str ctx error >>= λ (slice, ctx1, error1).
        store_part ctx1 (record { slice = slice; is_string = true }) error1)
    else store_part ctx2 (record { slice = id; is_string = false }) error

-- `sliceIntoCStr`: the string of a slice ends at the first terminator in it.
unfoldable pub cmd_part : ParsedPartCache → CmdPart
cmd_part part = record { str = some (until_nul part.slice); is_string = part.is_string }

-- The parts before the first null slice.
unfoldable pub cmd_parts : List ParsedPartCache → List CmdPart
unfolding cmd_part
cmd_parts [] = []
cmd_parts (part ∷ parts) =
    let rest = cmd_parts parts in if length part.slice == 0 then [] else cmd_part part ∷ rest

-- With no part, `args[-1]` is written.
unfoldable pub cmd_from_slices : SourceInfo → List ParsedPartCache → Result Cmd
unfolding cmd_parts
cmd_from_slices source_info parts = elim (cmd_parts parts) [
  | [] ↦ fault out_of_bounds
  | part ∷ args ↦ ok (record { source_info = source_info; cmd = part; args = args })
]

-- The line of the command is the one behind the newline.
unfoldable pub finish_line : ParseContext → Result ParseContext
unfolding next_char cmd_from_slices
finish_line ctx =
    let ctx1 = next_char ctx in
    elim ctx1.parse_buffer [
      | [] ↦ ok ctx1
      | part ∷ parts ↦ cmd_from_slices ctx1.source_info (part ∷ parts) >>= λ cmd.
          ok (record ctx1 { program = ctx1.program ++ cmd ∷ []; parse_buffer = [] })
    ]

-- The terminator behind the word, in the place of the cursor.
unfoldable pub write_nul : Bytes → Bytes
write_nul [] = []
write_nul (c ∷ src) = 0 ∷ src

-- What the word behind a question mark does; with no word, `strcmp` reads `NULL`.
unfoldable pub ques_cmd : ParseContext → Bytes → Error → Result (ParseContext × Error)
unfolding finish_line
ques_cmd ctx [] error = fault null_pointer
ques_cmd ctx (w ∷ ws) error =
    if bytes_eq (w ∷ ws) (codes "begin")
    then ok (record ctx { mode = ParseMode.multi_line }, error)
    else if bytes_eq (w ∷ ws) (codes "end")
    then (finish_line (record ctx { mode = ParseMode.single_line }) >>= λ ctx1. ok (ctx1, error))
    else ok (
      ctx,
      format_error error ctx.source_info (pos 987)
          (codes "unknown question mark operator: `" ++ (w ∷ ws) ++ codes "`"),
    )

unfoldable pub parse_ques_mark : ParseContext → Error → Result (ParseContext × Error)
unfolding next_char span isalnum write_nul ques_cmd
parse_ques_mark ctx error =
    let ctx1 = next_char ctx in
    let (word, rest) = span isalnum ctx1.src in
    ques_cmd (record ctx1 { src = write_nul rest }) word error

abbrev pub is_single : ParseMode → Bool
is_single ParseMode.single_line = true
is_single ParseMode.multi_line = false

-- The end of a line, on what `finishLine` left.
unfoldable pub end_line : ParseContext → Error → ParseContext × Error
unfolding cur_char next_char
end_line ctx error =
    let unclosed = not (is_single ctx.mode) && cur_char ctx == 0 in
    let error' =
      if unclosed
      then format_error error ctx.source_info (pos 984) (codes "unclosed `?begin` block")
      else error in
    if cur_char ctx == b'\n' then (next_char ctx, error') else (ctx, error')

-- The loop of `parseLine`, on fuel.
unfoldable pub parse_parts : ℕ → ParseContext → Error → Result (ParseContext × Error)
unfolding skip_blanks cur_char finish_line end_line skip_comment parse_part
parse_parts zero ctx error = fault out_of_fuel
parse_parts (suc fuel) ctx error =
    let ctx1 = skip_blanks ctx in
    let c = cur_char ctx1 in
    elim (c == 0 || c == b'\n') [
      | true ↦ (if is_single ctx1.mode then finish_line ctx1 else ok ctx1) >>= λ ctx2.
          ok (end_line ctx2 error)
      | false ↦ elim (c == b'#') [
        | true ↦ parse_parts fuel (skip_comment ctx1) error
        | false ↦ parse_part ctx1 error >>= λ (ctx2, error'). elim (is_error error') [
          | true ↦ ok (ctx2, error')
          | false ↦ parse_parts fuel ctx2 error'
        ]
      ]
    ]

-- As many rounds as there are characters and places in the parse buffer, and one more.
unfoldable pub line_fuel : ParseContext → ℕ
line_fuel ctx = suc (length ctx.src + ctx.parse_buffer_size)

unfoldable pub parse_line : ParseContext → Error → Result (ParseContext × Error)
unfolding cur_char parse_ques_mark parse_parts line_fuel
parse_line ctx error = elim (cur_char ctx == b'?') [
  | true ↦ parse_ques_mark ctx error >>= λ (ctx1, error'). elim (is_error error') [
    | true ↦ ok (ctx1, error')
    | false ↦ parse_parts (line_fuel ctx1) ctx1 error'
  ]
  | false ↦ parse_parts (line_fuel ctx) ctx error
]

-- The loop of `pl2b_parse`, on fuel.
unfoldable pub parse_lines : ℕ → ParseContext → Error → Result (ParseContext × Error)
unfolding cur_char parse_line
parse_lines zero ctx error = fault out_of_fuel
parse_lines (suc fuel) ctx error = elim (cur_char ctx == 0) [
  | true ↦ ok (ctx, error)
  | false ↦ parse_line ctx error >>= λ (ctx1, error'). elim (is_error error') [
    | true ↦ ok (ctx1, error')
    | false ↦ parse_lines fuel ctx1 error'
  ]
]

unfoldable pub create_parse_context : Bytes → ℕ → ParseContext
create_parse_context src parse_buffer_size = record {
  program = [];
  src = src;
  mode = ParseMode.single_line;
  source_info = record { source_file = some (codes "<unknown-file>"); line = pos 1 };
  parse_buffer_size = parse_buffer_size;
  parse_buffer = [];
}

-- A buffer of size 0 is refused.
unfoldable pub parse : Bytes → ℕ → Error → Result (Cmds × Error)
unfolding create_parse_context parse_lines
parse source parse_buffer_size error =
    if parse_buffer_size == 0
    then ok (
      [],
      format_error error (record { source_file = none; line = negsuc 0 }) (pos 991)
          (codes "allocation failure"),
    )
    else (parse_lines (suc (length source)) (create_parse_context source parse_buffer_size) error
        >>= λ (ctx, error'). ok (ctx.program, error'))
