-- ===== src/Pl2/Tests.antt =====
-- Texts of programs, the commands that are read of them, and their place on the heap.
use chttpd.Prelude.{arith, map, none, List}
use chttpd.Pl2.{Cmd, pl2b_run}
use chttpd.Pl2.Chain.{CmdHeap, Program, init_program, add_cmds, drop_program}
use chttpd.Pl2.Chain.Append.{Chain, commands_of}
use chttpd.Pl2.Chain.Release.{drop_program-add_cmds}
use chttpd.Libc.{isdigit}
use chttpd.Pl2.Parser.{is_id_char, mem, head_char}
use chttpd.Pl2.Printer.{Command, IsCommand}
use chttpd.Prelude.{false}
use chttpd.Error.{format_error}
use chttpd.Pl2.Parser.{ParseContext, ParseMode, isalnum}
use chttpd.Pl2.Parser.Lines.{create_parse_context, parse_line}
use chttpd.Pl2.Parser.Marks.{parse_line-begin}
use chttpd.Prelude.{◌≡◌, refl, true, false, some, [], ◌∷◌, ℕ, ◌==◌}
use chttpd.Prelude.Int.{pos}
use chttpd.Libc.{Bytes, ok, fault, out_of_bounds, null_pointer, until_nul}
use chttpd.Libc.Text.{codes}
use chttpd.Error.{SourceInfo, new_error, is_error}
use chttpd.Pl2.{CmdPart}
use chttpd.Pl2.Parser.Lines.{parse}

abbrev word : Bytes → CmdPart
word s = record { str = some s; is_string = false }

abbrev quoted : Bytes → CmdPart
quoted s = record { str = some s; is_string = true }

abbrev at : ℕ → SourceInfo
at n = record { source_file = some (codes "<unknown-file>"); line = pos n }

-- The line of a command is the next one.
parse_two :
    parse (codes "port 80\n'a\\n' b\n") 64 (new_error 8)
    ≡ ok (
      (record { source_info = at 2; cmd = word (codes "port"); args = word (codes "80") ∷ [] })
          ∷ (record {
            source_info = at 3;
            cmd = quoted (codes "a\n");
            args = word (codes "b") ∷ [];
          })
          ∷ [],
      new_error 8,
    )
unfolding parse is_error new_error until_nul
parse_two = refl

-- A comment takes the newline with it, and the next line becomes a part of the command.
parse_comment :
    parse (codes "a # b\nc\n") 64 (new_error 8)
    ≡ ok (
      (record { source_info = at 3; cmd = word (codes "a"); args = word (codes "c") ∷ [] }) ∷ [],
      new_error 8,
    )
unfolding parse is_error new_error until_nul
parse_comment = refl

-- A string with no characters as a command, one that ends in two backslashes, and a question mark
-- with no word.
parse_faults :
    (parse (codes "\"\"\n") 64 (new_error 8) ≡ fault out_of_bounds)
    × (parse (codes "c \"a\\\\\"\n") 64 (new_error 8) ≡ fault out_of_bounds)
    × (parse (codes "?\n") 64 (new_error 8) ≡ fault null_pointer)
unfolding parse is_error new_error until_nul
parse_faults = (refl, refl, refl)

clean : is_error (new_error 8) ≡ false
unfolding is_error new_error
clean = refl

newline_ends : isalnum b'\n' ≡ false
unfolding isalnum
newline_ends = refl

abbrev begin : ParseContext
begin = create_parse_context (codes "?begin\nport 80\n?end\n") 64

parse_line-begin_example :
    parse_line begin (new_error 8)
    ≡ ok (
      record begin { src = 0 ∷ codes "port 80\n?end\n"; mode = ParseMode.multi_line },
      format_error (new_error 8) (at 1) (pos 984) (codes "unclosed `?begin` block"),
    )
unfolding create_parse_context
parse_line-begin_example =
    parse_line-begin begin (new_error 8) b'\n' (codes "port 80\n?end\n") newline_ends clean

abbrev command : Command
command = record {
  name = record { slice = codes "listen-port"; is_string = false };
  args = record { slice = codes "a \"b\"\n"; is_string = true } ∷ [];
}

pub command-IsCommand : IsCommand command
unfolding is_id_char isalnum isdigit mem head_char
command-IsCommand = ground arith

-- Two commands, allocated at 7 and 4 where 1 is in use.
abbrev port : Cmd
port = record { source_info = at 2; cmd = word (codes "port"); args = word (codes "80") ∷ [] }

abbrev two : List (ℕ × Cmd)
two = (7, port) ∷ (4, record { source_info = at 3; cmd = quoted (codes "a"); args = [] }) ∷ []

abbrev heap : CmdHeap
heap = record { live = λ n. n == 1; prev = λ n. none; next = λ n. some n; cmd_of = λ n. port }

drop_program-add_cmds_example :
    (built : CmdHeap) × (program : Program) × (released : CmdHeap) × (add_cmds heap init_program two
      ≡ ok (built, program))
    × Chain built.next program.commands (7 ∷ 4 ∷ [])
    × (map built.cmd_of (7 ∷ 4 ∷ []) ≡ commands_of two)
    × (drop_program 3 built program ≡ ok (released, 7 ∷ 4 ∷ []))
    × ((k : ℕ) → released.live k ≡ heap.live k)
drop_program-add_cmds_example =
    drop_program-add_cmds 3 heap two (omega arith) (ground arith) (refl, (refl, tt))

-- A program that is run without a language.
run_port : pl2b_run 2 (port ∷ []) (new_error 8) ≡ fault null_pointer
unfolding pl2b_run chttpd.Libc.strcmp_eq
run_port = refl
