-- ===== src/Pl2/Printer.antt =====
-- Texts that `pl2b_parse` of pl2/pl2b.c reads: a printer of commands, each on a line of its own, its
-- words behind one another with a space between them. Each function prints in front of a tail.
pub mod Line
pub mod RoundTrip
pub mod Words
use chttpd.Prelude.{
  ℕ, ◌+◌, ◌≡◌, ◌≢◌, Bool, true, false, some, List, [], ◌∷◌, ◌++◌, ◌==◌, if◌then◌else◌, All, map,
}
use chttpd.Prelude.Int.{ℤ, pos}
use chttpd.Libc.{Bytes}
use chttpd.Libc.Text.{codes}
use chttpd.Pl2.{Cmd, Cmds}
use chttpd.Pl2.Parser.{ParsedPartCache, is_id_char, head_char}
use chttpd.Pl2.Parser.Lines.{cmd_part}

-- The inside of a string literal.
unfoldable pub print_chars : Bytes → Bytes → Bytes
print_chars [] tail = tail
print_chars (c ∷ s) tail =
    let rest = print_chars s tail in
    if c == 34 then b'\\' ∷ 34 ∷ rest else if c == b'\n' then b'\\' ∷ b'n' ∷ rest else c ∷ rest

abbrev pub print_text : Bool → Bytes → Bytes → Bytes
print_text true s tail = 34 ∷ print_chars s (34 ∷ tail)
print_text false s tail = s ++ tail

-- A word, as the parser keeps it: its characters, and whether it is a string.
abbrev pub print_word : ParsedPartCache → Bytes → Bytes
print_word w tail = print_text w.is_string w.slice tail

abbrev pub print_args : List ParsedPartCache → Bytes → Bytes
print_args [] tail = b'\n' ∷ tail
print_args (w ∷ ws) tail = b' ' ∷ print_word w (print_args ws tail)

-- The words of a command, the first of which names it.
pub record Command : Type 0 where
  pub name : ParsedPartCache
  pub args : List ParsedPartCache

abbrev pub print_commands : List Command → Bytes
print_commands [] = []
print_commands (c ∷ cs) = print_word c.name (print_args c.args (print_commands cs))

-- What can be printed: a string without terminators, backslashes and apostrophes; a name of
-- characters that names have, which does not begin with an apostrophe. Neither is empty.
abbrev pub IsText : Bool → Bytes → Type 0
IsText true s = All (λ c. (c ≢ 0) × (c ≢ 39) × (c ≢ b'\\')) s
IsText false s = All (λ c. is_id_char c ≡ true) s × (head_char s ≢ 39)

abbrev pub IsWord : ParsedPartCache → Type 0
IsWord w = (w.slice ≢ []) × IsText w.is_string w.slice

-- The command does not begin with a question mark.
abbrev pub IsCommand : Command → Type 0
IsCommand c = IsWord c.name × All IsWord c.args × (head_char (print_word c.name []) ≢ b'?')

-- The commands of a text. Each has the number of the line behind its own; `line` is the first.
abbrev pub numbered : ℕ → List Command → Cmds
numbered line [] = []
numbered line (c ∷ cs) =
    record {
      source_info = record { source_file = some (codes "<unknown-file>"); line = pos line };
      cmd = cmd_part c.name;
      args = map cmd_part c.args;
    }
    ∷ numbered (line + 1) cs
