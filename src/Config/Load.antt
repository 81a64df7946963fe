-- ===== src/Config/Load.antt =====
-- The start of `main` in src/main.c: a configuration is read from a text.
use chttpd.Prelude.{◌≡◌, ◌≢◌, inl, inr, Bool-cases, if◌then◌else◌, All, List, arith, refl}
use chttpd.Libc.{Bytes, Result, ok, fault, out_of_fuel, ◌>>=◌}
use chttpd.Libc.Ensures.{Ensures, Ensures-bind, Ensures-ok, Ensures-ends}
use chttpd.Error.{Error, is_error, new_error}
use chttpd.Pl2.Parser.Lines.{parse}
use chttpd.Pl2.Printer.{Command, IsCommand, print_commands, numbered}
use chttpd.Pl2.Printer.RoundTrip.{Fits, parse-print}
use chttpd.Dcgi.{Linker}
use chttpd.Config.{Config, init_config}
use chttpd.Config.Invariant.{ConfigOk, IsCmd, init_config-ConfigOk}
use chttpd.Config.Evaluate.{evaluate, evaluate-Ensures}
use chttpd.Config.Parsed.Program.{parse-IsCmd}

-- The first part of `main`, from the text of the configuration file: the configuration and the
-- error that the server starts or stops with.
unfoldable pub load : Linker → Bytes → Result (Config × Error)
unfolding parse evaluate new_error init_config
load linker text = parse text 4096 (new_error 4096) >>= λ (program, error).
    if is_error error then ok (init_config, error) else evaluate linker program init_config error

load-Ensures : (linker : Linker) (text : Bytes) → Ensures (λ r. ConfigOk r.0) (load linker text)
unfolding load
load-Ensures linker text =
    Ensures-bind (λ r. All IsCmd r.0) (λ r. ConfigOk r.0) (parse text 4096 (new_error 4096)) _
      (parse-IsCmd text 4096 (new_error 4096))
      λ r c. elim (Bool-cases (is_error r.1)) [
        | inl e ↦ rw e init_config-ConfigOk
        | inr e ↦ rw e (evaluate-Ensures linker r.0 init_config r.1 init_config-ConfigOk c)
      ]

-- Whatever text the configuration file holds, if it is read and evaluated to its end or to its
-- first error, the configuration is well formed.
pub load-ConfigOk :
    (linker : Linker) (text : Bytes) {config : Config} {error : Error}
    → load linker text ≡ ok (config, error)
    → ConfigOk config
load-ConfigOk linker text e =
    Ensures-ok (λ r. ConfigOk r.0) (load linker text) e (load-Ensures linker text)

-- The reading and the evaluation of a configuration file end on every text.
pub load-ne_out_of_fuel : (linker : Linker) (text : Bytes) → load linker text ≢ fault out_of_fuel
load-ne_out_of_fuel linker text =
    Ensures-ends (λ r. ConfigOk r.0) (load linker text) (load-Ensures linker text)

-- The configuration of a printed text, no command of which has more than 2730 words, is what the
-- evaluation of the commands makes of the initial one.
pub load-print :
    (linker : Linker) (cs : List Command)
    → All IsCommand cs
    → All (Fits 4096) cs
    → load linker (print_commands cs) ≡ evaluate linker (numbered 2 cs) init_config (new_error 4096)
unfolding load new_error is_error
load-print linker cs h fits =
    rw (parse-print cs 4096 (new_error 4096) (omega arith) h fits refl) refl
