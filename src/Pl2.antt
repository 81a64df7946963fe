-- ===== src/Pl2.antt =====
-- include/pl2b.h and the interpreter of pl2/pl2b.c. A pointer to a command is the list of the
-- commands from it on, `NULL` the empty list, and `command->next` the rest of the list.
pub mod Chain
pub mod Parser
pub mod Printer
pub mod Run
mod Tests
use chttpd.Prelude.{
  ℕ, zero, suc, ◌+◌, ◌%◌, ◌^◌, Bool, true, false, not, ◌&&◌, ◌||◌, Option, none, some, List, [],
  ◌∷◌, ◌++◌, ◌==◌, if◌then◌else◌,
}
use chttpd.Prelude.Int.{ℤ, pos}
use chttpd.Libc.{
  Bytes, Result, ok, fault, null_pointer, out_of_bounds, out_of_fuel, ◌>>=◌, cstr, strcmp_eq,
}
use chttpd.Libc.Text.{codes}
use chttpd.Error.{SourceInfo, Error, is_error, format_error}

pub record CmdPart : Type 0 where
  pub str : Option Bytes
  pub is_string : Bool

pub record Cmd : Type 0 where
  pub source_info : SourceInfo
  pub cmd : CmdPart
  -- without the empty part that ends them
  pub args : List CmdPart

abbrev pub Cmds : Type 0
Cmds = List Cmd

-- The loop over the parts up to the empty one, with its 16-bit count.
unfoldable pub parts_len : List CmdPart → ℕ
parts_len [] = 0
parts_len (p ∷ ps) = let n = parts_len ps in elim p.str [ none ↦ 0 | some s ↦ (n + 1) % 2 ^ 16 ]

unfoldable pub args_len : Cmd → ℕ
unfolding parts_len
args_len cmd = parts_len cmd.args

-- `args[i].str`: the part behind the arguments holds `NULL`, and none stands behind that.
unfoldable pub part_str : List CmdPart → ℕ → Result (Option Bytes)
part_str [] zero = ok none
part_str [] (suc i) = fault out_of_bounds
part_str (p ∷ ps) zero = ok p.str
part_str (p ∷ ps) (suc i) = part_str ps i

-- The characters that a string function reads through a pointer.
unfoldable pub deref : Option Bytes → Result Bytes
deref none = fault null_pointer
deref (some s) = ok s

-- `args[i].str` where it is read as a string.
unfoldable pub arg : Cmd → ℕ → Result Bytes
unfolding part_str deref
arg cmd i = part_str cmd.args i >>= deref

-- What a command does with the context `C` of its language: the next command, and the new state.
abbrev pub Stub : Type 0 → Type 0
Stub C = C → Cmd → Cmds → Error → Result (Cmds × C × Error)

pub record PCallCmd (C : Type 0) : Type 0 where
  pub cmd_name : Option Bytes
  pub router_stub : Option (CmdPart → Bool)
  pub stub : Option (Stub C)
  pub deprecated : Bool
  pub removed : Bool

-- The array of commands without the empty entry that ends it.
pub record Language (C : Type 0) : Type 0 where
  pub p_call_cmds : List (PCallCmd C)
  pub fallback : Option (Stub C)

-- The state of a run: `curCmd`, the user's context, the error.
pub record RunContext (C : Type 0) : Type 0 where
  pub cur_cmd : Cmds
  pub user_context : C
  pub error : Error

-- `routerStub != NULL && !routerStub(cmd)`
unfoldable pub router_refuses : Option (CmdPart → Bool) → CmdPart → Bool
router_refuses none part = false
router_refuses (some router) part = not (router part)

-- `PL2B_ERR_NO_LANG`
unfoldable pub no_lang : Error → Cmd → Error
no_lang error cmd =
    format_error error cmd.source_info (pos 989)
      (codes "No need to use language command in PL2BK, languages are pre-loaded.")

-- `PL2B_ERR_UNKNOWN_CMD`. The part is passed whole for the `%s`, and its first field is what is
-- printed of it.
unfoldable pub unknown_cmd : Error → Cmd → Bytes → Error
unknown_cmd error cmd name = format_error error cmd.source_info (pos 990) (
    codes "`"
    ++ name
    ++ codes
        "` is not recognized as an internal or external command, operable program or batch file")

module _ {C : Type 0} where
  unfoldable pub check_next_cmd_ret : RunContext C → Cmds × C × Error → RunContext C × Bool
  check_next_cmd_ret context (next_cmd, user, error) =
      let context' = record context { user_context = user; error = error } in
      if is_error error then (context', false) else elim next_cmd [
        | [] ↦ (context', false)
        | c ∷ cs ↦ (record context' { cur_cmd = c ∷ cs }, true)
      ]

  -- An entry that fits: a stub is called, and an entry without one is passed over.
  unfoldable pub call_stub :
      RunContext C → Cmd → Cmds → Option (Stub C) → Result (RunContext C × Bool)
  unfolding check_next_cmd_ret
  call_stub context cmd next none = ok (record context { cur_cmd = next }, true)
  call_stub context cmd next (some stub) =
      stub context.user_context cmd next context.error >>= λ r. ok (check_next_cmd_ret context r)

  -- Behind the loop over the entries.
  unfoldable pub call_fallback :
      RunContext C → Cmd → Cmds → Bytes → Option (Stub C) → Result (RunContext C × Bool)
  unfolding check_next_cmd_ret unknown_cmd
  call_fallback context cmd next name (some stub) =
      stub context.user_context cmd next context.error >>= λ r. ok (check_next_cmd_ret context r)
  call_fallback context cmd next name none =
      ok (record context { error = unknown_cmd context.error cmd name }, false)

  -- The loop over the entries: the first that is not removed, has the name and passes its router.
  unfoldable pub find_entry :
      RunContext C
      → Cmd
      → Cmds
      → Bytes
      → Option (Stub C)
      → List (PCallCmd C)
      → Result (RunContext C × Bool)
  unfolding router_refuses call_stub call_fallback
  find_entry context cmd next name fallback [] = call_fallback context cmd next name fallback
  find_entry context cmd next name fallback (iter ∷ entries) =
      let others = find_entry context cmd next name fallback entries in
      if iter.removed
      then others
      else (deref iter.cmd_name >>= λ entry. strcmp_eq (cstr name) (cstr entry) >>= λ same.
          if not same
          then others
          else if router_refuses iter.router_stub cmd.cmd
          then others
          else call_stub context cmd next iter.stub)

  -- The context after one command, and whether the loop goes on.
  unfoldable pub cmd_handler : Language C → RunContext C → Cmds → Result (RunContext C × Bool)
  unfolding find_entry deref no_lang
  cmd_handler language context [] = ok (context, false)
  cmd_handler language context (cmd ∷ next) = deref cmd.cmd.str >>= λ name.
      strcmp_eq (cstr name) (cstr (codes "language")) >>= λ is_language.
      if is_language
      then ok (record context { error = no_lang context.error cmd }, false)
      else (strcmp_eq (cstr name) (cstr (codes "abort")) >>= λ is_abort.
          if is_abort
          then ok (context, false)
          else find_entry context cmd next name language.fallback language.p_call_cmds)

  -- The loop's test, and the `break` in its body; `loop` is the next round.
  unfoldable pub go_on :
      (RunContext C → Result (RunContext C)) → RunContext C × Bool → Result (RunContext C)
  go_on loop (context, false) = ok context
  go_on loop (context, true) = if is_error context.error then ok context else loop context

  -- `while (cmdHandler(…)) { if (isError(error)) break; }`, on fuel.
  unfoldable pub run_loop : ℕ → Language C → RunContext C → Result (RunContext C)
  unfolding cmd_handler go_on
  run_loop zero language context = fault out_of_fuel
  run_loop (suc fuel) language context =
      cmd_handler language context context.cur_cmd >>= go_on (run_loop fuel language)

  -- `pl2b_runWithLanguage`: the context and error that it leaves. The allocation of the run's
  -- context is taken to succeed.
  unfoldable pub run_with_language : ℕ → Cmds → Language C → C → Error → Result (C × Error)
  unfolding run_loop
  run_with_language fuel program language user error =
      if is_error error
      then ok (user, error)
      else (run_loop fuel language
            (record { cur_cmd = program; user_context = user; error = error })
          >>= λ context. ok (context.user_context, context.error))

-- `cmdHandler` where the language of the context is `NULL`: the error, and whether the loop goes on.
unfoldable pub handle_bare : Cmds → Error → Result (Error × Bool)
unfolding deref no_lang
handle_bare [] error = ok (error, false)
handle_bare (cmd ∷ next) error = deref cmd.cmd.str >>= λ name.
    strcmp_eq (cstr name) (cstr (codes "language")) >>= λ is_language.
    if is_language
    then ok (no_lang error cmd, false)
    else (strcmp_eq (cstr name) (cstr (codes "abort")) >>= λ is_abort.
        if is_abort then ok (error, false) else fault null_pointer)

-- `pl2b_run`, on fuel: a run without a language, and the error that it leaves.
unfoldable pub pl2b_run : ℕ → Cmds → Error → Result Error
unfolding handle_bare
pl2b_run zero program error = fault out_of_fuel
pl2b_run (suc fuel) program error = handle_bare program error >>= λ (error, more). elim more [
  | false ↦ ok error
  | true ↦ if is_error error then ok error else pl2b_run fuel program error
]
