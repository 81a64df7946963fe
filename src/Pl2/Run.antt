-- ===== src/Pl2/Run.antt =====
-- Runs of a language whose commands lead to the command behind them, or to none: they end, and
-- they keep what each command keeps.
use chttpd.Prelude.{
  ℕ, zero, suc, ◌<◌, ◌≡◌, ◌≢◌, refl, sym, ◌⊎◌, inl, inr, Bool, true, false, Option, none, some,
  List, [], ◌∷◌, arith, Bool-cases, All, length,
}
use mathlib.Core.Path.{subst}
use chttpd.Libc.{Bytes, Result, ok, fault, out_of_fuel, ◌>>=◌, cstr, strcmp_eq}
use chttpd.Libc.Ensures.{Ensures, Ensures-bind, Ensures-step, strcmp_eq-ends}
use chttpd.Libc.Text.{codes}
use chttpd.Error.{Error, is_error}
use chttpd.Pl2.{
  Cmd, Cmds, deref, Stub, PCallCmd, Language, RunContext, check_next_cmd_ret, router_refuses,
  call_stub, find_entry, cmd_handler, go_on, run_loop, run_with_language,
}

pub deref-ends : (p : Option Bytes) → deref p ≢ fault out_of_fuel
unfolding deref
deref-ends none = λ p. cc
deref-ends (some s) = λ p. cc

-- `P` speaks of the context of the language, `Q` of the commands of the program.
module _ {C : Type 0} (P : C → Type 0) (Q : Cmd → Type 0) where
  -- The command keeps `P`, and leads to the next command or to none.
  abbrev pub Keeps : Stub C → Type 0
  Keeps stub =
      (user : C) (cmd : Cmd) (next : Cmds) (error : Error)
      → P user
      → Q cmd
      → Ensures (λ r. P r.1 × ((r.0 ≡ next) ⊎ (r.0 ≡ []))) (stub user cmd next error)

  abbrev pub OptionKeeps : Option (Stub C) → Type 0
  OptionKeeps none = Unit
  OptionKeeps (some stub) = Keeps stub

  -- Where the loop goes on, it does so at the command behind.
  abbrev GoesOn : Cmds → RunContext C × Bool → Type 0
  GoesOn next (context, more) = P context.user_context × (more ≡ true → context.cur_cmd ≡ next)

  check_next_cmd_ret-GoesOn :
      (context : RunContext C) (next cmds : Cmds) (user : C) (error : Error)
      → P user
      → (cmds ≡ next) ⊎ (cmds ≡ [])
      → GoesOn next (check_next_cmd_ret context (cmds, user, error))
  unfolding check_next_cmd_ret
  check_next_cmd_ret-GoesOn context next [] user error p at = elim (Bool-cases (is_error error)) [
    | inl e ↦ rw e (p, λ t. cc)
    | inr e ↦ rw e (p, λ t. cc)
  ]
  check_next_cmd_ret-GoesOn context next (c ∷ cs) user error p at =
      elim (Bool-cases (is_error error)) [
        | inl e ↦ rw e (p, λ t. cc)
        | inr e ↦ rw e (p, λ t. elim at [ inl same ↦ same | inr nil ↦ cc ])
      ]

  call-GoesOn :
      (context : RunContext C) (cmd : Cmd) (next : Cmds) (stub : Stub C)
      → Keeps stub
      → P context.user_context
      → Q cmd
      → Ensures (GoesOn next) (
          stub context.user_context cmd next context.error >>= λ r.
          ok (check_next_cmd_ret context r))
  call-GoesOn context cmd next stub k p q =
      Ensures-bind _ (GoesOn next) (stub context.user_context cmd next context.error) _
        (k context.user_context cmd next context.error p q)
        (λ r h. check_next_cmd_ret-GoesOn context next r.0 r.1 r.2 h.0 h.1)

  find_entry-GoesOn :
      (context : RunContext C) (cmd : Cmd) (next : Cmds) (name : Bytes) (fallback : Option (Stub C))
      (entries : List (PCallCmd C))
      → P context.user_context
      → Q cmd
      → OptionKeeps fallback
      → All (λ e. OptionKeeps e.stub) entries
      → Ensures (GoesOn next) (find_entry context cmd next name fallback entries)
  unfolding find_entry
  find_entry-GoesOn context cmd next name none [] p q f a = (p, λ t. cc)
  find_entry-GoesOn context cmd next name (some stub) [] p q f a =
      call-GoesOn context cmd next stub f p q
  find_entry-GoesOn context cmd next name fallback (iter ∷ entries) p q f a =
      let others = find_entry-GoesOn context cmd next name fallback entries p q f a.1 in
      elim (Bool-cases iter.removed) [
        | inl e ↦ rw e others
        | inr e ↦ rw e (
            Ensures-step (GoesOn next) (deref iter.cmd_name) _ (deref-ends iter.cmd_name) λ entry _.
              Ensures-step (GoesOn next) (strcmp_eq (cstr name) (cstr entry)) _ (strcmp_eq-ends _ _)
                λ same _. elim (Bool-cases same) [
                  | inr other ↦ rw other others
                  | inl it ↦ rw it (elim (Bool-cases (router_refuses iter.router_stub cmd.cmd)) [
                    | inl no_way ↦ rw no_way others
                    | inr way ↦ rw way (at_stub iter.stub a.0)
                  ])
                ])
      ]
    where
      at_stub :
          (s : Option (Stub C))
          → OptionKeeps s
          → Ensures (GoesOn next) (call_stub context cmd next s)
      at_stub none k = (p, λ t. refl)
      at_stub (some stub) k = call-GoesOn context cmd next stub k p q

  cmd_handler-GoesOn :
      (language : Language C) (context : RunContext C) (cmd : Cmd) (next : Cmds)
      → P context.user_context
      → Q cmd
      → OptionKeeps language.fallback
      → All (λ e. OptionKeeps e.stub) language.p_call_cmds
      → Ensures (GoesOn next) (cmd_handler language context (cmd ∷ next))
  unfolding cmd_handler
  cmd_handler-GoesOn language context cmd next p q f a =
      Ensures-step (GoesOn next) (deref cmd.cmd.str) _ (deref-ends cmd.cmd.str) λ name _.
        Ensures-step (GoesOn next) (strcmp_eq (cstr name) (cstr (codes "language"))) _
          (strcmp_eq-ends _ _)
          λ is_language _. elim (Bool-cases is_language) [
            | inl it ↦ rw it (p, λ t. cc)
            | inr other ↦ rw other (
                Ensures-step (GoesOn next) (strcmp_eq (cstr name) (cstr (codes "abort"))) _
                  (strcmp_eq-ends _ _)
                  λ is_abort _. elim (Bool-cases is_abort) [
                    | inl it ↦ rw it (p, λ t. cc)
                    | inr no_abort ↦ rw no_abort (
                        find_entry-GoesOn context cmd next name language.fallback
                          language.p_call_cmds p q f a)
                  ])
          ]

  go_on-Keeps :
      (loop : RunContext C → Result (RunContext C)) (next : Cmds)
      → ((c : RunContext C)
          → c.cur_cmd ≡ next
          → P c.user_context
          → Ensures (λ c. P c.user_context) (loop c))
      → (r : RunContext C × Bool) → GoesOn next r
      → Ensures (λ c. P c.user_context) (go_on loop r)
  unfolding go_on
  go_on-Keeps loop next k (context, false) g = g.0
  go_on-Keeps loop next k (context, true) g = elim (Bool-cases (is_error context.error)) [
    | inl e ↦ rw e g.0
    | inr e ↦ rw e (k context (g.1 refl) g.0)
  ]

  -- With more fuel than commands the loop ends, and keeps `P`.
  run_loop-Keeps :
      (fuel : ℕ) (language : Language C) (cmds : Cmds) (context : RunContext C)
      → context.cur_cmd ≡ cmds
      → length cmds < fuel
      → P context.user_context
      → All Q cmds
      → OptionKeeps language.fallback
      → All (λ e. OptionKeeps e.stub) language.p_call_cmds
      → Ensures (λ c. P c.user_context) (run_loop fuel language context)
  unfolding run_loop
  run_loop-Keeps zero language cmds context at l p q f a = absurd (omega arith)
  run_loop-Keeps (suc fuel) language [] context at l p q f a =
      subst
        (λ c.
          Ensures (λ d. P d.user_context)
            (cmd_handler language context c >>= go_on (run_loop fuel language)))
        (sym at) (unfold cmd_handler go_on in p)
  run_loop-Keeps (suc fuel) language (cmd ∷ next) context at l p q f a =
      subst
        (λ c.
          Ensures (λ d. P d.user_context)
            (cmd_handler language context c >>= go_on (run_loop fuel language)))
        (sym at)
        (Ensures-bind (GoesOn next) (λ c. P c.user_context)
          (cmd_handler language context (cmd ∷ next)) (go_on (run_loop fuel language))
          (cmd_handler-GoesOn language context cmd next p q.0 f a)
          (go_on-Keeps (run_loop fuel language) next
            (λ c e k. run_loop-Keeps fuel language next c e (omega arith) k q.1 f a)))

  -- `pl2b_runWithLanguage` ends on such a language, and keeps `P`.
  pub run_with_language-Keeps :
      (fuel : ℕ) (program : Cmds) (language : Language C) (user : C) (error : Error)
      → length program < fuel
      → P user
      → All Q program
      → OptionKeeps language.fallback
      → All (λ e. OptionKeeps e.stub) language.p_call_cmds
      → Ensures (λ r. P r.0) (run_with_language fuel program language user error)
  unfolding run_with_language
  run_with_language-Keeps fuel program language user error l p q f a =
      elim (Bool-cases (is_error error)) [
        | inl e ↦ rw e p
        | inr e ↦ rw e (
            Ensures-bind (λ c. P c.user_context) (λ r. P r.0) _ _
              (run_loop-Keeps fuel language program
                (record { cur_cmd = program; user_context = user; error = error }) refl l p q f a)
              (λ c h. h))
      ]
