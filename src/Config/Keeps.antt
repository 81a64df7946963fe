-- ===== src/Config/Keeps.antt =====
-- Every command of the configuration language keeps the configuration well formed, on every branch.
use chttpd.Prelude.{
  ◌≡◌, ◌≢◌, refl, inl, inr, ◌⊎◌, Bool, false, ◌||◌, none, some, [], arith, ◌==◌, Bool-cases,
}
use chttpd.Prelude.Int.{ℤ, pos, negsuc, ◌≤ℤ◌}
use chttpd.Libc.{Bytes, fault, out_of_fuel, >>=-ne_fault, cstr, IsCStr, strcmp_eq, atoi}
use chttpd.Libc.Ensures.{Ensures, Ensures-bind, Ensures-step, strcmp_eq-ends}
use chttpd.Libc.Text.{codes}
use chttpd.Util.{strcmp_icase}
use chttpd.Error.{Error}
use chttpd.Http.Request.Faults.{strcmp_icase-Spares}
use chttpd.Pl2.{Cmd, Cmds, Stub, args_len, arg}
use chttpd.Pl2.Run.{Keeps}
use chttpd.Config.{Config}
use chttpd.Config.Commands.{
  refuse, config_addr, int_min, out_of_range, config_int_attr, parse_bool, config_bool_attr,
  config_port, config_pend, config_preload_dyn, config_ignore_case, config_cache_time,
}
use chttpd.Config.Invariant.{ConfigOk, same_tables, IsCmd, arg-Ensures}

abbrev pub ConfigKeeps : Stub Config → Type 0
ConfigKeeps = Keeps ConfigOk IsCmd

-- What a command may leave.
abbrev pub After : Cmds → Cmds × Config × Error → Type 0
After next r = ConfigOk r.1 × ((r.0 ≡ next) ⊎ (r.0 ≡ []))

pub strcmp_icase-ends : (a b : Bytes) → strcmp_icase a b ≢ fault out_of_fuel
strcmp_icase-ends = strcmp_icase-Spares out_of_fuel (λ p. cc) (λ p. cc) (λ p. cc)

pub refuse-After :
    (config : Config) (cmd : Cmd) (next : Cmds) (error : Error) (text : Bytes)
    → ConfigOk config
    → Ensures (After next) (refuse config cmd error text)
unfolding refuse
refuse-After config cmd next error text h = (h, inr refl)

pub config_addr-Keeps : ConfigKeeps config_addr
unfolding config_addr
config_addr-Keeps config cmd next error h c = elim (Bool-cases (args_len cmd == 1)) [
  | inr e ↦ rw e (refuse-After config cmd next error _ h)
  | inl e ↦ rw e (
      Ensures-bind IsCStr (After next) (arg cmd 0) _ (arg-Ensures cmd 0 c) (λ address a. (
        same_tables config _ h h.port_low h.port_high h.cache_low h.cache_high refl refl,
        inl refl,
      )))
]

-- A setter that keeps the invariant at every value within the bounds.
config_int_attr-Keeps :
    (store : ℤ → Config → Config) (lower upper : ℤ)
    → ((n : ℤ) (config : Config)
        → out_of_range lower upper n ≡ false
        → ConfigOk config
        → ConfigOk (store n config))
    → ConfigKeeps (config_int_attr store lower upper)
unfolding config_int_attr
config_int_attr-Keeps store lower upper k config cmd next error h c =
    elim (Bool-cases (args_len cmd == 1)) [
      | inr e ↦ rw e (refuse-After config cmd next error _ h)
      | inl e ↦ rw e (
          Ensures-bind IsCStr (After next) (arg cmd 0) _ (arg-Ensures cmd 0 c) λ text t.
            elim (Bool-cases (out_of_range lower upper (atoi text))) [
              | inl out ↦ rw out (refuse-After config cmd next error _ h)
              | inr within ↦ rw within (k (atoi text) config within h, inl refl)
            ])
    ]

in_port_range :
    (n : ℤ) → out_of_range (pos 0) (pos 65536) n ≡ false → (pos 1 ≤ℤ n) × (n ≤ℤ pos 65535)
unfolding out_of_range
in_port_range n h = ground arith

in_cache_range :
    (n : ℤ)
    → out_of_range (negsuc 0) (pos 31536000) n ≡ false
    → (negsuc 0 ≤ℤ n) × (n ≤ℤ pos 31535999)
unfolding out_of_range
in_cache_range n h = ground arith

pub config_port-Keeps : ConfigKeeps config_port
unfolding config_port
config_port-Keeps =
    config_int_attr-Keeps (λ n config. record config { port = n }) (pos 0) (pos 65536)
      λ n config within h.
        let r = in_port_range n within in
        same_tables config (record config { port = n }) h r.0 r.1 h.cache_low h.cache_high refl refl

pub config_pend-Keeps : ConfigKeeps config_pend
unfolding config_pend
config_pend-Keeps =
    config_int_attr-Keeps (λ n config. record config { max_pending = n }) int_min int_min
      λ n config within h.
        same_tables config _ h h.port_low h.port_high h.cache_low h.cache_high refl refl

pub config_cache_time-Keeps : ConfigKeeps config_cache_time
unfolding config_cache_time
config_cache_time-Keeps =
    config_int_attr-Keeps (λ n config. record config { cache_time = n }) (negsuc 0) (pos 31536000)
      λ n config within h.
        let r = in_cache_range n within in
        same_tables config (record config { cache_time = n }) h h.port_low h.port_high r.0 r.1 refl
          refl

parse_bool-ends : (text : Bytes) → parse_bool text ≢ fault out_of_fuel
unfolding parse_bool
parse_bool-ends text =
    >>=-ne_fault (strcmp_icase (cstr text) (cstr (codes "true"))) _ _ (strcmp_icase-ends _ _)
      λ is_true.
        >>=-ne_fault (strcmp_eq (cstr text) (cstr (codes "1"))) _ _ (strcmp_eq-ends _ _) λ is_one.
          elim (Bool-cases (is_true || is_one)) [
            | inl e ↦ rw e (λ p. cc)
            | inr e ↦ rw e (
                >>=-ne_fault (strcmp_icase (cstr text) (cstr (codes "false"))) _ _
                  (strcmp_icase-ends _ _)
                  λ is_false.
                    >>=-ne_fault (strcmp_eq (cstr text) (cstr (codes "0"))) _ _ (strcmp_eq-ends _ _)
                      λ is_zero. ground arith)
          ]

config_bool_attr-Keeps :
    (store : Bool → Config → Config)
    → ((b : Bool) (config : Config) → ConfigOk config → ConfigOk (store b config))
    → ConfigKeeps (config_bool_attr store)
unfolding config_bool_attr
config_bool_attr-Keeps store k config cmd next error h c = elim (Bool-cases (args_len cmd == 1)) [
  | inr e ↦ rw e (refuse-After config cmd next error _ h)
  | inl e ↦ rw e (
      Ensures-bind IsCStr (After next) (arg cmd 0) _ (arg-Ensures cmd 0 c) λ text t.
        Ensures-step (After next) (parse_bool text) _ (parse_bool-ends text) (elim [
          | none ↦ λ _. refuse-After config cmd next error _ h
          | some b ↦ λ _. (k b config h, inl refl)
        ]))
]

pub config_preload_dyn-Keeps : ConfigKeeps config_preload_dyn
unfolding config_preload_dyn
config_preload_dyn-Keeps =
    config_bool_attr-Keeps (λ b config. record config { preload_dynamic = b })
      λ b config h. same_tables config _ h h.port_low h.port_high h.cache_low h.cache_high refl refl

pub config_ignore_case-Keeps : ConfigKeeps config_ignore_case
unfolding config_ignore_case
config_ignore_case-Keeps =
    config_bool_attr-Keeps (λ b config. record config { ignore_case = b })
      λ b config h. same_tables config _ h h.port_low h.port_high h.cache_low h.cache_high refl refl
