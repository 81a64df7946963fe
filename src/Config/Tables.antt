-- ===== src/Config/Tables.antt =====
-- `addRoute` and `addCorsConfig` keep the configuration well formed, on every branch.
use chttpd.Prelude.{
  ◌≡◌, ◌≢◌, refl, sym, inl, inr, true, false, ◌&&◌, Option, none, some, [], ◌∷◌, ◌==◌, Bool-cases,
  All-append,
}
use mathlib.Core.Bool.{false≢true}
use chttpd.Prelude.{◌∙◌}
use chttpd.Libc.{Bytes, fault, out_of_fuel, >>=-ne_fault, cstr, IsCStr}
use chttpd.Libc.Ensures.{Ensures, Ensures-bind, Ensures-step}
use chttpd.Util.{strcmp_icase}
use chttpd.Error.{Error, is_error}
use chttpd.Http.{HttpMethod, http_method_names, parse_http_method}
use chttpd.Pl2.{Cmd, Cmds, args_len, part_str, deref, arg}
use chttpd.Pl2.Run.{deref-ends}
use chttpd.Dcgi.{Linker, load_dcgi_module}
use chttpd.Config.{
  Config, Route, HandlerType, handler_type_names, parse_handler_type, method_eq, route_exists,
  cors_exists,
}
use chttpd.Config.Commands.{
  push_route, is_dcgi, finish_route, add_route, push_cors, add_cors_config,
}
use chttpd.Config.Invariant.{
  ConfigOk, OptionCStr, SameRoute, SameCors, Distinct-concat, NoRoute, NoCors, arg-Ensures,
  part_str-Ensures, method_eq_iff, route_exists-Ensures, cors_exists-Ensures,
}
use chttpd.Config.Keeps.{ConfigKeeps, After, strcmp_icase-ends, refuse-After}

parse_http_method-ends : (s : Bytes) → parse_http_method s ≢ fault out_of_fuel
unfolding parse_http_method
parse_http_method-ends s =
    >>=-ne_fault (strcmp_icase s (cstr (http_method_names HttpMethod.get))) _ _
      (strcmp_icase-ends _ _)
      (elim [
        | true ↦ λ p. cc
        | false ↦
            >>=-ne_fault (strcmp_icase s (cstr (http_method_names HttpMethod.post))) _ _
              (strcmp_icase-ends _ _)
              (elim [
                | true ↦ λ p. cc
                | false ↦
                    >>=-ne_fault (strcmp_icase s (cstr (http_method_names HttpMethod.options))) _ _
                      (strcmp_icase-ends _ _) (elim [ true ↦ λ p. cc | false ↦ λ p. cc ])
              ])
      ])

parse_handler_type-ends : (s : Bytes) → parse_handler_type s ≢ fault out_of_fuel
unfolding parse_handler_type
parse_handler_type-ends s =
    >>=-ne_fault (strcmp_icase s (cstr (handler_type_names HandlerType.static))) _ _
      (strcmp_icase-ends _ _)
      (elim [
        | true ↦ λ p. cc
        | false ↦
            >>=-ne_fault (strcmp_icase s (cstr (handler_type_names HandlerType.dcgi))) _ _
              (strcmp_icase-ends _ _)
              (elim [
                | true ↦ λ p. cc
                | false ↦
                    >>=-ne_fault (strcmp_icase s (cstr (handler_type_names HandlerType.intern))) _ _
                      (strcmp_icase-ends _ _)
                      (elim [
                        | true ↦ λ p. cc
                        | false ↦
                            >>=-ne_fault
                              (strcmp_icase s (cstr (handler_type_names HandlerType.dir))) _ _
                              (strcmp_icase-ends _ _) (elim [ true ↦ λ p. cc | false ↦ λ p. cc ])
                      ])
              ])
      ])

push_route-ConfigOk :
    (config : Config) (route : Route)
    → ConfigOk config
    → IsCStr route.path
    → NoRoute config.routes route.path route.http_method
    → ConfigOk (push_route config route)
unfolding push_route
push_route-ConfigOk config route h c new = record {
  port_low = h.port_low;
  port_high = h.port_high;
  cache_low = h.cache_low;
  cache_high = h.cache_high;
  route_paths = All-append _ config.routes (route ∷ []) h.route_paths (c, tt);
  routes_distinct = Distinct-concat SameRoute config.routes route h.routes_distinct new;
  cors_paths = h.cors_paths;
  cors_methods = h.cors_methods;
  cors_distinct = h.cors_distinct;
}

finish_route-After :
    (linker : Linker) (route : Route) (config : Config) (cmd : Cmd) (next : Cmds) (error : Error)
    → ConfigOk config
    → IsCStr route.path
    → NoRoute config.routes route.path route.http_method
    → Ensures (After next) (finish_route linker route config cmd next error)
unfolding finish_route
finish_route-After linker route config cmd next error h c new =
    elim (Bool-cases (is_dcgi route.handler_type && config.preload_dynamic)) [
      | inr plain ↦ rw plain (push_route-ConfigOk config route h c new, inl refl)
      | inl load ↦
          let loaded = load_dcgi_module linker route.handler_path error in
          rw load (elim (Bool-cases (is_error loaded.1)) [
            | inl e ↦ rw e (h, inr refl)
            | inr e ↦
                rw e
                  (push_route-ConfigOk config (record route { extra = loaded.0 }) h c new, inl refl)
          ])
    ]

pub add_route-Keeps : (linker : Linker) → ConfigKeeps (add_route linker)
unfolding add_route
add_route-Keeps linker config cmd next error h c = elim (Bool-cases (args_len cmd == 3)) [
  | inr e ↦ rw e (refuse-After config cmd next error _ h)
  | inl e ↦ rw e (
      Ensures-step (After next) (deref cmd.cmd.str) _ (deref-ends cmd.cmd.str) λ name _.
        Ensures-step (After next) (parse_http_method (cstr name)) _
          (parse_http_method-ends (cstr name))
          λ (method, unknown) _.
            Ensures-bind IsCStr (After next) (arg cmd 1) _ (arg-Ensures cmd 1 c) λ type_name _.
              Ensures-step (After next) (parse_handler_type (cstr type_name)) _
                (parse_handler_type-ends (cstr type_name))
                (elim [
                  | none ↦ λ _. refuse-After config cmd next error _ h
                  | some handler_type ↦ λ _.
                      Ensures-bind IsCStr (After next) (arg cmd 0) _ (arg-Ensures cmd 0 c) λ path p.
                        Ensures-bind (λ b. b ≡ false → NoRoute config.routes path method)
                          (After next) (route_exists config.routes path method) _
                          (route_exists-Ensures config.routes path method h.route_paths p)
                          λ b new. elim (Bool-cases b) [
                            | inl found ↦ rw found (refuse-After config cmd next error _ h)
                            | inr fresh ↦ rw fresh (
                                Ensures-bind IsCStr (After next) (arg cmd 2) _ (arg-Ensures cmd 2 c)
                                  λ handler _.
                                    finish_route-After linker _ config cmd next error h p
                                      (new fresh))
                          ]
                ]))
]

push_cors-ConfigOk :
    (config : Config) (method : HttpMethod) (path : Option Bytes)
    → ConfigOk config
    → OptionCStr path
    → method ≢ HttpMethod.options
    → NoCors config.cors_config path method
    → ConfigOk (push_cors config method path)
unfolding push_cors
push_cors-ConfigOk config method path h c m new = record {
  port_low = h.port_low;
  port_high = h.port_high;
  cache_low = h.cache_low;
  cache_high = h.cache_high;
  route_paths = h.route_paths;
  routes_distinct = h.routes_distinct;
  cors_paths = All-append _ config.cors_config _ h.cors_paths (c, tt);
  cors_methods = All-append _ config.cors_config _ h.cors_methods (m, tt);
  cors_distinct = Distinct-concat SameCors config.cors_config _ h.cors_distinct new;
}

pub add_cors_config-Keeps : ConfigKeeps add_cors_config
unfolding add_cors_config
add_cors_config-Keeps config cmd next error h c =
    Ensures-bind IsCStr (After next) (arg cmd 0) _ (arg-Ensures cmd 0 c) λ text t.
      Ensures-step (After next) (parse_http_method (cstr text)) _
        (parse_http_method-ends (cstr text))
        λ r _. elim (Bool-cases r.1) [
          | inl e ↦ rw e (refuse-After config cmd next _ _ h)
          | inr e ↦ rw e (elim (Bool-cases (method_eq r.0 HttpMethod.options)) [
            | inl o ↦ rw o (refuse-After config cmd next _ _ h)
            | inr no_options ↦ rw no_options (
                Ensures-bind OptionCStr (After next) (part_str cmd.args 1) _
                  (part_str-Ensures cmd.args 1 c.1)
                  λ path p.
                    Ensures-bind (λ b. b ≡ false → NoCors config.cors_config path r.0) (After next)
                      (cors_exists config.cors_config path r.0) _
                      (cors_exists-Ensures config.cors_config path r.0 h.cors_paths p)
                      λ b new. elim (Bool-cases b) [
                        | inl found ↦ rw found (refuse-After config cmd next _ _ h)
                        | inr none_there ↦ rw none_there (
                          push_cors-ConfigOk config r.0 path h p
                              (λ q.
                                false≢true
                                  (sym no_options ∙ (method_eq_iff r.0 HttpMethod.options).1 q))
                              (new none_there),
                          inl refl,
                        )
                      ])
          ])
        ]
