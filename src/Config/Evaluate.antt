-- ===== src/Config/Evaluate.antt =====
-- Evaluation of a configuration: it ends, and leaves a well-formed configuration.
use chttpd.Prelude.{suc, ◌≡◌, ◌≢◌, arith, All, length}
use chttpd.Libc.{Result, ok, fault, out_of_fuel}
use chttpd.Libc.Ensures.{Ensures, Ensures-ok, Ensures-ends}
use chttpd.Error.{Error}
use chttpd.Pl2.{Cmds, run_with_language}
use chttpd.Pl2.Run.{run_with_language-Keeps}
use chttpd.Dcgi.{Linker}
use chttpd.Config.{Config}
use chttpd.Config.Invariant.{ConfigOk, IsCmd}
use chttpd.Config.Keeps.{
  config_addr-Keeps, config_port-Keeps, config_pend-Keeps, config_preload_dyn-Keeps,
  config_ignore_case-Keeps, config_cache_time-Keeps,
}
use chttpd.Config.Language.{get_cfg_language}
use chttpd.Config.Tables.{add_route-Keeps, add_cors_config-Keeps}

-- `pl2b_runWithLanguage` with the commands of the configuration language, with as much fuel as
-- its loop may take rounds.
unfoldable pub evaluate : Linker → Cmds → Config → Error → Result (Config × Error)
evaluate linker program config error =
    run_with_language (suc (length program)) program (get_cfg_language linker) config error

pub evaluate-Ensures :
    (linker : Linker) (program : Cmds) (config : Config) (error : Error)
    → ConfigOk config
    → All IsCmd program
    → Ensures (λ r. ConfigOk r.0) (evaluate linker program config error)
unfolding evaluate get_cfg_language
evaluate-Ensures linker program config error h c =
    run_with_language-Keeps ConfigOk IsCmd (suc (length program)) program (get_cfg_language linker)
      config error (omega arith) h c tt
      (
        config_addr-Keeps,
        (
          config_port-Keeps,
          (
            config_pend-Keeps,
            (
              config_preload_dyn-Keeps,
              (
                config_ignore_case-Keeps,
                (
                  config_cache_time-Keeps,
                  (
                    add_route-Keeps linker,
                    (
                      add_route-Keeps linker,
                      (
                        add_route-Keeps linker,
                        (
                          add_route-Keeps linker,
                          (
                            add_route-Keeps linker,
                            (
                              add_route-Keeps linker,
                              (
                                add_cors_config-Keeps,
                                (add_cors_config-Keeps, (add_cors_config-Keeps, tt)),
                              ),
                            ),
                          ),
                        ),
                      ),
                    ),
                  ),
                ),
              ),
            ),
          ),
        ),
      )

-- Whatever commands are run on a well-formed configuration, and whether they end in an error or
-- not, the configuration that is left is well formed: its port lies between 1 and 65535 and its
-- cache time between -1 and 31535999, no two routes have the same method and path, no two CORS
-- items do, and none of these is for `OPTIONS`.
pub evaluate-ConfigOk :
    (linker : Linker) (program : Cmds) (config config' : Config) (error error' : Error)
    → ConfigOk config
    → All IsCmd program
    → evaluate linker program config error ≡ ok (config', error')
    → ConfigOk config'
evaluate-ConfigOk linker program config config' error error' h c e =
    Ensures-ok (λ r. ConfigOk r.0) (evaluate linker program config error) e
      (evaluate-Ensures linker program config error h c)

-- The evaluation of commands on a well-formed configuration ends: one round of the loop for each
-- command and one more are enough.
pub evaluate-ne_out_of_fuel :
    (linker : Linker) (program : Cmds) (config : Config) (error : Error)
    → ConfigOk config
    → All IsCmd program
    → evaluate linker program config error ≢ fault out_of_fuel
evaluate-ne_out_of_fuel linker program config error h c =
    Ensures-ends (λ r. ConfigOk r.0) (evaluate linker program config error)
      (evaluate-Ensures linker program config error h c)
