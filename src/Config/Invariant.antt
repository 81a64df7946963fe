-- ===== src/Config/Invariant.antt =====
-- The well-formed configurations: ports and cache times in their ranges, no two routes and no two
-- CORS items for the same path and method.
use chttpd.Prelude.{
  ℕ, zero, suc, ◌≡◌, ◌≢◌, ◌↔◌, sym, ◌∙◌, inl, inr, Bool, true, false, Option, none, some, List, [],
  ◌∷◌, ◌++◌, arith, ◌&&◌, Bool-cases, All, All-append,
}
use chttpd.Prelude.Int.{pos, negsuc, ◌≤ℤ◌}
use mathlib.Core.Path.{subst}
use chttpd.Libc.{Bytes, ok, IsCStr}
use chttpd.Libc.Ensures.{Ensures, Ensures-bind, Ensures-step, Ensures-weaken}
use chttpd.Pl2.Run.{deref-ends}
use chttpd.Libc.Strings.{strcmp_eq-bytes_eq}
use chttpd.Libc.Text.{bytes_eq, bytes_eq_iff}
use chttpd.Http.{HttpMethod}
use chttpd.Pl2.{CmdPart, Cmd, deref, part_str, arg}
use chttpd.Config.{Config, Route, CorsConfig, init_config, method_eq, route_exists, cors_exists}

-- No two elements of the list are related, the earlier to the later.
abbrev pub Distinct {ℓ} : {A : Type ℓ} → (A → A → Type 0) → List A → Type 0
Distinct R [] = Unit
Distinct R (x ∷ xs) = All (λ y. ¬ (R x y)) xs × Distinct R xs

pub Distinct-concat {ℓ} :
    {A : Type ℓ} (R : A → A → Type 0) (xs : List A) (y : A)
    → Distinct R xs
    → All (λ x. ¬ (R x y)) xs
    → Distinct R (xs ++ y ∷ [])
Distinct-concat R [] y d h = (tt, tt)
Distinct-concat R (x ∷ xs) y d h =
    (All-append _ xs (y ∷ []) d.0 (h.0, tt), Distinct-concat R xs y d.1 h.1)

abbrev pub SameRoute : Route → Route → Type 0
SameRoute r s = (r.path ≡ s.path) × (r.http_method ≡ s.http_method)

abbrev pub SameCors : CorsConfig → CorsConfig → Type 0
SameCors i j = (i.path ≡ j.path) × (i.http_method ≡ j.http_method)

abbrev pub OptionCStr : Option Bytes → Type 0
OptionCStr none = Unit
OptionCStr (some s) = IsCStr s

pub record ConfigOk (c : Config) : Type 0 where
  pub port_low : pos 1 ≤ℤ c.port
  pub port_high : c.port ≤ℤ pos 65535
  pub cache_low : negsuc 0 ≤ℤ c.cache_time
  pub cache_high : c.cache_time ≤ℤ pos 31535999
  pub route_paths : All (λ (r : Route). IsCStr r.path) c.routes
  pub routes_distinct : Distinct SameRoute c.routes
  pub cors_paths : All (λ (i : CorsConfig). OptionCStr i.path) c.cors_config
  pub cors_methods : All (λ (i : CorsConfig). i.http_method ≢ HttpMethod.options) c.cors_config
  pub cors_distinct : Distinct SameCors c.cors_config

pub init_config-ConfigOk : ConfigOk init_config
unfolding init_config
init_config-ConfigOk = record {
  port_low = omega arith;
  port_high = omega arith;
  cache_low = omega arith;
  cache_high = omega arith;
  route_paths = tt;
  routes_distinct = tt;
  cors_paths = tt;
  cors_methods = tt;
  cors_distinct = tt;
}

-- A configuration with the routes and items of a well-formed one.
pub same_tables :
    (c d : Config)
    → ConfigOk c
    → pos 1 ≤ℤ d.port
    → d.port ≤ℤ pos 65535
    → negsuc 0 ≤ℤ d.cache_time
    → d.cache_time ≤ℤ pos 31535999
    → d.routes ≡ c.routes
    → d.cors_config ≡ c.cors_config
    → ConfigOk d
same_tables c d h pl ph cl ch r s = record {
  port_low = pl;
  port_high = ph;
  cache_low = cl;
  cache_high = ch;
  route_paths = rw r h.route_paths;
  routes_distinct = rw r h.routes_distinct;
  cors_paths = rw s h.cors_paths;
  cors_methods = rw s h.cors_methods;
  cors_distinct = rw s h.cors_distinct;
}

-- A command whose strings hold no terminator, as those of a parsed program.
abbrev pub IsCmd : Cmd → Type 0
IsCmd cmd = OptionCStr cmd.cmd.str × All (λ (p : CmdPart). OptionCStr p.str) cmd.args

pub part_str-Ensures :
    (ps : List CmdPart) (i : ℕ)
    → All (λ (p : CmdPart). OptionCStr p.str) ps
    → Ensures OptionCStr (part_str ps i)
unfolding part_str
part_str-Ensures [] zero h = tt
part_str-Ensures [] (suc i) h = λ p. cc
part_str-Ensures (p ∷ ps) zero h = h.0
part_str-Ensures (p ∷ ps) (suc i) h = part_str-Ensures ps i h.1

pub deref-Ensures : (p : Option Bytes) → OptionCStr p → Ensures IsCStr (deref p)
unfolding deref
deref-Ensures none h = λ p. cc
deref-Ensures (some s) h = h

pub arg-Ensures : (cmd : Cmd) (i : ℕ) → IsCmd cmd → Ensures IsCStr (arg cmd i)
unfolding arg
arg-Ensures cmd i h =
    Ensures-bind OptionCStr IsCStr (part_str cmd.args i) deref (part_str-Ensures cmd.args i h.1)
      deref-Ensures

pub method_eq_iff : (a b : HttpMethod) → (method_eq a b ≡ true) ↔ (a ≡ b)
method_eq_iff a b = ground arith

-- `addRoute`'s loop says `false` only where no route has the path and the method.
abbrev pub NoRoute : List Route → Bytes → HttpMethod → Type 0
NoRoute routes path m = All (λ (r : Route). ¬ ((r.path ≡ path) × (r.http_method ≡ m))) routes

differs :
    (p q : Bytes) (a b : HttpMethod)
    → (bytes_eq p q && method_eq a b) ≡ false
    → ¬ ((p ≡ q) × (a ≡ b))
differs p q a b e (same, equal) =
    ground (arith, (bytes_eq_iff p q).1 same, (method_eq_iff a b).1 equal)

pub route_exists-Ensures :
    (routes : List Route) (path : Bytes) (m : HttpMethod)
    → All (λ (r : Route). IsCStr r.path) routes
    → IsCStr path
    → Ensures (λ b. b ≡ false → NoRoute routes path m) (route_exists routes path m)
unfolding route_exists
route_exists-Ensures [] path m h k = λ e. tt
route_exists-Ensures (r ∷ routes) path m h k =
    rw (strcmp_eq-bytes_eq r.path path [] [] h.0 k)
      (elim (Bool-cases (bytes_eq r.path path && method_eq r.http_method m)) [
        | inl e ↦ rw e (λ f. cc)
        | inr e ↦ rw e (
            Ensures-weaken (λ b. b ≡ false → NoRoute routes path m)
              (λ b. b ≡ false → NoRoute (r ∷ routes) path m) (route_exists routes path m)
              (route_exists-Ensures routes path m h.1 k)
              (λ b n f. (differs r.path path r.http_method m e, n f)))
      ])

abbrev pub NoCors : List CorsConfig → Option Bytes → HttpMethod → Type 0
NoCors items path m = All (λ (i : CorsConfig). ¬ ((i.path ≡ path) × (i.http_method ≡ m))) items

-- The path of an item, once it was read.
pub deref-some : (p : Option Bytes) {s : Bytes} → deref p ≡ ok s → p ≡ some s
unfolding deref
deref-some none h = cc
deref-some (some s) h = cc

pub cors_exists-Ensures :
    (items : List CorsConfig) (path : Option Bytes) (m : HttpMethod)
    → All (λ (i : CorsConfig). OptionCStr i.path) items
    → OptionCStr path
    → Ensures (λ b. b ≡ false → NoCors items path m) (cors_exists items path m)
unfolding cors_exists
cors_exists-Ensures [] path m h k = λ e. tt
cors_exists-Ensures (i ∷ items) none m h k = unfold deref in λ p. cc
cors_exists-Ensures (i ∷ items) (some p) m h k =
    let others = cors_exists-Ensures items (some p) m h.1 k in
    let found = λ (b : Bool). b ≡ false → NoCors (i ∷ items) (some p) m in
    unfold deref in
    Ensures-step found (deref i.path) _ (deref-ends i.path) λ q at.
      let is = deref-some i.path at in
      rw (strcmp_eq-bytes_eq p q [] [] k (subst OptionCStr is h.0))
        (elim (Bool-cases (bytes_eq p q && method_eq i.http_method m)) [
          | inl e ↦ rw e (λ f. cc)
          | inr e ↦ rw e (
              Ensures-weaken (λ b. b ≡ false → NoCors items (some p) m) found
                (cors_exists items (some p) m) others
                (λ b n f. (
                  λ (same, equal). differs p q i.http_method m e (cc (sym same ∙ is), equal),
                  n f,
                )))
        ])
