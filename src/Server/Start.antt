-- ===== src/Server/Start.antt =====
-- src/main.c: `main` up to the loop of `httpMainLoop`. Sockets, the allocator and the file of the
-- configuration are parameters; log lines are left out.
pub mod Outcome
pub mod Text
mod Tests
use chttpd.Prelude.{
  ℕ, ◌+◌, ◌-◌, ◌%◌, ◌^◌, ◌<◌, ◌≤◌, ◌∙◌, ltb, take, drop, ◌≡◌, ◌≢◌, refl, sym, ap, ◌↔◌, ◌⊎◌, inl,
  inr, Bool, true, false, not, Bool-cases, Option, none, some, Option-cases, List, [], ◌∷◌, ◌++◌,
  ◌==◌, if◌then◌else◌, arith, length,
}
use chttpd.Prelude.Int.{ℤ, pos, negsuc, pos_part, ◌≤ℤ◌}
use mathlib.Core.Path.{subst}
use chttpd.Libc.{
  Bytes, Result, ok, reject, fault, out_of_bounds, ◌>>=◌, >>=-eq-ok, ok-injective, IsCStr,
}
use chttpd.Error.{Error, is_error, new_error}
use chttpd.Dcgi.{Linker}
use chttpd.Static.{File, read_all}
use chttpd.Pl2.{Cmds}
use chttpd.Pl2.Parser.Lines.{parse}
use chttpd.Config.{Config, init_config}
use chttpd.Config.Evaluate.{evaluate}
use chttpd.Config.Invariant.{ConfigOk}
use chttpd.Config.Load.{load, load-ConfigOk}

-- What the system gives to `main`. A socket is its descriptor.
pub record Platform : Type 0 where
  pub config_file : Option File
  pub has_buffer : Bool
  pub socket : Option ℕ
  pub reuse_addr : ℕ → Bool
  pub inet_aton : Bytes → Option ℕ
  pub bind : ℕ → ℕ → ℕ → Bool

-- What `htons` takes of an `int`: its low 16 bits.
unfoldable pub to_uint16 : ℤ → ℕ
to_uint16 (pos n) = n % 2 ^ 16
to_uint16 (negsuc n) = 2 ^ 16 - 1 - n % 2 ^ 16

-- A step that may fail, and a test whose failure ends the function.
infixl 5 ◌>>=?◌
abbrev pub ◌>>=?◌ {ℓ κ} : {A : Type ℓ} {B : Type κ} → Option A → (A → Option B) → Option B
none >>=? f = none
some a >>=? f = f a

abbrev pub when {ℓ} : {A : Type ℓ} → Bool → Option A → Option A
when true o = o
when false o = none

-- `httpMainLoop` up to its loop: the socket it accepts on, or -1.
unfoldable pub open_socket : Platform → Config → Option ℕ
unfolding to_uint16
open_socket p config = p.socket >>=? λ sock. when (p.reuse_addr sock) (
    p.inet_aton config.address >>=? λ address.
    when (p.bind sock address (to_uint16 config.port)) (some sock))

unfoldable pub zeros : ℕ → Bytes
zeros ℕ.zero = []
zeros (ℕ.suc n) = 0 ∷ zeros n

-- The string that begins a buffer: a read that meets no terminator leaves the buffer.
unfoldable pub string_in : Bytes → Result Bytes
string_in [] = fault out_of_bounds
string_in (c ∷ s) = if c == 0 then ok [] else (string_in s >>= λ t. ok (c ∷ t))

-- The text in the buffer of 65536 bytes, which is set to 0 before `readAll`. The parser reads it to
-- its terminator unless an error stops it; no server starts either way where there is none.
unfoldable pub config_text : Bytes → Result Bytes
unfolding zeros string_in
config_text bytes = string_in (bytes ++ zeros (65536 - length bytes))

-- `main`: the socket and the configuration that the loop runs with, or nothing where it returns -1.
pub record Serving : Type 0 where
  pub socket : ℕ
  pub config : Config

-- `main` behind the evaluation of the configuration.
unfoldable pub listen_with : Platform → Config × Error → Option Serving
unfolding open_socket is_error
listen_with p (config, error) =
    when (not (is_error error))
      (open_socket p config >>=? λ sock. some (record { socket = sock; config = config }))

-- The bytes of the configuration file, up to `pl2b_parse`.
unfoldable pub read_config : Platform → ℕ → Option Bytes
unfolding read_all
read_config p argc =
    when (argc == 2) (p.config_file >>=? λ file. when p.has_buffer (read_all file 65536))

-- What follows `readAll`, if it is reached.
unfoldable pub run_config : Linker → Platform → Option Bytes → Result (Option Serving)
unfolding config_text load listen_with
run_config linker p none = ok none
run_config linker p (some bytes) =
    config_text bytes >>= λ text. load linker text >>= λ r. ok (listen_with p r)

unfoldable pub chttpd_main : Linker → Platform → ℕ → Result (Option Serving)
unfolding read_config run_config
chttpd_main linker p argc = run_config linker p (read_config p argc)
