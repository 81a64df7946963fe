-- ===== src/Server/Start/Outcome.antt =====
-- What `main` of src/main.c serves: exactly when it gets to its loop, and with what.
use chttpd.Prelude.{
  ℕ, ◌∙◌, ◌≡◌, ◌≢◌, refl, sym, ap, ◌↔◌, inl, inr, Bool, true, false, not, Bool-cases, Option, none,
  some, Option-cases, ◌==◌, arith,
}
use chttpd.Prelude.Int.{ℤ, pos, negsuc, pos_part, ◌≤ℤ◌}
use mathlib.Core.Path.{subst}
use chttpd.Libc.{Bytes, ok, >>=-eq-ok, ok-injective}
use chttpd.Error.{Error, is_error, new_error}
use chttpd.Dcgi.{Linker}
use chttpd.Static.{File, read_all}
use chttpd.Pl2.{Cmds}
use chttpd.Pl2.Parser.Lines.{parse}
use chttpd.Config.{Config, init_config}
use chttpd.Config.Evaluate.{evaluate}
use chttpd.Config.Invariant.{ConfigOk}
use chttpd.Config.Load.{load, load-ConfigOk}
use chttpd.Server.Start.{
  Platform, to_uint16, ◌>>=?◌, when, open_socket, config_text, Serving, listen_with, read_config,
  run_config, chttpd_main,
}
use chttpd.Server.Start.Text.{
  HasBytes, IsText, read_all-HasBytes, HasBytes-read_all, config_text-IsText, IsText-config_text,
}

>>=?-eq-some {ℓ κ} :
    {A : Type ℓ} {B : Type κ} {b : B} (o : Option A) (f : A → Option B)
    → (o >>=? f) ≡ some b
    → (a : A) × (o ≡ some a) × (f a ≡ some b)
>>=?-eq-some none f e = cc
>>=?-eq-some (some a) f e = (a, refl, e)

when-eq-some {ℓ} :
    {A : Type ℓ} {a : A} (c : Bool) (o : Option A) → when c o ≡ some a → (c ≡ true) × (o ≡ some a)
when-eq-some true o e = (refl, e)
when-eq-some false o e = cc

to_uint16-exact : (n : ℤ) → pos 1 ≤ℤ n → n ≤ℤ pos 65535 → to_uint16 n ≡ pos_part n
unfolding to_uint16
to_uint16-exact (pos n) h k = ground arith
to_uint16-exact (negsuc n) h k = omega arith

-- What makes a socket one that accepts on the address and on exactly the port of the configuration.
pub record IsBound (p : Platform) (config : Config) (sock : ℕ) : Type 0 where
  pub is_socket : p.socket ≡ some sock
  pub reuses : p.reuse_addr sock ≡ true
  pub address : ℕ
  pub is_address : p.inet_aton config.address ≡ some address
  pub bound : p.bind sock address (pos_part config.port) ≡ true

-- What the server that `main` starts has: a file that can be read, a text in it, commands that the
-- text gives without an error, a well-formed configuration that they give without an error, and its
-- socket.
pub record IsServing (linker : Linker) (p : Platform) (argc : ℕ) (s : Serving) : Type 0 where
  pub one_argument : argc ≡ 2
  pub file : File
  pub opens : p.config_file ≡ some file
  pub has_buffer : p.has_buffer ≡ true
  pub bytes : Bytes
  pub reads : HasBytes file bytes
  pub text : Bytes
  pub is_text : IsText bytes text
  pub program : Cmds
  pub parse_error : Error
  pub parses : parse text 4096 (new_error 4096) ≡ ok (program, parse_error)
  pub parsed : is_error parse_error ≡ false
  pub error : Error
  pub evaluates : evaluate linker program init_config parse_error ≡ ok (s.config, error)
  pub no_error : is_error error ≡ false
  pub config_ok : ConfigOk s.config
  pub is_bound : IsBound p s.config s.socket

open_socket-IsBound :
    (p : Platform) (config : Config) (sock : ℕ)
    → ConfigOk config
    → open_socket p config ≡ some sock
    → IsBound p config sock
unfolding open_socket
open_socket-IsBound p config sock h e =
    let (sock', is_socket, e1) = >>=?-eq-some p.socket _ e in
    let (reuses, e2) = when-eq-some (p.reuse_addr sock') _ e1 in
    let (address, is_address, e3) = >>=?-eq-some (p.inet_aton config.address) _ e2 in
    let (bound, e4) = when-eq-some (p.bind sock' address (to_uint16 config.port)) _ e3 in
    let same : sock' ≡ sock = cc in
    let port = to_uint16-exact config.port h.port_low h.port_high in
    record {
      is_socket = rw (sym same) is_socket;
      reuses = rw (sym same) reuses;
      address = address;
      is_address = is_address;
      bound = rw (sym same, sym port) bound;
    }

IsBound-open_socket :
    (p : Platform) (config : Config) (sock : ℕ)
    → ConfigOk config
    → IsBound p config sock
    → open_socket p config ≡ some sock
unfolding open_socket
IsBound-open_socket p config sock h b =
    rw
      (
        b.is_socket,
        b.reuses,
        b.is_address,
        to_uint16-exact config.port h.port_low h.port_high,
        b.bound,
      )
      refl

is_false : (b : Bool) → not b ≡ true → b ≡ false
is_false b h = ground arith

no_server {ℓ} : {A : Type ℓ} {a : A} → none ≢ some a
no_server h = cc

is_two : (n : ℕ) → (n == 2) ≡ true → n ≡ 2
is_two n h = ground (arith, h)

-- A configuration that is loaded without an error: the commands, and what they make of it.
record Loads (linker : Linker) (text : Bytes) (config : Config) (error : Error) : Type 0 where
  program : Cmds
  parse_error : Error
  parses : parse text 4096 (new_error 4096) ≡ ok (program, parse_error)
  parsed : is_error parse_error ≡ false
  evaluates : evaluate linker program init_config parse_error ≡ ok (config, error)

load-Loads :
    (linker : Linker) (text : Bytes) (config : Config) (error : Error)
    → load linker text ≡ ok (config, error)
    → is_error error ≡ false
    → Loads linker text config error
unfolding load
load-Loads linker text config error e fine =
    let ((program, parse_error), parses, rest) = >>=-eq-ok (parse text 4096 (new_error 4096)) _ e in
    elim (Bool-cases (is_error parse_error)) [
      | inl bad ↦
          let same : parse_error ≡ error =
            ap (λ (r : Config × Error). r.1) (ok-injective (rw bad at rest)) in
          cc (sym bad ∙ (ap is_error same ∙ fine))
      | inr good ↦ record {
        program = program;
        parse_error = parse_error;
        parses = parses;
        parsed = good;
        evaluates = rw good at rest;
      }
    ]

listen_with-IsServing :
    (linker : Linker) (p : Platform) (file : File) (bytes text : Bytes) (r : Config × Error)
    (s : Serving)
    → p.config_file ≡ some file
    → p.has_buffer ≡ true
    → HasBytes file bytes
    → IsText bytes text
    → load linker text ≡ ok r
    → listen_with p r ≡ some s
    → IsServing linker p 2 s
unfolding listen_with
listen_with-IsServing linker p file bytes text (config, error) s opens buffer reads is_text loads
      e =
    let (quiet, e1) = when-eq-some (not (is_error error)) _ e in
    let (sock, bound, e2) = >>=?-eq-some (open_socket p config) _ e1 in
    let t : Serving = record { socket = sock; config = config } in
    let same : t ≡ s = cc in
    let config_ok = load-ConfigOk linker text loads in
    let fine = is_false (is_error error) quiet in
    let l = load-Loads linker text config error loads fine in
    subst (IsServing linker p 2) same (record {
      one_argument = refl;
      file = file;
      opens = opens;
      has_buffer = buffer;
      bytes = bytes;
      reads = reads;
      text = text;
      is_text = is_text;
      program = l.program;
      parse_error = l.parse_error;
      parses = l.parses;
      parsed = l.parsed;
      error = error;
      evaluates = l.evaluates;
      no_error = fine;
      config_ok = config_ok;
      is_bound = open_socket-IsBound p config sock config_ok bound;
    })

read_config-eq-some :
    (p : Platform) (argc : ℕ) {bytes : Bytes}
    → read_config p argc ≡ some bytes
    → (argc ≡ 2)
      × (file : File) × (p.config_file ≡ some file)
      × (p.has_buffer ≡ true)
      × (read_all file 65536 ≡ some bytes)
unfolding read_config
read_config-eq-some p argc e =
    let (two, e1) = when-eq-some (argc == 2) _ e in
    let (file, opens, e2) = >>=?-eq-some p.config_file _ e1 in
    let (buffer, e3) = when-eq-some p.has_buffer _ e2 in (is_two argc two, file, opens, buffer, e3)

chttpd_main-IsServing :
    (linker : Linker) (p : Platform) (argc : ℕ) (s : Serving)
    → chttpd_main linker p argc ≡ ok (some s)
    → IsServing linker p argc s
unfolding chttpd_main run_config
chttpd_main-IsServing linker p argc s e = elim (Option-cases (read_config p argc)) [
  | inl nothing ↦ absurd (no_server (ok-injective (rw nothing at e)))
  | inr (bytes, reads) ↦
      let (text, is_text, e1) = >>=-eq-ok (config_text bytes) _ (rw reads at e) in
      let (r, loads, e2) = >>=-eq-ok (load linker text) _ e1 in
      let (two, file, opens, buffer, all) = read_config-eq-some p argc reads in
      subst (λ n. IsServing linker p n s) (sym two)
        (listen_with-IsServing linker p file bytes text r s opens buffer
          (read_all-HasBytes file all) (config_text-IsText bytes is_text) loads (ok-injective e2))
]

IsServing-chttpd_main :
    (linker : Linker) (p : Platform) (argc : ℕ) (s : Serving)
    → IsServing linker p argc s
    → chttpd_main linker p argc ≡ ok (some s)
unfolding chttpd_main run_config read_config load listen_with
IsServing-chttpd_main linker p argc s h =
    let reads : read_all h.file 65536 ≡ some h.bytes = HasBytes-read_all h.file h.bytes h.reads in
    rw (h.one_argument, h.opens)
      (rw (h.has_buffer, reads)
        (rw (IsText-config_text h.bytes h.text h.is_text) (
          rw h.parses (
            rw h.parsed (
              rw h.evaluates (
                rw (h.no_error, IsBound-open_socket p s.config s.socket h.config_ok h.is_bound)
                  refl))))))

-- `main` starts the loop on a socket and a configuration exactly if it has one argument; the file
-- can be opened, and has as many bytes as its size says, or as many as fit into the buffer; a
-- terminator in the buffer ends a text; the text is parsed and its commands evaluated to the
-- configuration, both without an error; and the socket is bound to the address of the configuration
-- and exactly its port. The configuration is then well formed.
pub chttpd_main_iff :
    (linker : Linker) (p : Platform) (argc : ℕ) (s : Serving)
    → (chttpd_main linker p argc ≡ ok (some s)) ↔ IsServing linker p argc s
chttpd_main_iff linker p argc s =
    (chttpd_main-IsServing linker p argc s, IsServing-chttpd_main linker p argc s)
