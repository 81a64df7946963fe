-- ===== src/Http/Request/Faults.antt =====
-- How the parsers of lines can fail: only by a read out of bounds or through a null pointer, or by
-- the message with no argument.
use chttpd.Prelude.{ℕ, zero, suc, ◌≢◌, none, some, [], ◌∷◌, arith}
use chttpd.Libc.{
  Bytes, Fault, Result, fault, out_of_bounds, null_pointer, missing_argument, >>=-ne_fault, cstr,
  strlen, strchr, strncmp_eq,
}
use chttpd.Libc.Text.{codes}
use chttpd.Util.{strcmp_icase}
use chttpd.Http.{HttpMethod}
use chttpd.Http.Method.{choose, slice-choose}
use chttpd.Http.Query.{parse_query_path_null}
use chttpd.Http.Query.Sound.{parse_query_path-ne_fault}
use chttpd.Http.Lines.{
  FirstLine, skip_whitespace, until_cr, check_version, parse_target, parse_after_method,
  parse_http_first_line, parse_http_header_line,
}

-- The outcome is not the fault `e`.
abbrev pub Spares {ℓ} : {A : Type ℓ} → Fault → Result A → Type ℓ
Spares e r = r ≢ fault e

-- The parsers of lines fail in these ways, and in no other.
module _ (e : Fault) (h : e ≢ out_of_bounds) (k : e ≢ null_pointer) (l : e ≢ missing_argument) where
  pub skip_whitespace-Spares : (s : Bytes) → Spares e (skip_whitespace s)
  unfolding skip_whitespace
  skip_whitespace-Spares [] = ground arith
  skip_whitespace-Spares (c ∷ s) = ground (arith, skip_whitespace-Spares s)

  pub strchr-Spares : (s : Bytes) (x : ℕ) → Spares e (strchr s x)
  unfolding strchr
  strchr-Spares [] x = ground arith
  strchr-Spares (c ∷ s) x = ground (arith, strchr-Spares s x)

  pub strlen-Spares : (s : Bytes) → Spares e (strlen s)
  unfolding strlen
  strlen-Spares [] = ground arith
  strlen-Spares (c ∷ s) = ground (arith, strlen-Spares s)

  pub until_cr-Spares : (s : Bytes) → Spares e (until_cr s)
  unfolding until_cr
  until_cr-Spares [] = ground arith
  until_cr-Spares (c ∷ s) = ground (arith, until_cr-Spares s)

  pub strncmp_eq-Spares : (i : ℕ) (a b : Bytes) → Spares e (strncmp_eq a b i)
  unfolding strncmp_eq
  strncmp_eq-Spares zero a b = ground arith
  strncmp_eq-Spares (suc i) [] b = ground arith
  strncmp_eq-Spares (suc i) (c ∷ a) [] = ground arith
  strncmp_eq-Spares (suc i) (c ∷ a) (d ∷ b) = ground (arith, strncmp_eq-Spares i a b)

  pub strcmp_icase-Spares : (a b : Bytes) → Spares e (strcmp_icase a b)
  unfolding strcmp_icase
  strcmp_icase-Spares [] b = ground arith
  strcmp_icase-Spares (c ∷ a) [] = ground arith
  strcmp_icase-Spares (c ∷ a) (d ∷ b) = ground (arith, strcmp_icase-Spares a b)

  pub parse_query_path_null-Spares : (s : Bytes) → Spares e (parse_query_path_null s)
  unfolding parse_query_path_null
  parse_query_path_null-Spares [] = ground arith
  parse_query_path_null-Spares (c ∷ s) = ground (arith, parse_query_path_null-Spares s)

  pub check_version-Spares : (s : Bytes) (first : FirstLine) → Spares e (check_version s first)
  unfolding check_version
  check_version-Spares s first =
      >>=-ne_fault (skip_whitespace s) _ _ (skip_whitespace-Spares s) λ it.
        >>=-ne_fault (strncmp_eq it (cstr (codes "HTTP/1.1")) 8) _ _ (strncmp_eq-Spares 8 it _)
          λ same. ground arith

  pub parse_target-Spares : (it : Bytes) (m : HttpMethod) → Spares e (parse_target it m)
  unfolding parse_target
  parse_target-Spares it m = >>=-ne_fault (strchr it b' ') _ _ (strchr-Spares it b' ') (elim [
    | none ↦
        >>=-ne_fault (parse_query_path_null it) _ _ (parse_query_path_null-Spares it) (λ path p. cc)
    | some (slice, rest) ↦
        >>=-ne_fault _ _ _ (parse_query_path-ne_fault slice e)
          (λ path. check_version-Spares (b' ' ∷ rest) (m, path))
  ])

  pub parse_after_method-Spares : (it : Bytes) (m : HttpMethod) → Spares e (parse_after_method it m)
  unfolding parse_after_method
  parse_after_method-Spares it m =
      >>=-ne_fault (skip_whitespace it) _ _ (skip_whitespace-Spares it) λ it'.
        >>=-ne_fault (strchr it' b'/') _ _ (strchr-Spares it' b'/')
          (elim [ none ↦ λ p. cc | some (skipped, rest) ↦ parse_target-Spares (b'/' ∷ rest) m ])

  pub parse_http_first_line-Spares : (line : Bytes) → Spares e (parse_http_first_line line)
  unfolding parse_http_first_line
  parse_http_first_line-Spares line =
      >>=-ne_fault (strchr line b' ') _ _ (strchr-Spares line b' ') (elim [
        | none ↦ λ p. cc
        | some (name, rest) ↦
            rw (slice-choose name)
              (ground (arith, parse_after_method-Spares (b' ' ∷ rest) (choose name).0))
      ])

  pub parse_http_header_line-Spares : (line : Bytes) → Spares e (parse_http_header_line line)
  unfolding parse_http_header_line
  parse_http_header_line-Spares line =
      >>=-ne_fault (strchr line b':') _ _ (strchr-Spares line b':') (elim [
        | none ↦ λ p. cc
        | some (name, rest) ↦
            >>=-ne_fault (skip_whitespace rest) _ _ (skip_whitespace-Spares rest)
              λ it. >>=-ne_fault (until_cr it) _ _ (until_cr-Spares it) (λ value p. cc)
      ])
