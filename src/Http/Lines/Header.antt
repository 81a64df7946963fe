-- ===== src/Http/Lines/Header.antt =====
-- Header lines: exactly which send the reader out of the line.
use mathlib.Core.List.{append_assoc}
use mathlib.Core.Path.{subst}
use chttpd.Prelude.{
  ◌≡◌, ◌≢◌, ◌↔◌, refl, sym, ap, ◌∙◌, inl, inr, [], ◌∷◌, ◌++◌, arith, All-of_append,
}
use chttpd.Libc.{Bytes, Fault, Result, ok, fault, out_of_bounds, ◌>>=◌, cstr, IsCStr, until_nul}
use chttpd.Libc.Search.{split_at}
use chttpd.Libc.Strings.{Without, strchr-some, strchr-none}
use chttpd.Util.{StringPair}
use chttpd.Http.Lines.{skip_whitespace, until_cr, parse_http_header_line}
use chttpd.Http.Lines.Laws.{until_cr-append}
use chttpd.Http.Lines.Target.{skip_whitespace-Skips, space_zero, cr_space}

until_cr-fault : (s : Bytes) → Without b'\r' s → until_cr (cstr s) ≡ fault out_of_bounds
unfolding until_cr
until_cr-fault [] w = refl
until_cr-fault (c ∷ s) w = ground (arith, until_cr-fault s w.1)

-- What follows the colon of the line holds no carriage return.
pub record UnendedValue (s : Bytes) : Type 0 where
  pub name : Bytes
  pub value : Bytes
  pub splits : s ≡ name ++ b':' ∷ value
  pub name_plain : Without b':' name
  pub value_plain : Without b'\r' value

-- What is done behind the colon.
read_value : Bytes → Bytes → Result StringPair
read_value name rest = do
  it ← skip_whitespace rest
  value ← until_cr it
  ok (record { first = until_nul name; second = until_nul value })

read_value-ended :
    (name p q : Bytes) (e : Fault) → Without b'\r' p → read_value name (p ++ b'\r' ∷ q) ≢ fault e
unfolding read_value
read_value-ended name p q e w =
    let k = skip_whitespace-Skips p b'\r' q cr_space in
    let left = All-of_append (λ c. c ≢ b'\r') k.passed k.left (subst (Without b'\r') k.splits w) in
    rw (k.skips, until_cr-append k.left q left.1) (λ h. cc)

read_value-fault :
    (name s : Bytes) (e : Fault) → read_value name (cstr s) ≡ fault e → Without b'\r' s
read_value-fault name s e h = elim (split_at b'\r' s) [
  | inl w ↦ w
  | inr p ↦ absurd (
      read_value-ended name p.before (cstr p.behind) e p.is_first (
        subst (λ l. read_value name l ≡ fault e)
          (ap cstr p.splits ∙ append_assoc p.before (b'\r' ∷ p.behind) (0 ∷ [])) h))
]

colon :
    (p : Bytes) (q : Bytes)
    → IsCStr p
    → Without b':' p
    → parse_http_header_line (cstr (p ++ b':' ∷ q)) ≡ read_value p (cstr q)
unfolding parse_http_header_line read_value
colon p q c w = rw (append_assoc p, strchr-some p b':' (cstr q) w c)

fault-UnendedValue :
    (s : Bytes) (e : Fault) → IsCStr s → parse_http_header_line (cstr s) ≡ fault e → UnendedValue s
unfolding parse_http_header_line
fault-UnendedValue s e c h = elim (split_at b':' s) [
  | inl w ↦ cc (rw (strchr-none s b':' [] (omega arith) w c) at h)
  | inr p ↦
      let parts = All-of_append (λ c. c ≢ 0) p.before (b':' ∷ p.behind) (subst IsCStr p.splits c) in
      let at_value =
        sym (colon p.before p.behind parts.0 p.is_first)
        ∙ sym (ap (λ l. parse_http_header_line (cstr l)) p.splits)
        ∙ h in
      record {
        name = p.before;
        value = p.behind;
        splits = p.splits;
        name_plain = p.is_first;
        value_plain = read_value-fault p.before p.behind e at_value;
      }
]

UnendedValue-fault :
    (s : Bytes) → IsCStr s → UnendedValue s → parse_http_header_line (cstr s) ≡ fault out_of_bounds
unfolding read_value
UnendedValue-fault s c u =
    let parts = All-of_append (λ c. c ≢ 0) u.name (b':' ∷ u.value) (subst IsCStr u.splits c) in
    let k = skip_whitespace-Skips u.value 0 [] space_zero in
    let left =
      All-of_append (λ c. c ≢ b'\r') k.passed k.left
        (subst (Without b'\r') k.splits u.value_plain) in
    rw (u.splits, colon u.name u.value parts.0 u.name_plain)
      (rw (k.skips, until_cr-fault k.left left.1))

-- Of a line with no terminator inside it, `parseHttpHeaderLine` runs out of bounds exactly if there
-- is a colon and no carriage return behind the first one.
pub parse_http_header_line-fault_iff :
    (s : Bytes)
    → IsCStr s
    → ((e : Fault) × (parse_http_header_line (cstr s) ≡ fault e)) ↔ UnendedValue s
parse_http_header_line-fault_iff s c =
    (λ f. fault-UnendedValue s f.0 c f.1, λ u. (out_of_bounds, UnendedValue-fault s c u))
