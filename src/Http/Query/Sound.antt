-- ===== src/Http/Query/Sound.antt =====
-- What a query string was, if its parameters were read.
use mathlib.Core.List.{append-nil, append_assoc}
use chttpd.Prelude.{
  ℕ, zero, suc, ◌≡◌, ◌≢◌, refl, sym, ap, ◌∙◌, true, false, inl, inr, List, [], ◌∷◌, ◌++◌, arith,
  ◌==◌, Bool-cases, All, All-of_append, ==_iff, some, none, length, ◌<◌, ◌≤◌,
}
use mathlib.Core.Path.{subst}
use chttpd.Libc.{Bytes, Fault, ok, fault, IsCStr, until_nul, >>=-eq-ok, >>=-ne_fault, ok-injective}
use chttpd.Libc.Strings.{Without, until_nul-id}
use chttpd.Util.{StringPair}
use chttpd.Http.Query.{peek, next, break_at, parse_params, QueryPath, parse_query_path}
use chttpd.Http.Query.RoundTrip.{IsParam, print_params}

-- The characters passed over do not hold the one that was sought, and with the rest they are the
-- slice.
pub break_at-Without : (x : ℕ) (s : Bytes) → Without x (break_at x s).0
unfolding break_at
break_at-Without x [] = tt
break_at-Without x (c ∷ s) = ground (arith, break_at-Without x s)

pub break_at-splits : (x : ℕ) (s : Bytes) → s ≡ (break_at x s).0 ++ (break_at x s).1
unfolding break_at
break_at-splits x [] = refl
break_at-splits x (c ∷ s) = ground (arith, break_at-splits x s)

pub length-break_at : (x : ℕ) (s : Bytes) → length (break_at x s).1 ≤ length s
unfolding break_at
length-break_at x [] = omega arith
length-break_at x (c ∷ s) = ground (arith, length-break_at x s)

-- Where the next `x` stands: the slice behind it.
pub record Found (x : ℕ) (s : Bytes) : Type 0 where
  pub behind : Bytes
  pub splits : s ≡ (break_at x s).0 ++ x ∷ behind
  pub goes_on : next (break_at x s).1 ≡ ok behind
  pub shorter : length behind < length s

next-found :
    (x : ℕ) (s : Bytes)
    → x ≢ b' '
    → (peek s == x) ≡ true
    → (t : Bytes) × (s ≡ x ∷ t) × (next s ≡ ok t) × (length t < length s)
unfolding peek next
next-found x [] h e = absurd (h (sym ((==_iff b' ' x).0 e)))
next-found x (c ∷ s) h e = (s, ap (λ d. d ∷ s) ((==_iff c x).0 e), refl, omega arith)

-- In a slice, the next `x` does not stand at the end unless the test for it fails.
pub break_at-Found :
    (x : ℕ) (s : Bytes) → x ≢ b' ' → (peek (break_at x s).1 == x) ≡ true → Found x s
break_at-Found x s h e =
    let (t, at, goes_on, shorter) = next-found x (break_at x s).1 h e in
    record {
      behind = t;
      splits = break_at-splits x s ∙ ap (λ r. (break_at x s).0 ++ r) at;
      goes_on = goes_on;
      shorter = omega (arith, shorter, length-break_at x s);
    }

pub break_at-missed :
    (x : ℕ) (s : Bytes) → (peek (break_at x s).1 == x) ≡ false → s ≡ (break_at x s).0
unfolding break_at peek
break_at-missed x [] e = refl
break_at-missed x (c ∷ s) e = ground (arith, break_at-missed x s)

-- What is read of a slice with no terminator in it: the parameters that print to it.
pub record Reads (s : Bytes) (acc ps : List StringPair) : Type 0 where
  pub first : StringPair
  pub others : List StringPair
  pub result : ps ≡ acc ++ first ∷ others
  pub printed : s ≡ print_params first others
  pub are_params : All IsParam (first ∷ others)

-- One parameter, from the slice between its ends.
param :
    (k v : Bytes)
    → IsCStr k
    → Without b'=' k
    → IsCStr v
    → Without b'&' v
    → IsParam (record { first = until_nul k; second = until_nul v })
      × (until_nul k ≡ k)
      × (until_nul v ≡ v)
param k v kc kp vc vp =
    let e = until_nul-id k kc in
    let f = until_nul-id v vc in
    (
      record {
        key_cstr = subst IsCStr (sym e) kc;
        key_plain = subst (Without b'=') (sym e) kp;
        value_cstr = subst IsCStr (sym f) vc;
        value_plain = subst (Without b'&') (sym f) vp;
      },
      e,
      f,
    )

-- A slice put together again from its parts.
printed :
    {s r : Bytes} (k v k' v' m : Bytes)
    → s ≡ k ++ b'=' ∷ r
    → r ≡ v ++ m
    → k' ≡ k
    → v' ≡ v
    → s ≡ k' ++ (b'=' ∷ (v' ++ m))
printed k v k' v' m e f g h = rw (g, h, ← f) e

pub parse_params-Reads :
    (fuel : ℕ) (s : Bytes) (acc : List StringPair) {ps : List StringPair}
    → IsCStr s
    → parse_params fuel s acc ≡ ok ps
    → Reads s acc ps
unfolding parse_params print_params
parse_params-Reads zero s acc c e = cc
parse_params-Reads (suc fuel) s acc {ps} c e =
    let b = break_at b'=' s in
    elim (Bool-cases (peek b.1 == b'=')) [
      | inr miss ↦ cc (rw miss at e)
      | inl hit ↦
          let at_eq = break_at-Found b'=' s (omega arith) hit in
          let v = break_at b'&' at_eq.behind in
          let pair : StringPair = record { first = until_nul b.0; second = until_nul v.0 } in
          let parts =
            All-of_append (λ c. c ≢ 0) b.0 (b'=' ∷ at_eq.behind) (subst IsCStr at_eq.splits c) in
          let e' = rw (hit, at_eq.goes_on) at e in
          elim (Bool-cases (peek v.1 == b'&')) [
            | inr last ↦
                let split' = break_at-missed b'&' at_eq.behind last in
                let one =
                  param b.0 v.0 parts.0 (break_at-Without b'=' s) (subst IsCStr split' parts.1.1)
                    (break_at-Without b'&' at_eq.behind) in
                record {
                  first = pair;
                  others = [];
                  result = sym (cc (rw last at e'));
                  printed =
                      printed b.0 v.0 _ _ _ at_eq.splits (split' ∙ sym (append-nil v.0)) one.1
                        one.2;
                  are_params = (one.0, tt);
                }
            | inl more ↦
                let at_and = break_at-Found b'&' at_eq.behind (omega arith) more in
                let parts' =
                  All-of_append (λ c. c ≢ 0) v.0 (b'&' ∷ at_and.behind)
                    (subst IsCStr at_and.splits parts.1.1) in
                let one =
                  param b.0 v.0 parts.0 (break_at-Without b'=' s) parts'.0
                    (break_at-Without b'&' at_eq.behind) in
                let tail =
                  parse_params-Reads fuel at_and.behind (acc ++ pair ∷ []) parts'.1.1
                    (rw (more, at_and.goes_on) at e') in
                record {
                  first = pair;
                  others = tail.first ∷ tail.others;
                  result = tail.result ∙ append_assoc acc (pair ∷ []) _;
                  printed =
                      printed b.0 v.0 _ _ _ at_eq.splits
                        (at_and.splits ∙ ap (λ r. v.0 ++ b'&' ∷ r) tail.printed) one.1 one.2;
                  are_params = (one.0, tail.are_params);
                }
          ]
    ]

-- With more fuel than characters the loop over the parameters ends, inside the slice.
pub parse_params-ne_fault :
    (fuel : ℕ) (s : Bytes) (acc : List StringPair) (e : Fault)
    → length s < fuel
    → parse_params fuel s acc ≢ fault e
unfolding parse_params
parse_params-ne_fault zero s acc e h = absurd (omega arith)
parse_params-ne_fault (suc fuel) s acc e h =
    let b = break_at b'=' s in
    elim (Bool-cases (peek b.1 == b'=')) [
      | inr miss ↦ rw miss (λ f. cc)
      | inl hit ↦
          let at_eq = break_at-Found b'=' s (omega arith) hit in
          let v = break_at b'&' at_eq.behind in
          rw (hit, at_eq.goes_on)
            (elim (Bool-cases (peek v.1 == b'&')) [
              | inr last ↦ rw last (λ f. cc)
              | inl more ↦
                  let at_and = break_at-Found b'&' at_eq.behind (omega arith) more in
                  rw (more, at_and.goes_on)
                    (parse_params-ne_fault fuel at_and.behind _ e
                      (omega (arith, at_eq.shorter, at_and.shorter)))
            ])
    ]

-- The path up to the first `?`, and behind that the query string with its parameters.
abbrev pub Denotes : Bytes → QueryPath → Type 0
Denotes s (path, none, params) = (s ≡ path) × Without b'?' path × (params ≡ [])
Denotes s (path, some query, params) =
    (s ≡ path ++ b'?' ∷ query) × Without b'?' path × Reads query [] params

-- `parseQueryPath` never leaves the slice: no cursor steps over `it2`, and it refuses the slice or
-- returns.
pub parse_query_path-ne_fault : (s : Bytes) (e : Fault) → parse_query_path s ≢ fault e
unfolding parse_query_path
parse_query_path-ne_fault s e =
    let b = break_at b'?' s in
    elim (Bool-cases (peek b.1 == b'?')) [
      | inr miss ↦ rw miss (λ f. cc)
      | inl hit ↦
          let q = break_at-Found b'?' s (omega arith) hit in
          rw (hit, q.goes_on)
            (>>=-ne_fault (parse_params (suc (length q.behind)) q.behind []) _ e
              (parse_params-ne_fault (suc (length q.behind)) q.behind [] e (omega arith))
              (λ params p. cc))
    ]

-- Whatever `parseQueryPath` returns of a slice with no terminator in it is what the slice says:
-- the path is the part before the first `?`, and the parameters print to the query string.
pub parse_query_path-Denotes :
    (s : Bytes) {r : QueryPath} → IsCStr s → parse_query_path s ≡ ok r → Denotes s r
unfolding parse_query_path
parse_query_path-Denotes s {r} c e =
    let b = break_at b'?' s in
    elim (Bool-cases (peek b.1 == b'?')) [
      | inr miss ↦
          let same = break_at-missed b'?' s miss in
          let id = until_nul-id b.0 (subst IsCStr same c) in
          subst (Denotes s) (ok-injective (rw miss at e))
            (same ∙ sym id, subst (Without b'?') (sym id) (break_at-Without b'?' s), refl)
      | inl hit ↦
          let q = break_at-Found b'?' s (omega arith) hit in
          let parts = All-of_append (λ c. c ≢ 0) b.0 (b'?' ∷ q.behind) (subst IsCStr q.splits c) in
          let id = until_nul-id b.0 parts.0 in
          let id' = until_nul-id q.behind parts.1.1 in
          let (params, read, made) =
            >>=-eq-ok (parse_params (suc (length q.behind)) q.behind [])
              (λ params. ok (until_nul b.0, some (until_nul q.behind), params))
              (rw (hit, q.goes_on) at e) in
          subst (Denotes s) (ok-injective made) (
            rw (id, id') q.splits,
            subst (Without b'?') (sym id) (break_at-Without b'?' s),
            subst (λ q. Reads q [] params) (sym id')
                (parse_params-Reads (suc (length q.behind)) q.behind [] parts.1.1 read),
          )
    ]
