-- ===== src/Http/Query/RoundTrip.antt =====
-- Query strings and their parameters: printing and parsing are inverse to each other.
use mathlib.Core.List.{append-nil, append_assoc}
use chttpd.Prelude.{
  ℕ, zero, suc, ◌<◌, ◌≤◌, ◌≡◌, refl, ap, ◌∙◌, some, List, [], ◌∷◌, ◌++◌, arith, All, All-append,
  length, length-append,
}
use chttpd.Libc.{Bytes, ok, IsCStr}
use chttpd.Libc.Strings.{Without, until_nul-id}
use chttpd.Util.{StringPair}
use chttpd.Http.Query.{break_at, parse_params, parse_query_path}

-- The parameters behind the first.
unfoldable pub print_rest : List StringPair → Bytes
print_rest [] = []
print_rest (p ∷ ps) = b'&' ∷ (p.first ++ (b'=' ∷ (p.second ++ print_rest ps)))

-- `key=value` and so on, with `&` between.
unfoldable pub print_params : StringPair → List StringPair → Bytes
unfolding print_rest
print_params p ps = p.first ++ (b'=' ∷ (p.second ++ print_rest ps))

-- What a query string can say: no `=` in a key, no `&` in a value, and no terminator in either.
pub record IsParam (p : StringPair) : Type 0 where
  pub key_cstr : IsCStr p.first
  pub key_plain : Without b'=' p.first
  pub value_cstr : IsCStr p.second
  pub value_plain : Without b'&' p.second

print_rest-IsCStr : (ps : List StringPair) → All IsParam ps → IsCStr (print_rest ps)
unfolding print_rest
print_rest-IsCStr [] h = tt
print_rest-IsCStr (p ∷ ps) h = (
  omega arith,
  All-append _ p.first _ h.0.key_cstr
      (omega arith, All-append _ p.second _ h.0.value_cstr (print_rest-IsCStr ps h.1)),
)

pub print_params-IsCStr :
    (p : StringPair) (ps : List StringPair)
    → IsParam p
    → All IsParam ps
    → IsCStr (print_params p ps)
unfolding print_params
print_params-IsCStr p ps h k =
    All-append _ p.first _ h.key_cstr
      (omega arith, All-append _ p.second _ h.value_cstr (print_rest-IsCStr ps k))

length-print_rest : (ps : List StringPair) → length ps ≤ length (print_rest ps)
unfolding print_rest
length-print_rest [] = omega arith
length-print_rest (p ∷ ps) = omega (
  arith,
  length-append p.first (b'=' ∷ (p.second ++ print_rest ps)),
  length-append p.second (print_rest ps),
  length-print_rest ps,
)

length-print_params :
    (p : StringPair) (ps : List StringPair) → length ps < suc (length (print_params p ps))
unfolding print_params
length-print_params p ps = omega (
  arith,
  length-append p.first (b'=' ∷ (p.second ++ print_rest ps)),
  length-append p.second (print_rest ps),
  length-print_rest ps,
)

pub break_at-append : (x : ℕ) (s m : Bytes) → Without x s → break_at x (s ++ x ∷ m) ≡ (s, x ∷ m)
unfolding break_at
break_at-append x [] m h = ground arith
break_at-append x (c ∷ s) m h = ground (arith, break_at-append x s m h.1)

pub break_at-id : (x : ℕ) (s : Bytes) → Without x s → break_at x s ≡ (s, [])
unfolding break_at
break_at-id x [] h = refl
break_at-id x (c ∷ s) h = ground (arith, break_at-id x s h.1)

pub parse_params-print :
    (fuel : ℕ) (p : StringPair) (ps acc : List StringPair)
    → IsParam p
    → All IsParam ps
    → length ps < fuel
    → parse_params fuel (print_params p ps) acc ≡ ok (acc ++ p ∷ ps)
unfolding parse_params print_params
parse_params-print zero p ps acc h k f = absurd (omega arith)
parse_params-print (suc fuel) p [] acc h k f =
    rw (append-nil p.second, break_at-append b'=' p.first p.second h.key_plain)
      (rw
        (
          break_at-id b'&' p.second h.value_plain,
          until_nul-id p.first h.key_cstr,
          until_nul-id p.second h.value_cstr,
        )
        refl)
parse_params-print (suc fuel) p (q ∷ ps) acc h k f =
    rw (break_at-append b'=' p.first (p.second ++ print_rest (q ∷ ps)) h.key_plain) (
      rw
        (
          break_at-append b'&' p.second _ h.value_plain,
          until_nul-id p.first h.key_cstr,
          until_nul-id p.second h.value_cstr,
        )
        (parse_params-print fuel q ps (acc ++ p ∷ []) k.0 k.1 (omega arith)
          ∙ ap ok (append_assoc acc (p ∷ []) (q ∷ ps))))

-- `parseQueryPath` reads back a path with no `?`, and behind a `?` the parameters: keys without `=`
-- and values without `&`, joined by `=` and `&`. None of them holds a terminator.
pub parse_query_path-print :
    (path : Bytes) (p : StringPair) (ps : List StringPair)
    → IsCStr path
    → Without b'?' path
    → IsParam p
    → All IsParam ps
    → parse_query_path (path ++ b'?' ∷ print_params p ps)
      ≡ ok (path, some (print_params p ps), p ∷ ps)
unfolding parse_query_path
parse_query_path-print path p ps c w h k =
    let s = print_params p ps in
    rw (break_at-append b'?' path s w) (
      rw (
        until_nul-id path c,
        until_nul-id s (print_params-IsCStr p ps h k),
        parse_params-print (suc (length s)) p ps [] h k (length-print_params p ps),
      ))
