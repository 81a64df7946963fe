-- ===== src/Http/Query.antt =====
-- `parseQueryPath` of src/http.c. The pointers `it1` and `it2` delimit the slice that it reads,
-- and a space stands at `it2`, or `it2` is `NULL`.
pub mod RoundTrip
pub mod Sound
use chttpd.Prelude.{
  ℕ, zero, suc, length, Bool, true, false, not, Option, none, some, List, [], ◌∷◌, ◌++◌, ◌==◌,
  if◌then◌else◌,
}
use chttpd.Libc.{
  Bytes, Result, ok, ◌>>=◌, reject, fault, out_of_bounds, null_pointer, out_of_fuel, until_nul,
}
use chttpd.Util.{StringPair}

-- `*it` for a pointer into the slice: at its end stands the space that `it2` points to.
unfoldable pub peek : Bytes → ℕ
peek [] = b' '
peek (c ∷ s) = c

-- `it + 1`. Behind `it2` no test of a cursor against `it2` stops it any more.
unfoldable pub next : Bytes → Result Bytes
next [] = fault out_of_bounds
next (c ∷ s) = ok s

-- `while (it != it2 && *it != x) it++`: the characters passed over, and the slice from there.
unfoldable pub break_at : ℕ → Bytes → Bytes × Bytes
break_at x [] = ([], [])
break_at x (c ∷ s) =
    if not (c == x) then (let (before, from) = break_at x s in (c ∷ before, from)) else ([], c ∷ s)

-- The loop over the parameters, on fuel: each round takes a `=` at least off the slice.
unfoldable pub parse_params : ℕ → Bytes → List StringPair → Result (List StringPair)
unfolding break_at peek next
parse_params zero it3 params = fault out_of_fuel
parse_params (suc fuel) it3 params =
    let (key, at_eq) = break_at b'=' it3 in
    if not (peek at_eq == b'=')
    then reject
    else (next at_eq >>= λ it4'.
        let (value, it4) = break_at b'&' it4' in
        let params' = params ++ record { first = until_nul key; second = until_nul value } ∷ [] in
        if not (peek it4 == b'&')
        then ok params'
        else (next it4 >>= λ it3'. parse_params fuel it3' params'))

abbrev pub QueryPath : Type 0
QueryPath = Bytes × Option Bytes × List StringPair

-- With `it2` behind the slice.
unfoldable pub parse_query_path : Bytes → Result QueryPath
unfolding break_at peek next parse_params
parse_query_path it1 =
    let (path, it3) = break_at b'?' it1 in
    if not (peek it3 == b'?')
    then ok (until_nul path, none, [])
    else (next it3 >>= λ query. parse_params (suc (length query)) query [] >>= λ params.
        ok (until_nul path, some (until_nul query), params))

-- With `it2 == NULL` the first loop has no end but a `?`. Behind that, `NULL - it3` is the size
-- asked of `malloc`, which has no block so large, and `strncpy` writes through its `NULL`.
unfoldable pub parse_query_path_null : Bytes → Result QueryPath
parse_query_path_null [] = fault out_of_bounds
parse_query_path_null (c ∷ it3) =
    if not (c == b'?') then parse_query_path_null it3 else fault null_pointer
