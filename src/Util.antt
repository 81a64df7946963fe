-- ===== src/Util.antt =====
-- src/util.c and include/util.h: copies of strings, comparison without regard to case, and the
-- comparison of a request's path with the pattern of a route.
pub mod Compare
pub mod Log
mod Tests
use chttpd.Prelude.{ℕ, Bool, true, false, not, ◌&&◌, [], ◌∷◌, ◌==◌, if◌then◌else◌, List, ◌++◌}
use chttpd.Libc.{
  Bytes, Result, ok, fault, out_of_bounds, ◌>>=◌, tolower, strcmp_eq, until_nul, strlen,
}
use chttpd.Prelude.{take}

pub record StringPair : Type 0 where
  pub first : Bytes
  pub second : Bytes

-- `malloc(strlen(src) + 1)` and `strcpy`: the characters up to the terminator. The allocation of
-- so short a block is taken to succeed, as the source takes it.
unfoldable pub copy_string : Bytes → Result Bytes
copy_string src = strlen src >>= λ len. ok (take len src)

unfoldable pub make_string_pair : Bytes → Bytes → Result StringPair
unfolding copy_string
make_string_pair first second = do
  a ← copy_string first
  b ← copy_string second
  ok (record { first = a; second = b })

-- The loop tests `*lhs` twice, and `*rhs` never.
unfoldable pub strcmp_icase : Bytes → Bytes → Result Bool
strcmp_icase [] rhs = fault out_of_bounds
strcmp_icase (c ∷ lhs) [] = fault out_of_bounds
strcmp_icase (c ∷ lhs) (d ∷ rhs) =
    if not (c == 0) && not (c == 0)
    then (if not (tolower c == tolower d) then ok false else strcmp_icase lhs rhs)
    else ok (c == d)

-- The slice is the list of the characters from `begin` to `end`.
unfoldable pub slicecmp_icase : Bytes → Bytes → Result Bool
slicecmp_icase slice [] = fault out_of_bounds
slicecmp_icase [] (d ∷ rhs) = ok (d == 0)
slicecmp_icase (c ∷ slice) (d ∷ rhs) =
    if not (d == 0)
    then (if not (tolower c == tolower d) then ok false else slicecmp_icase slice rhs)
    else ok false

-- The loop of `urlcmp`, and what follows it.
unfoldable pub urlcmp_loop : Bytes → Bytes → Result Bool
urlcmp_loop [] pattern = fault out_of_bounds
urlcmp_loop (c ∷ url) [] = fault out_of_bounds
urlcmp_loop (c ∷ url) (d ∷ pattern) =
    if not (c == 0) && not (d == 0)
    then (if not (c == d) then ok false else urlcmp_loop url pattern)
    else if d == 0
    then ok true
    else ok false

unfoldable pub urlcmp : Bytes → Bytes → Result Bool
unfolding urlcmp_loop
urlcmp url [] = fault out_of_bounds
urlcmp url (d ∷ pattern) =
    if d == b'!' then strcmp_eq url pattern else urlcmp_loop url (d ∷ pattern)

unfoldable pub urlcmp_icase_loop : Bytes → Bytes → Result Bool
urlcmp_icase_loop [] pattern = fault out_of_bounds
urlcmp_icase_loop (c ∷ url) [] = fault out_of_bounds
urlcmp_icase_loop (c ∷ url) (d ∷ pattern) =
    if not (c == 0) && not (d == 0)
    then (if not (tolower c == tolower d) then ok false else urlcmp_icase_loop url pattern)
    else if d == 0
    then ok true
    else ok false

unfoldable pub urlcmp_icase : Bytes → Bytes → Result Bool
unfolding strcmp_icase urlcmp_icase_loop
urlcmp_icase url [] = fault out_of_bounds
urlcmp_icase url (d ∷ pattern) =
    if d == b'!' then strcmp_icase url pattern else urlcmp_icase_loop url (d ∷ pattern)
