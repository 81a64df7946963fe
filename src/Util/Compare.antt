-- ===== src/Util/Compare.antt =====
-- What the comparisons of src/util.c decide. None of them reads behind a terminator.
use chttpd.Prelude.{
  ℕ, ◌≢◌, ◌≡◌, refl, Bool, true, [], ◌∷◌, ◌++◌, arith, ◌==◌, if◌then◌else◌, Bool-cases, inl, inr,
}
use chttpd.Libc.{Bytes, ok, IsCStr, tolower}
use chttpd.Libc.Strings.{strcmp_eq-bytes_eq}
use chttpd.Libc.Text.{bytes_eq, lower, is_prefix}
use chttpd.Util.{strcmp_icase, slicecmp_icase, urlcmp_loop, urlcmp, urlcmp_icase_loop, urlcmp_icase}

-- Only the terminator has the terminator for its lower case.
pub tolower-ne_zero : (c : ℕ) → c ≢ 0 → tolower c ≢ 0
unfolding tolower
tolower-ne_zero c h = ground arith

pub tolower_zero : tolower 0 ≡ 0
unfolding tolower
tolower_zero = refl

pub tolower-bang : (c : ℕ) → (tolower c == b'!') ≡ (c == b'!')
unfolding tolower
tolower-bang c = ground arith

-- A pattern that begins with `!` wants the rest as the whole path, any other wants a prefix.
unfoldable pub url_matches : Bytes → Bytes → Bool
unfolding bytes_eq is_prefix
url_matches url [] = true
url_matches url (d ∷ pattern) =
    if d == b'!' then bytes_eq url pattern else is_prefix (d ∷ pattern) url

-- On terminated strings `strcmp_icase` reads within both, though its loop never tests `*rhs`,
-- and tells whether the strings agree up to the case of their letters.
pub strcmp_icase-lower :
    (a b m n : Bytes)
    → IsCStr a
    → IsCStr b
    → strcmp_icase (a ++ 0 ∷ m) (b ++ 0 ∷ n) ≡ ok (bytes_eq (lower a) (lower b))
unfolding strcmp_icase bytes_eq lower
strcmp_icase-lower [] [] m n h k = refl
strcmp_icase-lower [] (d ∷ b) m n h k = ground arith
strcmp_icase-lower (c ∷ a) [] m n h k = ground (arith, tolower-ne_zero c h.0, tolower_zero)
strcmp_icase-lower (c ∷ a) (d ∷ b) m n h k = ground (arith, strcmp_icase-lower a b m n h.1 k.1)

-- The same of a slice and a terminated string, whatever bytes the slice holds.
pub slicecmp_icase-lower :
    (s b n : Bytes) → IsCStr b → slicecmp_icase s (b ++ 0 ∷ n) ≡ ok (bytes_eq (lower s) (lower b))
unfolding slicecmp_icase bytes_eq lower
slicecmp_icase-lower [] [] n k = refl
slicecmp_icase-lower [] (d ∷ b) n k = ground arith
slicecmp_icase-lower (c ∷ s) [] n k = refl
slicecmp_icase-lower (c ∷ s) (d ∷ b) n k = ground (arith, slicecmp_icase-lower s b n k.1)

urlcmp_loop-is_prefix :
    (u p m n : Bytes)
    → IsCStr u
    → IsCStr p
    → urlcmp_loop (u ++ 0 ∷ m) (p ++ 0 ∷ n) ≡ ok (is_prefix p u)
unfolding urlcmp_loop is_prefix
urlcmp_loop-is_prefix [] [] m n h k = refl
urlcmp_loop-is_prefix [] (d ∷ p) m n h k = ground arith
urlcmp_loop-is_prefix (c ∷ u) [] m n h k = ground arith
urlcmp_loop-is_prefix (c ∷ u) (d ∷ p) m n h k =
    ground (arith, urlcmp_loop-is_prefix u p m n h.1 k.1)

-- On terminated strings `urlcmp` reads within both, and decides whether the pattern fits: the
-- whole path behind a `!`, a prefix of the path without one.
pub urlcmp-url_matches :
    (u p m n : Bytes)
    → IsCStr u
    → IsCStr p
    → urlcmp (u ++ 0 ∷ m) (p ++ 0 ∷ n) ≡ ok (url_matches u p)
unfolding urlcmp url_matches
urlcmp-url_matches u [] m n h k = urlcmp_loop-is_prefix u [] m n h k
urlcmp-url_matches u (d ∷ p) m n h k = elim (Bool-cases (d == b'!')) [
  | inl e ↦ rw e (strcmp_eq-bytes_eq u p m n h k.1)
  | inr e ↦ rw e (urlcmp_loop-is_prefix u (d ∷ p) m n h k)
]

urlcmp_icase_loop-is_prefix :
    (u p m n : Bytes)
    → IsCStr u
    → IsCStr p
    → urlcmp_icase_loop (u ++ 0 ∷ m) (p ++ 0 ∷ n) ≡ ok (is_prefix (lower p) (lower u))
unfolding urlcmp_icase_loop is_prefix lower
urlcmp_icase_loop-is_prefix [] [] m n h k = refl
urlcmp_icase_loop-is_prefix [] (d ∷ p) m n h k = ground arith
urlcmp_icase_loop-is_prefix (c ∷ u) [] m n h k = ground arith
urlcmp_icase_loop-is_prefix (c ∷ u) (d ∷ p) m n h k =
    ground (arith, urlcmp_icase_loop-is_prefix u p m n h.1 k.1)

-- `urlcmp_icase` decides for the path and the pattern what `urlcmp` decides for their lower case,
-- and reads within both terminated strings.
pub urlcmp_icase-lower :
    (u p m n : Bytes)
    → IsCStr u
    → IsCStr p
    → urlcmp_icase (u ++ 0 ∷ m) (p ++ 0 ∷ n) ≡ ok (url_matches (lower u) (lower p))
unfolding urlcmp_icase url_matches lower
urlcmp_icase-lower u [] m n h k = urlcmp_icase_loop-is_prefix u [] m n h k
urlcmp_icase-lower u (d ∷ p) m n h k = elim (Bool-cases (d == b'!')) [
  | inl e ↦ rw (tolower-bang d, e) (strcmp_icase-lower u p m n h k.1)
  | inr e ↦ rw (tolower-bang d, e) (urlcmp_icase_loop-is_prefix u (d ∷ p) m n h k)
]
