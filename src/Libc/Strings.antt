-- ===== src/Libc/Strings.antt =====
-- The string functions of the C library on terminated strings: in bounds, and what they return.
use chttpd.Prelude.{ℕ, suc, ◌≢◌, ◌≡◌, refl, true, none, some, [], ◌∷◌, ◌++◌, arith, All, length}
use chttpd.Libc.{Bytes, ok, IsCStr, until_nul, strlen, strchr, strcmp_eq, strncmp_eq}
use chttpd.Libc.Text.{bytes_eq}

-- No character of the string is `x`.
abbrev pub Without : ℕ → Bytes → Type 0
Without x = All (λ c. c ≢ x)

pub until_nul-id : (s : Bytes) → IsCStr s → until_nul s ≡ s
unfolding until_nul
until_nul-id [] h = refl
until_nul-id (c ∷ s) h = ground (arith, until_nul-id s h.1)

pub until_nul-IsCStr : (s : Bytes) → IsCStr (until_nul s)
unfolding until_nul
until_nul-IsCStr [] = tt
until_nul-IsCStr (c ∷ s) = ground (arith, until_nul-IsCStr s)

pub strlen-length : (s m : Bytes) → IsCStr s → strlen (s ++ 0 ∷ m) ≡ ok (length s)
unfolding strlen
strlen-length [] m h = refl
strlen-length (c ∷ s) m h = ground (arith, strlen-length s m h.1)

-- A character is found where it first stands.
pub strchr-some :
    (s : Bytes) (x : ℕ) (m : Bytes)
    → Without x s
    → IsCStr s
    → strchr (s ++ x ∷ m) x ≡ ok (some (s, m))
unfolding strchr
strchr-some [] x m h k = ground arith
strchr-some (c ∷ s) x m h k = ground (arith, strchr-some s x m h.1 k.1)

pub strchr-none :
    (s : Bytes) (x : ℕ) (m : Bytes)
    → x ≢ 0
    → Without x s
    → IsCStr s
    → strchr (s ++ 0 ∷ m) x ≡ ok none
unfolding strchr
strchr-none [] x m z h k = ground arith
strchr-none (c ∷ s) x m z h k = ground (arith, strchr-none s x m z h.1 k.1)

pub strcmp_eq-bytes_eq :
    (a b m n : Bytes)
    → IsCStr a
    → IsCStr b
    → strcmp_eq (a ++ 0 ∷ m) (b ++ 0 ∷ n) ≡ ok (bytes_eq a b)
unfolding strcmp_eq bytes_eq
strcmp_eq-bytes_eq [] [] m n h k = refl
strcmp_eq-bytes_eq [] (d ∷ b) m n h k = ground arith
strcmp_eq-bytes_eq (c ∷ a) [] m n h k = ground arith
strcmp_eq-bytes_eq (c ∷ a) (d ∷ b) m n h k = ground (arith, strcmp_eq-bytes_eq a b m n h.1 k.1)

pub strncmp_eq-append :
    (a m : Bytes) (n : ℕ) → n ≡ length a → strncmp_eq (a ++ m) (a ++ 0 ∷ []) n ≡ ok true
unfolding strncmp_eq
strncmp_eq-append [] m ℕ.zero e = refl
strncmp_eq-append [] m (suc n) e = absurd (omega arith)
strncmp_eq-append (c ∷ a) m ℕ.zero e = refl
strncmp_eq-append (c ∷ a) m (suc n) e = ground (arith, strncmp_eq-append a m n (omega arith))
