-- ===== src/Libc/Search.antt =====
-- Where a search in a terminated string ends, and what stays in bounds.
use chttpd.Prelude.{
  ℕ, zero, suc, ◌≡◌, ◌≢◌, ap, inl, inr, ◌⊎◌, [], ◌∷◌, ◌++◌, arith, ◌==◌, ==_iff, Bool-cases,
}
use chttpd.Libc.{Bytes, Fault, fault, IsCStr, strncmp_eq}
use chttpd.Libc.Strings.{Without}

-- The string split at the first place of the character.
pub record SplitAt (x : ℕ) (s : Bytes) : Type 0 where
  pub before : Bytes
  pub behind : Bytes
  pub splits : s ≡ before ++ x ∷ behind
  pub is_first : Without x before

pub split_at : (x : ℕ) (s : Bytes) → Without x s ⊎ SplitAt x s
split_at x [] = inl tt
split_at x (c ∷ s) = elim (Bool-cases (c == x)) [
  | inl e ↦ inr (record {
    before = [];
    behind = s;
    splits = ap (λ d. d ∷ s) ((==_iff c x).0 e);
    is_first = tt;
  })
  | inr e ↦ elim (split_at x s) [
    | inl w ↦ inl (ground arith, w)
    | inr p ↦ inr (record {
      before = c ∷ p.before;
      behind = p.behind;
      splits = ap (◌∷◌ c) p.splits;
      is_first = (ground arith, p.is_first);
    })
  ]
]

pub strncmp_eq-ne_fault :
    (k : ℕ) (a b m n : Bytes) (e : Fault)
    → IsCStr a
    → IsCStr b
    → strncmp_eq (a ++ 0 ∷ m) (b ++ 0 ∷ n) k ≢ fault e
unfolding strncmp_eq
strncmp_eq-ne_fault zero a b m n e h k = λ f. cc
strncmp_eq-ne_fault (suc i) [] [] m n e h k = λ f. cc
strncmp_eq-ne_fault (suc i) [] (d ∷ b) m n e h k = ground arith
strncmp_eq-ne_fault (suc i) (c ∷ a) [] m n e h k = ground arith
strncmp_eq-ne_fault (suc i) (c ∷ a) (d ∷ b) m n e h k =
    ground (arith, strncmp_eq-ne_fault i a b m n e h.1 k.1)
