-- ===== src/Intern/Numbers.antt =====
-- Numbers as `%zu` of src/intern.c and src/static.c prints them and `atoi` of src/http.c reads them.
use chttpd.Prelude.{
  ℕ, zero, suc, ◌+◌, ◌*◌, ◌-◌, ◌/◌, ◌%◌, ◌^◌, ◌≤◌, ◌<◌, ◌≡◌, refl, ◌∙◌, ap, true, false, inl, inr,
  Bool-cases, List, [], ◌∷◌, ltb, if◌then◌else◌, arith, All, ◌++◌,
}
use chttpd.Prelude.Int.{pos}
use mathlib.Core.Path.{sym}
use chttpd.Libc.{
  Bytes, ok, isspace, isdigit, digits_value, skip_spaces, read_sign, to_int32, atoi, IsCStr,
}
use chttpd.Libc.Text.{codes, bytes_eq, bytes_eq_iff, lower}
use chttpd.Util.{StringPair}
use chttpd.Util.Compare.{strcmp_icase-lower}
use chttpd.Http.Request.{find_content_length, positive_length}
use chttpd.Intern.{digits, print_ℕ}

digit_step :
    (d : ℕ) (s : Bytes) (acc : ℕ)
    → d < 10
    → digits_value ((b'0' + d) ∷ s) acc ≡ digits_value s (acc * 10 + d)
unfolding digits_value isdigit
digit_step d s acc h = let value : (b'0' + d) - b'0' ≡ d = omega arith in rw value (ground arith)

digits_value-digits :
    (fuel n : ℕ) (s : Bytes) → n < fuel → digits_value (digits fuel n s) 0 ≡ digits_value s n
unfolding digits
digits_value-digits zero n s h = absurd (omega arith)
digits_value-digits (suc fuel) n s h = elim (Bool-cases (ltb n 10)) [
  | inl e ↦ rw e (digit_step n s 0 (ground arith) ∙ ap (digits_value s) (omega arith))
  | inr e ↦
      let tail = digits_value-digits fuel (n / 10) ((b'0' + n % 10) ∷ s) (ground arith) in
      rw e (tail ∙ digit_step (n % 10) s (n / 10) (omega arith) ∙ ap (digits_value s) (omega arith))
]

-- A text that begins with a digit.
abbrev Leads : Bytes → Type 0
Leads s = (c : ℕ) × (rest : Bytes) × (s ≡ c ∷ rest) × (48 ≤ c) × (c ≤ 57)

digits-Leads : (fuel n : ℕ) (s : Bytes) → n < fuel → Leads (digits fuel n s)
unfolding digits
digits-Leads zero n s h = absurd (omega arith)
digits-Leads (suc fuel) n s h = elim (Bool-cases (ltb n 10)) [
  | inl e ↦ rw e (b'0' + n, s, refl, omega arith, ground arith)
  | inr e ↦ rw e (digits-Leads fuel (n / 10) ((b'0' + n % 10) ∷ s) (ground arith))
]

skip_spaces_digit : (c : ℕ) (s : Bytes) → 48 ≤ c → c ≤ 57 → skip_spaces (c ∷ s) ≡ c ∷ s
unfolding skip_spaces isspace
skip_spaces_digit c s low high = ground arith

read_sign_digit : (c : ℕ) (s : Bytes) → 48 ≤ c → c ≤ 57 → read_sign (c ∷ s) ≡ (false, c ∷ s)
unfolding read_sign
read_sign_digit c s low high = ground arith

to_int32_small : (n : ℕ) → n < 2 ^ 31 → to_int32 (if ltb n (2 ^ 63) then n else 2 ^ 63 - 1) ≡ pos n
unfolding to_int32
to_int32_small n small =
    let below : ltb n (2 ^ 63) ≡ true = ground arith in
    let rest : n % 2 ^ 32 ≡ n = omega arith in rw below (rw rest (ground arith))

atoi-Leads : (s : Bytes) (n : ℕ) → Leads s → digits_value s 0 ≡ n → n < 2 ^ 31 → atoi s ≡ pos n
unfolding atoi
atoi-Leads s n (c, rest, is, low, high) value small = rw is (
    rw (skip_spaces_digit c rest low high) (
      rw (read_sign_digit c rest low high)
        (rw (ap (λ t. digits_value t 0) (sym is) ∙ value) (to_int32_small n small))))

-- `atoi` reads back each number below 2 ^ 31 that `%zu` prints.
pub atoi-print_ℕ : (n : ℕ) → n < 2 ^ 31 → atoi (print_ℕ n) ≡ pos n
unfolding print_ℕ digits_value
atoi-print_ℕ n small =
    atoi-Leads (digits (suc n) n []) n (digits-Leads (suc n) n [] (omega arith))
      (digits_value-digits (suc n) n [] (omega arith)) small

-- A header that does not announce a length.
pub record IsOther (h : StringPair) : Type 0 where
  pub name_cstr : IsCStr h.first
  pub other_name : bytes_eq (lower h.first) (lower (codes "Content-Length")) ≡ false

-- Behind headers of other names, the length that `readHttpRequest` takes from `Content-Length` is the
-- number that was printed there, for each number below 2 ^ 31 and whatever headers follow.
pub find_content_length-print :
    (before behind : List StringPair) (name : Bytes) (n : ℕ)
    → All IsOther before
    → IsCStr name
    → lower name ≡ lower (codes "Content-Length")
    → n < 2 ^ 31
    → find_content_length (before ++ (record { first = name; second = print_ℕ n }) ∷ behind) ≡ ok n
unfolding find_content_length positive_length
find_content_length-print [] behind name n h c same small =
    rw (strcmp_icase-lower name (codes "Content-Length") [] [] c (ground arith)) (
      rw ((bytes_eq_iff (lower name) (lower (codes "Content-Length"))).1 same, atoi-print_ℕ n small)
        refl)
find_content_length-print (p ∷ before) behind name n (h, hs) c same small =
    rw (strcmp_icase-lower p.first (codes "Content-Length") [] [] h.name_cstr (ground arith))
      (rw h.other_name (find_content_length-print before behind name n hs c same small))
