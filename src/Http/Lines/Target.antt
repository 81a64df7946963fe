-- ===== src/Http/Lines/Target.antt =====
-- From the target of the request on: what stays inside the line, and what leaves it.
use mathlib.Core.List.{append_assoc}
use mathlib.Core.Path.{subst}
use chttpd.Prelude.{
  ℕ, ◌≡◌, ◌≢◌, refl, sym, ap, ◌∙◌, Bool, true, false, not, ◌&&◌, ◌⊎◌, inl, inr, some, [], ◌∷◌, ◌++◌,
  arith, ◌==◌, Bool-cases, All, if◌then◌else◌, All-append, All-of_append,
}
use chttpd.Libc.{
  Bytes, Fault, ok, fault, out_of_bounds, null_pointer, missing_argument, ◌>>=◌, >>=-eq-fault, cstr,
  IsCStr, isspace, strchr, strncmp_eq,
}
use chttpd.Libc.Search.{split_at, strncmp_eq-ne_fault}
use chttpd.Libc.Strings.{Without, strchr-some, strchr-none}
use chttpd.Libc.Text.{codes}
use chttpd.Http.{HttpMethod}
use chttpd.Http.Lines.Laws.{skip_one}
use chttpd.Http.Query.{QueryPath, parse_query_path, parse_query_path_null}
use chttpd.Http.Query.Sound.{parse_query_path-ne_fault}
use chttpd.Http.Lines.{skip_whitespace, check_version, parse_target, parse_after_method, FirstLine}

-- What the loop of `skipWhitespace` passes over.
abbrev pub is_skipped : ℕ → Bool
is_skipped c = isspace c && not (c == b'\r') && not (c == b'\n')

-- The string does not begin with a character that the loop passes over.
abbrev pub Stops : Bytes → Type 0
Stops [] = Unit
Stops (c ∷ s) = is_skipped c ≡ false

-- What `skipWhitespace` passes over.
pub record Skips (s m : Bytes) : Type 0 where
  pub passed : Bytes
  pub left : Bytes
  pub splits : s ≡ passed ++ left
  pub passed_plain : Without b'/' passed
  pub passed_blank : All (λ c. is_skipped c ≡ true) passed
  pub stops : Stops left
  pub skips : skip_whitespace (s ++ m) ≡ ok (left ++ m)

slash_stays : (d : ℕ) → is_skipped d ≡ true → d ≢ b'/'
unfolding isspace
slash_stays d h = ground arith

pub slash_space : is_skipped b'/' ≡ false
unfolding isspace
slash_space = refl

pub cr_space : is_skipped b'\r' ≡ false
unfolding isspace
cr_space = refl

pub space_zero : is_skipped 0 ≡ false
unfolding isspace
space_zero = refl

pub skip_whitespace-Skips : (s : Bytes) (c : ℕ) (m : Bytes) → is_skipped c ≡ false → Skips s (c ∷ m)
unfolding skip_whitespace
skip_whitespace-Skips [] c m h = record {
  passed = [];
  left = [];
  splits = refl;
  passed_plain = tt;
  passed_blank = tt;
  stops = tt;
  skips = rw h;
}
skip_whitespace-Skips (d ∷ s) c m h = elim (Bool-cases (is_skipped d)) [
  | inl e ↦
      let r = skip_whitespace-Skips s c m h in
      record {
        passed = d ∷ r.passed;
        left = r.left;
        splits = ap (◌∷◌ d) r.splits;
        passed_plain = (slash_stays d e, r.passed_plain);
        passed_blank = (e, r.passed_blank);
        stops = r.stops;
        skips = rw e r.skips;
      }
  | inr e ↦ record {
    passed = [];
    left = d ∷ s;
    splits = refl;
    passed_plain = tt;
    passed_blank = tt;
    stops = e;
    skips = rw e;
  }
]

skip_whitespace-splits :
    (blanks left : Bytes)
    → All (λ c. is_skipped c ≡ true) blanks
    → Stops left
    → skip_whitespace (blanks ++ cstr left) ≡ ok (cstr left)
unfolding skip_whitespace
skip_whitespace-splits [] [] b k = rw space_zero
skip_whitespace-splits [] (c ∷ s) b k = rw k
skip_whitespace-splits (d ∷ blanks) left b k = rw b.0 (skip_whitespace-splits blanks left b.1 k)

abbrev version : Bytes
version = cstr (codes "HTTP/1.1")

-- What begins the target is read, and behind it and its blanks stands another version.
pub record OtherVersion (t : Bytes) : Type 0 where
  pub target : Bytes
  pub blanks : Bytes
  pub left : Bytes
  pub splits : t ≡ target ++ b' ' ∷ (blanks ++ left)
  pub target_plain : Without b' ' target
  pub path : QueryPath
  pub is_path : parse_query_path (b'/' ∷ target) ≡ ok path
  pub are_blanks : All (λ c. is_skipped c ≡ true) blanks
  pub stops : Stops left
  pub differs : strncmp_eq (cstr left) (cstr (codes "HTTP/1.1")) 8 ≡ ok false

-- The target has no end, or another version behind it.
abbrev pub IsBad : Bytes → Type 0
IsBad t = Without b' ' t ⊎ OtherVersion t

not_ok : (first : FirstLine) (e : Fault) → ok first ≢ fault e
not_ok first e p = cc

check_version-differs :
    (left : Bytes) (first : FirstLine) (e : Fault)
    → IsCStr left
    → (strncmp_eq (cstr left) version 8 >>= λ same.
        if same then ok first else fault missing_argument)
      ≡ fault e
    → strncmp_eq (cstr left) version 8 ≡ ok false
check_version-differs left first e c h =
    elim (>>=-eq-fault (strncmp_eq (cstr left) version 8) _ h) [
      | inl f ↦ absurd (strncmp_eq-ne_fault 8 left (codes "HTTP/1.1") [] [] e c (omega arith) f)
      | inr (true, found, later) ↦ absurd (not_ok first e later)
      | inr (false, found, later) ↦ found
    ]

-- With no `?` and no end the first loop of `parseQueryPath` leaves the line; with a `?` the size
-- of the query string is that of no block.
parse_query_path_null-faults : (it1 : Bytes) → (e : Fault) × (parse_query_path_null it1 ≡ fault e)
unfolding parse_query_path_null
parse_query_path_null-faults [] = (out_of_bounds, refl)
parse_query_path_null-faults (c ∷ it1) = elim (Bool-cases (c == b'?')) [
  | inl e ↦ (null_pointer, rw e)
  | inr e ↦ let r = parse_query_path_null-faults it1 in (r.0, rw e r.1)
]

at_space :
    (a b : Bytes)
    → Without b' ' a
    → IsCStr a
    → strchr (cstr (b'/' ∷ (a ++ b' ' ∷ b))) b' ' ≡ ok (some (b'/' ∷ a, cstr b))
at_space a b w c =
    ap (λ s. strchr (b'/' ∷ s) b' ') (append_assoc a (b' ' ∷ b) (0 ∷ []))
    ∙ strchr-some (b'/' ∷ a) b' ' (cstr b) (omega arith, w) (omega arith, c)

parse_target-OtherVersion :
    (a b : Bytes) (m : HttpMethod) (e : Fault)
    → IsCStr (a ++ b' ' ∷ b)
    → Without b' ' a
    → parse_target (cstr (b'/' ∷ (a ++ b' ' ∷ b))) m ≡ fault e
    → OtherVersion (a ++ b' ' ∷ b)
unfolding parse_target check_version
parse_target-OtherVersion a b m e c w h =
    let parts = All-of_append (λ c. c ≢ 0) a (b' ' ∷ b) c in
    let k = skip_whitespace-Skips b 0 [] space_zero in
    let inner = All-of_append (λ c. c ≢ 0) k.passed k.left (subst IsCStr k.splits parts.1.1) in
    elim (>>=-eq-fault (parse_query_path (b'/' ∷ a)) _ (rw (at_space a b w parts.0) at h)) [
      | inl f ↦ absurd (parse_query_path-ne_fault (b'/' ∷ a) e f)
      | inr (path, is_path, later) ↦ record {
        target = a;
        blanks = k.passed;
        left = k.left;
        splits = ap (λ s. a ++ b' ' ∷ s) k.splits;
        target_plain = w;
        path = path;
        is_path = is_path;
        are_blanks = k.passed_blank;
        stops = k.stops;
        differs =
            check_version-differs k.left (m, path) e inner.1 (rw (skip_one, k.skips) at later);
      }
    ]

parse_target-fault :
    (t : Bytes) (m : HttpMethod) (e : Fault)
    → IsCStr t
    → parse_target (cstr (b'/' ∷ t)) m ≡ fault e
    → IsBad t
parse_target-fault t m e c h = elim (split_at b' ' t) [
  | inl w ↦ inl w
  | inr p ↦ inr (
      subst OtherVersion (sym p.splits) (
        parse_target-OtherVersion p.before p.behind m e (subst IsCStr p.splits c) p.is_first
          (subst (λ s. parse_target (cstr (b'/' ∷ s)) m ≡ fault e) p.splits h)))
]

parse_target-other :
    (t : Bytes) (m : HttpMethod)
    → IsCStr t
    → OtherVersion t
    → parse_target (cstr (b'/' ∷ t)) m ≡ fault missing_argument
unfolding parse_target check_version
parse_target-other t m c o =
    let a = All-of_append (λ c. c ≢ 0) o.target _ (subst IsCStr o.splits c) in
    rw (o.splits, at_space o.target (o.blanks ++ o.left) o.target_plain a.0)
      (rw o.is_path (
        rw
          (
            skip_one,
            append_assoc o.blanks o.left (0 ∷ []),
            skip_whitespace-splits o.blanks o.left o.are_blanks o.stops,
          )
          (rw o.differs refl)))

-- With no space behind it the target is read without an end.
parse_target-unended :
    (t : Bytes) (m : HttpMethod)
    → IsCStr t
    → Without b' ' t
    → (e : Fault) × (parse_target (cstr (b'/' ∷ t)) m ≡ fault e)
unfolding parse_target
parse_target-unended t m c w =
    let r = parse_query_path_null-faults (cstr (b'/' ∷ t)) in
    (
      r.0,
      rw (strchr-none (b'/' ∷ t) b' ' [] (omega arith) (omega arith, w) (omega arith, c)) (rw r.1),
    )

pub parse_target-IsBad :
    (t : Bytes) (m : HttpMethod)
    → IsCStr t
    → IsBad t
    → (e : Fault) × (parse_target (cstr (b'/' ∷ t)) m ≡ fault e)
parse_target-IsBad t m c (inl w) = parse_target-unended t m c w
parse_target-IsBad t m c (inr o) = (missing_argument, parse_target-other t m c o)

-- A gap in front of the target, and a bad target, behind the method.
pub record BadBehind (s : Bytes) : Type 0 where
  pub gap : Bytes
  pub target : Bytes
  pub splits : s ≡ gap ++ b'/' ∷ target
  pub gap_plain : Without b'/' gap
  pub is_bad : IsBad target

pub parse_after_method-fault :
    (s : Bytes) (m : HttpMethod) (e : Fault)
    → IsCStr s
    → parse_after_method (cstr s) m ≡ fault e
    → BadBehind s
unfolding parse_after_method
parse_after_method-fault s m e c h =
    let k = skip_whitespace-Skips s 0 [] space_zero in
    let parts = All-of_append (λ c. c ≢ 0) k.passed k.left (subst IsCStr k.splits c) in
    let h' = rw k.skips at h in
    elim (split_at b'/' k.left) [
      | inl w ↦ cc (rw (strchr-none k.left b'/' [] (omega arith) w parts.1) at h')
      | inr p ↦
          let parts' =
            All-of_append (λ c. c ≢ 0) p.before (b'/' ∷ p.behind) (subst IsCStr p.splits parts.1) in
          let found = strchr-some p.before b'/' (p.behind ++ 0 ∷ []) p.is_first parts'.0 in
          let found' =
            ap (λ l. strchr (cstr l) b'/') p.splits
            ∙ ap (λ l. strchr l b'/') (append_assoc p.before (b'/' ∷ p.behind) (0 ∷ []))
            ∙ found in
          record {
            gap = k.passed ++ p.before;
            target = p.behind;
            splits =
                k.splits
                ∙ ap (λ l. k.passed ++ l) p.splits
                ∙ sym (append_assoc k.passed p.before (b'/' ∷ p.behind));
            gap_plain = All-append _ k.passed p.before k.passed_plain p.is_first;
            is_bad = parse_target-fault p.behind m e parts'.1.1 (rw found' at h');
          }
    ]
