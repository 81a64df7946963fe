-- ===== src/Http/Lines/FirstLine.antt =====
-- The first line: which lines are read, and exactly which send the reader out of the line.
use mathlib.Core.List.{append_assoc}
use mathlib.Core.Path.{subst, fun_ext}
use chttpd.Prelude.{
  ◌≡◌, ◌≢◌, ◌↔◌, refl, sym, ap, ◌∙◌, false, inl, inr, [], ◌∷◌, ◌++◌, arith, Bool-cases,
  All-of_append,
}
use chttpd.Libc.{Bytes, Fault, ok, fault, ◌>>=◌, cstr, IsCStr, isspace, strchr, strncmp_eq}
use chttpd.Libc.Search.{split_at}
use chttpd.Libc.Strings.{Without, strchr-some, strchr-none}
use chttpd.Libc.Text.{codes}
use chttpd.Http.{HttpMethod, parse_http_method_slice}
use chttpd.Http.Method.{choose, slice-choose}
use chttpd.Http.Query.{parse_query_path}
use chttpd.Http.Lines.{
  skip_whitespace, check_version, parse_target, parse_after_method, parse_http_first_line,
  FirstLine,
}
use chttpd.Http.Lines.Laws.{skip_one}
use chttpd.Http.Lines.Target.{
  skip_whitespace-Skips, IsBad, parse_target-IsBad, parse_after_method-fault, slash_space,
}

-- The line has no space behind the `/` that begins the path, or another version behind the target.
pub record BadTarget (s : Bytes) : Type 0 where
  pub name : Bytes
  pub method : HttpMethod
  pub gap : Bytes
  pub target : Bytes
  pub splits : s ≡ name ++ b' ' ∷ (gap ++ b'/' ∷ target)
  pub name_plain : Without b' ' name
  pub is_method : parse_http_method_slice name ≡ ok (method, false)
  pub gap_plain : Without b'/' gap
  pub is_bad : IsBad target

parse_after_method-space :
    (it : Bytes) (m : HttpMethod) → parse_after_method (b' ' ∷ it) m ≡ parse_after_method it m
unfolding parse_after_method
parse_after_method-space it m = rw skip_one

fault-BadTarget :
    (s : Bytes) (e : Fault) → IsCStr s → parse_http_first_line (cstr s) ≡ fault e → BadTarget s
unfolding parse_http_first_line
fault-BadTarget s e c h = elim (split_at b' ' s) [
  | inl w ↦ cc (rw (strchr-none s b' ' [] (omega arith) w c) at h)
  | inr p ↦
      let parts = All-of_append (λ c. c ≢ 0) p.before (b' ' ∷ p.behind) (subst IsCStr p.splits c) in
      let found =
        ap (λ l. strchr (cstr l) b' ') p.splits
        ∙ ap (λ l. strchr l b' ') (append_assoc p.before (b' ' ∷ p.behind) (0 ∷ []))
        ∙ strchr-some p.before b' ' (p.behind ++ 0 ∷ []) p.is_first parts.0 in
      let h' = rw (found, slice-choose p.before) at h in
      elim (Bool-cases (choose p.before).1) [
        | inl bad ↦ cc (rw bad at h')
        | inr good ↦
            let at_target =
              sym (parse_after_method-space (cstr p.behind) (choose p.before).0)
              ∙ (rw good at h') in
            let u = parse_after_method-fault p.behind (choose p.before).0 e parts.1.1 at_target in
            record {
              name = p.before;
              method = (choose p.before).0;
              gap = u.gap;
              target = u.target;
              splits = p.splits ∙ ap (λ l. p.before ++ b' ' ∷ l) u.splits;
              name_plain = p.is_first;
              is_method = slice-choose p.before ∙ (λ i. ok ((choose p.before).0, good i));
              gap_plain = u.gap_plain;
              is_bad = u.is_bad;
            }
      ]
]

BadTarget-fault :
    (s : Bytes) → IsCStr s → BadTarget s → (e : Fault) × (parse_http_first_line (cstr s) ≡ fault e)
unfolding parse_http_first_line parse_after_method
BadTarget-fault s c u =
    let parts =
      All-of_append (λ c. c ≢ 0) u.name (b' ' ∷ (u.gap ++ b'/' ∷ u.target))
        (subst IsCStr u.splits c) in
    let inner = All-of_append (λ c. c ≢ 0) u.gap (b'/' ∷ u.target) parts.1.1 in
    let k = skip_whitespace-Skips u.gap b'/' (cstr u.target) slash_space in
    let gap_cstr = All-of_append (λ c. c ≢ 0) k.passed k.left (subst IsCStr k.splits inner.0) in
    let gap_plain =
      All-of_append (λ c. c ≢ b'/') k.passed k.left (subst (Without b'/') k.splits u.gap_plain) in
    let r = parse_target-IsBad u.target u.method inner.1.1 u.is_bad in
    (
      r.0,
      rw (u.splits, append_assoc u.name, append_assoc u.gap)
          (rw
            (
              strchr-some u.name b' ' (u.gap ++ b'/' ∷ cstr u.target) u.name_plain parts.0,
              u.is_method,
            )
            (rw skip_one
              (rw (k.skips, strchr-some k.left b'/' (cstr u.target) gap_plain.1 gap_cstr.1) r.1))),
    )

-- Of a line with no terminator inside it, `parseHttpFirstLine` runs into undefined behaviour exactly
-- if a method, a space and a `/` are read, and either no space follows the `/`, or the target is
-- read and what stands behind it and its blanks does not begin with `HTTP/1.1`.
pub parse_http_first_line-fault_iff :
    (s : Bytes)
    → IsCStr s
    → ((e : Fault) × (parse_http_first_line (cstr s) ≡ fault e)) ↔ BadTarget s
parse_http_first_line-fault_iff s c = (λ f. fault-BadTarget s f.0 c f.1, BadTarget-fault s c)

-- A first line in good order: the word for a method in any case of its letters, a target that
-- begins with `/` and has no space in it, the version.
unfoldable pub first_line : Bytes → Bytes → Bytes
first_line name target = name ++ b' ' ∷ b'/' ∷ (target ++ codes " HTTP/1.1\r\n")

version_behind : Bytes
version_behind = codes "HTTP/1.1\r\n\0"

check_version-behind : (first : FirstLine) → check_version (b' ' ∷ version_behind) first ≡ ok first
unfolding check_version version_behind skip_whitespace isspace strncmp_eq
check_version-behind first = refl

at_slash : (m : Bytes) → skip_whitespace (b'/' ∷ m) ≡ ok (b'/' ∷ m)
unfolding skip_whitespace isspace
at_slash m = refl

parse_target-version :
    (target : Bytes) (method : HttpMethod)
    → IsCStr target
    → Without b' ' target
    → parse_target (b'/' ∷ (target ++ b' ' ∷ version_behind)) method
      ≡ (parse_query_path (b'/' ∷ target) >>= λ path. ok (method, path))
unfolding parse_target
parse_target-version target method c w =
    rw (strchr-some (b'/' ∷ target) b' ' version_behind (omega arith, w) (omega arith, c)) (
      ap (λ k. parse_query_path (b'/' ∷ target) >>= k)
        (fun_ext (λ path. check_version-behind (method, path))))

-- A first line with a word that `parseHttpMethodSlice` takes for the method, a space, a target that
-- begins with `/` and has no space in it, and `HTTP/1.1` is read as the method and what
-- `parseQueryPath` makes of the target; none of its strings holds a terminator.
pub parse_http_first_line-print :
    (name target : Bytes) (method : HttpMethod)
    → IsCStr name
    → Without b' ' name
    → parse_http_method_slice name ≡ ok (method, false)
    → IsCStr target
    → Without b' ' target
    → parse_http_first_line (cstr (first_line name target))
      ≡ (parse_query_path (b'/' ∷ target) >>= λ path. ok (method, path))
unfolding parse_http_first_line parse_after_method first_line version_behind
parse_http_first_line-print name target method c w named tc tw =
    rw (append_assoc name, append_assoc target)
      (rw (strchr-some name b' ' (b'/' ∷ (target ++ b' ' ∷ version_behind)) w c, named)
        (rw (skip_one, at_slash, strchr-some [] b'/' (target ++ b' ' ∷ version_behind) tt tt)
          (parse_target-version target method tc tw)))
