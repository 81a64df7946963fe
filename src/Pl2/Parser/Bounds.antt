-- ===== src/Pl2/Parser/Bounds.antt =====
-- How the parser of pl2/pl2b.c gets on: no step makes the source longer, and each round of the loop of a
-- line leaves less to do.
use chttpd.Prelude.{
  ℕ, suc, ◌+◌, ◌-◌, ◌*◌, ◌≤◌, ◌<◌, ◌≡◌, ◌≢◌, refl, sym, ap, ◌∙◌, ◌⊎◌, inl, inr, Bool, true, false,
  not, ◌&&◌, ◌||◌, Bool-cases, [], ◌∷◌, arith, ltb, leb, ◌==◌, if◌then◌else◌, length, length-append,
}
use mathlib.Core.Path.{subst}
use chttpd.Prelude.Int.{ℤ, pos}
use chttpd.Libc.{Bytes, Result, ok, reject, fault, out_of_fuel, ◌>>=◌, fault-injective}
use chttpd.Libc.Ensures.{Ensures, Ensures-weaken, Ensures-bind, Ensures-step}
use chttpd.Error.{Error, is_error, is_error-format_error}
use chttpd.Pl2.Parser.{
  ParsedPartCache, ParseContext, step, add_line, next_char, head_char, cur_char, span, is_line_end,
  skip_comment, ends_str, str_chars, escape, shrink_conv, parse_str, parse_id, is_id_char,
}
use chttpd.Pl2.Parser.Lines.{check_buffer_size, push_part, store_part, parse_part, write_nul}

pub length-step : (s : Bytes) (line : ℤ) → length (step s line).0 ≤ length s
unfolding step
length-step [] line = ground arith
length-step (c ∷ s) line = ground arith

pub length-span : (test : ℕ → Bool) (s : Bytes) → length (span test s).1 ≤ length s
unfolding span
length-span test [] = ground arith
length-span test (c ∷ s) = elim (Bool-cases (test c && not (c == 0))) [
  | inl e ↦ rw e (omega (arith, length-span test s))
  | inr e ↦ rw e (omega arith)
]

pub length-str_chars : (s : Bytes) (line : ℤ) → length (str_chars s line).1 ≤ length s
unfolding str_chars
length-str_chars [] line = ground arith
length-str_chars (c ∷ []) line = elim (Bool-cases (ends_str c)) [
  | inl e ↦ rw (e, str_chars) (omega arith)
  | inr e ↦ rw (e, str_chars) (omega arith)
]
length-str_chars (c ∷ d ∷ s) line = elim (Bool-cases (ends_str c)) [
  | inl e ↦ rw (e, str_chars) (omega arith)
  | inr e ↦
      rw (e, str_chars)
        (elim (Bool-cases (c == b'\\' && not (d == 0))) [
          | inl f ↦
              rw (f, str_chars)
                (omega (arith, length-str_chars s (if d == b'\n' then add_line line else line)))
          | inr f ↦ rw (f, str_chars) (omega (arith, length-str_chars (d ∷ s) line))
        ])
]

-- The rounds that the loop of a line may still take.
unfoldable pub measure : ParseContext → ℕ
measure ctx = length ctx.src + (ctx.parse_buffer_size - length ctx.parse_buffer)

-- What is left of a part: the commands as they were, and less to do unless there is an error.
pub record Parted (ctx : ParseContext) (r : ParseContext × Error) : Type 0 where
  pub same_program : r.0.program ≡ ctx.program
  pub shorter : length r.0.src ≤ length ctx.src
  pub decreases : is_error r.1 ≡ false → measure r.0 < measure ctx

pub check_buffer_size-room :
    (ctx : ParseContext) (error : Error)
    → is_error (check_buffer_size ctx error) ≡ false
    → length ctx.parse_buffer + 1 < ctx.parse_buffer_size
unfolding check_buffer_size
check_buffer_size-room ctx error =
    elim (Bool-cases (leb ctx.parse_buffer_size (length ctx.parse_buffer + 1))) [
      | inl e ↦ rw e (λ f. cc (sym f ∙ is_error-format_error error ctx.source_info (pos 984) _))
      | inr e ↦ λ f. ground arith
    ]

pub store_part-decreases :
    (ctx : ParseContext) (part : ParsedPartCache) (error : Error)
    → Ensures
        (λ r.
          (r.0.program ≡ ctx.program)
          × (r.0.src ≡ ctx.src)
          × (is_error r.1 ≡ false
              → (r.0.parse_buffer_size ≡ ctx.parse_buffer_size)
                × (length r.0.parse_buffer ≡ length ctx.parse_buffer + 1)
                × (length ctx.parse_buffer + 1 < ctx.parse_buffer_size)))
        (store_part ctx part error)
unfolding store_part
store_part-decreases ctx part error = elim (Bool-cases (is_error error)) [
  | inl e ↦ rw e (refl, refl, λ f. cc)
  | inr e ↦ rw e (elim (Bool-cases (is_error (check_buffer_size ctx error))) [
    | inl f ↦ rw f (refl, refl, λ g. cc)
    | inr f ↦
        rw f
          (elim (Bool-cases
            (ltb (ctx.parse_buffer_size * 16) ((length ctx.parse_buffer + 1) * 24))) [
              | inl g ↦ rw (g, push_part) (λ p. cc)
              | inr g ↦
                  rw (g, push_part)
                    (
                      refl,
                      refl,
                      λ h. (
                        refl,
                        length-append ctx.parse_buffer (part ∷ []),
                        check_buffer_size-room ctx error f,
                      ),
                    )
            ])
  ])
]

-- A part from a context with the same commands and buffer, and a source that is no longer.
pub store_part-Parted :
    (ctx ctx' : ParseContext) (part : ParsedPartCache) (error : Error)
    → ctx'.program ≡ ctx.program
    → ctx'.parse_buffer ≡ ctx.parse_buffer
    → ctx'.parse_buffer_size ≡ ctx.parse_buffer_size
    → length ctx'.src ≤ length ctx.src
    → Ensures (Parted ctx) (store_part ctx' part error)
unfolding measure
store_part-Parted ctx ctx' part error p b s l =
    Ensures-weaken _ (Parted ctx) (store_part ctx' part error)
      (store_part-decreases ctx' part error)
      λ r (q, src, room). record {
        same_program = q ∙ p;
        shorter = subst (λ t. length t ≤ length ctx.src) (sym src) l;
        decreases = λ fine. omega (
          arith,
          (room fine).0,
          (room fine).1,
          (room fine).2,
          ap (length {0}) src,
          l,
          ap (length {0}) b,
          s,
        );
      }

-- A context with the same commands and buffer, and a source that is no longer.
abbrev pub Kept : ParseContext → ParseContext → Type 0
Kept ctx ctx' =
    (ctx'.program ≡ ctx.program)
    × (ctx'.parse_buffer ≡ ctx.parse_buffer)
    × (ctx'.parse_buffer_size ≡ ctx.parse_buffer_size)
    × (length ctx'.src ≤ length ctx.src)

bind_ends :
    (m : Result Bytes) (c : ℕ) → m ≢ fault out_of_fuel → (m >>= λ r. ok (c ∷ r)) ≢ fault out_of_fuel
bind_ends (ok r) c h = λ p. cc
bind_ends reject c h = λ p. cc
bind_ends (fault e) c h = λ p. h (ap fault (fault-injective Bytes p))

-- The cases of a round of `shrinkConv`, on what it makes of the characters behind one and two.
round_ends :
    (is_backslash : Bool) (escapes : Bytes) (c : ℕ) (one two : Result Bytes)
    → one ≢ fault out_of_fuel
    → two ≢ fault out_of_fuel
    → (elim is_backslash [
      | true ↦ elim escapes [ [] ↦ one >>= λ r. ok (c ∷ r) | e ∷ _ ↦ two >>= λ r. ok (e ∷ r) ]
      | false ↦ one >>= λ r. ok (c ∷ r)
    ])
      ≢ fault out_of_fuel
round_ends false es c one two h k = bind_ends one c h
round_ends true [] c one two h k = bind_ends one c h
round_ends true (e ∷ es) c one two h k = bind_ends two e k

shrink_conv-ends : (behind : ℕ) (s : Bytes) → shrink_conv behind s ≢ fault out_of_fuel
unfolding shrink_conv
shrink_conv-ends behind [] = λ p. cc
shrink_conv-ends behind (c ∷ []) = ground arith
shrink_conv-ends behind (c ∷ d ∷ s) =
    round_ends (c == b'\\') (escape d) c (shrink_conv behind (d ∷ s)) (shrink_conv behind s)
      (shrink_conv-ends behind (d ∷ s)) (shrink_conv-ends behind s)

pub parse_str-Kept :
    (ctx : ParseContext) (error : Error) → Ensures (λ r. Kept ctx r.1) (parse_str ctx error)
unfolding parse_str next_char cur_char
parse_str-Kept ctx error =
    let s = step ctx.src ctx.source_info.line in
    let t = str_chars s.0 s.1 in
    let first = length-step ctx.src ctx.source_info.line in
    let chars = length-str_chars s.0 s.1 in
    Ensures-step (λ r. Kept ctx r.1) (shrink_conv (head_char t.1) t.0) _
      (shrink_conv-ends (head_char t.1) t.0)
      λ slice _. elim (Bool-cases (head_char t.1 == 34 || head_char t.1 == 39)) [
        | inl e ↦ rw e (refl, refl, refl, omega (arith, first, chars, length-step t.1 t.2))
        | inr e ↦ rw e (refl, refl, refl, omega (arith, first, chars))
      ]

pub parse_part-Parted :
    (ctx : ParseContext) (error : Error) → Ensures (Parted ctx) (parse_part ctx error)
unfolding parse_part parse_id
parse_part-Parted ctx error = elim (Bool-cases (cur_char ctx == 34 || cur_char ctx == 39)) [
  | inl e ↦ rw e (
      Ensures-bind (λ r. Kept ctx r.1) (Parted ctx) (parse_str ctx error) _
        (parse_str-Kept ctx error) λ r (p, b, s, l). store_part-Parted ctx r.1 _ _ p b s l)
  | inr e ↦ rw e (store_part-Parted ctx _ _ _ refl refl refl (length-span is_id_char ctx.src))
]

-- A cursor that stands at a newline before `nextChar`.
pub length_next-newline :
    (s : Bytes) (line : ℤ) → head_char s ≡ b'\n' → length (step s line).0 < length s
unfolding step head_char
length_next-newline [] line h = ground arith
length_next-newline (c ∷ s) line h = ground arith

pub step_end : (s : Bytes) (line : ℤ) → head_char s ≡ 0 → (step s line).0 ≡ s
unfolding step head_char
step_end [] line h = refl
step_end (c ∷ s) line h = ground arith

pub comment_shorter :
    (s : Bytes) → head_char s ≡ b'#' → length (span (λ c. not (is_line_end c)) s).1 < length s
unfolding head_char is_line_end span
comment_shorter [] e = absurd (omega arith)
comment_shorter (c ∷ s) e =
    let goes : (not (c == 0 || c == b'\n') && not (c == 0)) ≡ true = ground arith in
    rw goes (omega (arith, length-span (λ c. not (is_line_end c)) s))

-- A context with less to do, the commands as they were.
abbrev pub Less : ParseContext → ParseContext → Type 0
Less ctx ctx' =
    (ctx'.program ≡ ctx.program) × (length ctx'.src ≤ length ctx.src) × (measure ctx' < measure ctx)

pub skip_comment-Less :
    (ctx : ParseContext) → head_char ctx.src ≡ b'#' → Less ctx (skip_comment ctx)
unfolding skip_comment next_char cur_char measure
skip_comment-Less ctx h =
    let rest = (span (λ c. not (is_line_end c)) ctx.src).1 in
    let short = comment_shorter ctx.src h in
    let behind = length-step rest ctx.source_info.line in
    elim (Bool-cases (head_char rest == b'\n')) [
      | inl e ↦
          rw (e, skip_comment) (refl, omega (arith, short, behind), omega (arith, short, behind))
      | inr e ↦ rw (e, skip_comment) (refl, omega (arith, short), omega (arith, short))
    ]

pub step_shorter : (s : Bytes) (line : ℤ) → head_char s ≢ 0 → length (step s line).0 < length s
unfolding step head_char
step_shorter [] line h = absurd (h refl)
step_shorter (c ∷ s) line h = ground arith

pub length-write_nul : (s : Bytes) → length (write_nul s) ≡ length s
unfolding write_nul
length-write_nul [] = refl
length-write_nul (c ∷ s) = refl

pub head_length : (s : Bytes) → head_char s ≢ 0 → 0 < length s
unfolding head_char
head_length [] h = absurd (h refl)
head_length (c ∷ s) h = omega arith

-- The rounds that are left behind a line.
pub next_rounds :
    (fuel : ℕ) (s t : Bytes)
    → head_char s ≢ 0
    → (length s < suc fuel) ⊎ ((head_char s ≡ 0) × (0 < suc fuel))
    → (length t < length s) ⊎ (head_char t ≡ 0)
    → (length t < fuel) ⊎ ((head_char t ≡ 0) × (0 < fuel))
next_rounds fuel s t h (inl l) (inl k) = inl (omega arith)
next_rounds fuel s t h (inl l) (inr z) = inr (z, omega (arith, head_length s h))
next_rounds fuel s t h (inr (z, l)) k = absurd (h z)
