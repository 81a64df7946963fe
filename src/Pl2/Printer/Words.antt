-- ===== src/Pl2/Printer/Words.antt =====
-- `parsePart` of pl2/pl2b.c on a printed word.
use chttpd.Prelude.{
  ℕ, ◌+◌, ◌*◌, ◌≤◌, ◌≡◌, ◌≢◌, refl, sym, ap, ◌∙◌, Bool, true, false, not, ◌||◌, Bool-cases, ◌⊎◌,
  inl, inr, [], ◌∷◌, ◌++◌, ◌==◌, leb, ltb, arith, All, length,
}
use chttpd.Prelude.Int.{ℤ}
use chttpd.Libc.{Bytes, ok, ◌>>=◌, isdigit}
use chttpd.Error.{Error, is_error}
use chttpd.Pl2.Parser.{
  ParsedPartCache, ParseContext, span, str_chars, ends_str, is_line_end, shrink_conv, escape,
  isalnum, mem, is_id_char, head_char, cur_char, next_char, step, parse_str, parse_id, is_blank,
}
use chttpd.Pl2.Parser.Lines.{check_buffer_size, push_part, store_part, parse_part}
use chttpd.Pl2.Printer.{print_chars, print_text, print_word, IsText, IsWord}

-- The first character of a list, and one that stops what stands before it.
abbrev pub Stops : (ℕ → Bool) → Bytes → Type 0
Stops test s = test (head_char s) ≡ false

differ : true ≢ false
differ h = cc

pub span-append :
    (test : ℕ → Bool) (s tail : Bytes)
    → All (λ c. test c ≡ true) s
    → test 0 ≡ false
    → Stops test tail
    → span test (s ++ tail) ≡ (s, tail)
unfolding span head_char
span-append test [] [] h z t = refl
span-append test [] (c ∷ tail) h z t = rw t refl
span-append test (c ∷ s) tail h z t =
    let nonzero : c ≢ 0 = λ e. differ (sym h.0 ∙ ap test e ∙ z) in
    let plain : not (c == 0) ≡ true = ground arith in
    rw (h.0, plain, span-append test s tail h.1 z t) refl

str_chars-plain :
    (c : ℕ) (s : Bytes) (line : ℤ)
    → ends_str c ≡ false
    → c ≢ b'\\'
    → str_chars (c ∷ s) line
      ≡ (c ∷ (str_chars s line).0, (str_chars s line).1, (str_chars s line).2)
unfolding str_chars
str_chars-plain c [] line h k = rw (h, str_chars) refl
str_chars-plain c (d ∷ s) line h k =
    let n : (c == b'\\') ≡ false = ground arith in rw (h, str_chars) (rw (n, str_chars) refl)

str_chars-escape :
    (d : ℕ) (s : Bytes) (line : ℤ)
    → d ≢ 0
    → d ≢ b'\n'
    → str_chars (b'\\' ∷ d ∷ s) line
      ≡ (b'\\' ∷ d ∷ (str_chars s line).0, (str_chars s line).1, (str_chars s line).2)
unfolding str_chars ends_str is_line_end
str_chars-escape d s line h k =
    let n : (d == 0) ≡ false = ground arith in
    let m : (d == b'\n') ≡ false = ground arith in rw (n, str_chars) (rw (m, str_chars) refl)

str_chars-close : (tail : Bytes) (line : ℤ) → str_chars (34 ∷ tail) line ≡ ([], 34 ∷ tail, line)
unfolding str_chars ends_str
str_chars-close [] line = refl
str_chars-close (c ∷ tail) line = refl

shrink_conv-plain :
    (c : ℕ) (s : Bytes)
    → c ≢ b'\\'
    → shrink_conv 34 (c ∷ s) ≡ (shrink_conv 34 s >>= λ r. ok (c ∷ r))
unfolding shrink_conv
shrink_conv-plain c [] k = let n : (c == b'\\') ≡ false = ground arith in rw (n, shrink_conv) refl
shrink_conv-plain c (d ∷ s) k =
    let n : (c == b'\\') ≡ false = ground arith in rw (n, shrink_conv) refl

-- A text that the loop reads up to a quotation mark, and the string that it stands for.
Literal : Bytes → Bytes → ℤ → Bytes → Type 0
Literal text tail line s =
    (raw : Bytes) × (str_chars text line ≡ (raw, 34 ∷ tail, line)) × (shrink_conv 34 raw ≡ ok s)

Literal-plain :
    (c : ℕ) (text tail : Bytes) (line : ℤ) (s : Bytes)
    → ends_str c ≡ false
    → c ≢ b'\\'
    → Literal text tail line s
    → Literal (c ∷ text) tail line (c ∷ s)
unfolding Literal
Literal-plain c text tail line s h k (raw, reads, shrinks) = (
  c ∷ raw,
  rw (str_chars-plain c text line h k, reads) refl,
  shrink_conv-plain c raw k ∙ ap (λ m. m >>= λ r. ok (c ∷ r)) shrinks,
)

-- The character behind the backslash, and the one that it stands for.
Literal-quote :
    (text tail : Bytes) (line : ℤ) (s : Bytes)
    → Literal text tail line s
    → Literal (b'\\' ∷ 34 ∷ text) tail line (34 ∷ s)
unfolding Literal
Literal-quote text tail line s (raw, reads, shrinks) = (
  b'\\' ∷ 34 ∷ raw,
  rw (str_chars-escape 34 text line (omega arith) (omega arith), reads) refl,
  unfold shrink_conv escape in ap (λ m. m >>= λ r. ok (34 ∷ r)) shrinks,
)

Literal-newline :
    (text tail : Bytes) (line : ℤ) (s : Bytes)
    → Literal text tail line s
    → Literal (b'\\' ∷ b'n' ∷ text) tail line (b'\n' ∷ s)
unfolding Literal
Literal-newline text tail line s (raw, reads, shrinks) = (
  b'\\' ∷ b'n' ∷ raw,
  rw (str_chars-escape b'n' text line (omega arith) (omega arith), reads) refl,
  unfold shrink_conv escape in ap (λ m. m >>= λ r. ok (b'\n' ∷ r)) shrinks,
)

print_chars-Literal :
    (s tail : Bytes) (line : ℤ) → IsText true s → Literal (print_chars s (34 ∷ tail)) tail line s
unfolding print_chars
print_chars-Literal [] tail line h =
    unfold Literal shrink_conv in ([], str_chars-close tail line, refl)
print_chars-Literal (c ∷ s) tail line h =
    let rest = print_chars-Literal s tail line h.1 in
    elim (Bool-cases (c == 34)) [
      | inl e ↦ let same : c ≡ 34 = ground arith in rw same (Literal-quote _ tail line s rest)
      | inr e ↦ rw e (elim (Bool-cases (c == b'\n')) [
        | inl f ↦
            let same : c ≡ b'\n' = ground arith in rw same (Literal-newline _ tail line s rest)
        | inr f ↦
            let inside : ends_str c ≡ false = unfold ends_str is_line_end in ground arith in
            rw f (Literal-plain c _ tail line s inside h.0.2 rest)
      ])
    ]

parse_str-print :
    (ctx : ParseContext) (error : Error) (s tail : Bytes)
    → IsText true s
    → parse_str (record ctx { src = print_text true s tail }) error
      ≡ ok (s, record ctx { src = tail }, error)
unfolding parse_str next_char cur_char head_char step Literal
parse_str-print ctx error s tail h =
    let (raw, reads, shrinks) = print_chars-Literal s tail ctx.source_info.line h in
    rw reads (rw shrinks refl)

parse_id-print :
    (ctx : ParseContext) (s tail : Bytes)
    → All (λ c. is_id_char c ≡ true) s
    → Stops is_id_char tail
    → parse_id (record ctx { src = s ++ tail }) ≡ (s, record ctx { src = tail })
unfolding parse_id
parse_id-print ctx s tail h t =
    rw (span-append is_id_char s tail h (unfold is_id_char in refl) t) refl

store_part-room :
    (ctx : ParseContext) (part : ParsedPartCache) (error : Error)
    → is_error error ≡ false
    → (length ctx.parse_buffer + 1) * 24 ≤ ctx.parse_buffer_size * 16
    → store_part ctx part error
      ≡ ok (record ctx { parse_buffer = ctx.parse_buffer ++ part ∷ [] }, error)
unfolding store_part check_buffer_size push_part
store_part-room ctx part error clean room =
    let small : leb ctx.parse_buffer_size (length ctx.parse_buffer + 1) ≡ false = ground arith in
    let fits : ltb (ctx.parse_buffer_size * 16) ((length ctx.parse_buffer + 1) * 24) ≡ false =
      ground arith in
    rw clean (rw small (rw clean (rw fits refl)))

not_blank : (c : ℕ) → is_id_char c ≡ true → is_blank c ≡ false
unfolding is_id_char isalnum isdigit mem is_blank
not_blank c h = elim (Bool-cases (is_blank c)) [
  | inr e ↦ e
  | inl e ↦
      let which : (c ≡ 32) ⊎ (c ≡ 9) ⊎ (c ≡ 12) ⊎ (c ≡ 11) ⊎ (c ≡ 13) = ground arith in
      absurd (elim which [
        | inl q ↦ differ (sym h ∙ ap is_id_char q)
        | inr (inl q) ↦ differ (sym h ∙ ap is_id_char q)
        | inr (inr (inl q)) ↦ differ (sym h ∙ ap is_id_char q)
        | inr (inr (inr (inl q))) ↦ differ (sym h ∙ ap is_id_char q)
        | inr (inr (inr (inr q))) ↦ differ (sym h ∙ ap is_id_char q)
      ])
]

-- No name begins with a quotation mark, and no character of it is the terminator, a blank, a
-- newline or the mark of a comment.
pub is_id_char-plain :
    (c : ℕ)
    → is_id_char c ≡ true
    → (c ≢ 0) × (c ≢ 34) × (c ≢ b'#') × (c ≢ b'\n') × (is_blank c ≡ false)
unfolding is_id_char isalnum isdigit mem is_blank
is_id_char-plain c h = (
  λ e. differ (sym h ∙ ap is_id_char e),
  λ e. differ (sym h ∙ ap is_id_char e),
  λ e. differ (sym h ∙ ap is_id_char e),
  λ e. differ (sym h ∙ ap is_id_char e),
  not_blank c h,
)

parse_text-print :
    (ctx : ParseContext) (error : Error) (is_string : Bool) (s tail : Bytes)
    → s ≢ []
    → IsText is_string s
    → Stops is_id_char tail
    → parse_part (record ctx { src = print_text is_string s tail }) error
      ≡ store_part (record ctx { src = tail }) (record { slice = s; is_string = is_string }) error
unfolding parse_part cur_char head_char
parse_text-print ctx error true s tail n h t = rw (parse_str-print ctx error s tail h) refl
parse_text-print ctx error false [] tail n h t = absurd (n refl)
parse_text-print ctx error false (c ∷ s) tail n h t =
    let p = is_id_char-plain c h.0.0 in
    let apostrophe : c ≢ 39 = h.1 in
    let quote = p.1 in
    let name : (c == 34 || c == 39) ≡ false = ground arith in
    rw name (
      ap
        (λ (r : Bytes × ParseContext).
          store_part r.1 (record { slice = r.0; is_string = false }) error)
        (parse_id-print ctx (c ∷ s) tail h.0 t))

-- One printed word is stored, and the source stands behind it.
pub parse_part-print :
    (ctx : ParseContext) (error : Error) (w : ParsedPartCache) (tail : Bytes)
    → IsWord w
    → Stops is_id_char tail
    → is_error error ≡ false
    → (length ctx.parse_buffer + 1) * 24 ≤ ctx.parse_buffer_size * 16
    → parse_part (record ctx { src = print_word w tail }) error
      ≡ ok (record ctx { src = tail; parse_buffer = ctx.parse_buffer ++ w ∷ [] }, error)
parse_part-print ctx error w tail h t clean room =
    parse_text-print ctx error w.is_string w.slice tail h.0 h.1 t
    ∙ store_part-room (record ctx { src = tail }) w error clean room
