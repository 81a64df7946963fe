-- ===== src/Server/Start/Text.antt =====
-- The text of the configuration file in the buffer of `main` in src/main.c.
use chttpd.Prelude.{
  ℕ, ◌-◌, ◌<◌, ◌≤◌, ◌∙◌, ltb, take, drop, ◌≡◌, refl, sym, ap, ◌⊎◌, inl, inr, true, false,
  Bool-cases, none, some, Option-cases, take-append, length-append, [], ◌∷◌, ◌++◌, ◌==◌,
  if◌then◌else◌, arith, length,
}
use mathlib.Core.Path.{subst}
use mathlib.Core.List.{append_assoc}
use chttpd.Libc.{Bytes, ok, >>=-eq-ok, ok-injective, IsCStr}
use chttpd.Static.{File, read_all}
use chttpd.Server.Start.{zeros, string_in, config_text}

-- The bytes that are read of a file, no more than fit into the buffer.
pub record HasBytes (file : File) (bytes : Bytes) : Type 0 where
  pub size : ℕ
  pub sized : file.size ≡ some size
  pub behind : Bytes
  pub begins : file.readable ≡ bytes ++ behind
  pub full : (length bytes ≡ size) × (size ≤ 65536) ⊎ (length bytes ≡ 65536) × (65536 < size)

-- The text in the bytes: up to the first terminator, or all of them where the buffer has room for
-- one behind them.
abbrev pub IsText : Bytes → Bytes → Type 0
IsText bytes text =
    IsCStr text
    × (((behind : Bytes) × (bytes ≡ text ++ 0 ∷ behind)) ⊎ (bytes ≡ text) × (length bytes < 65536))

take-drop : (n : ℕ) (xs : Bytes) → xs ≡ take n xs ++ drop n xs
take-drop ℕ.zero xs = refl
take-drop (ℕ.suc n) [] = refl
take-drop (ℕ.suc n) (x ∷ xs) = ap (◌∷◌ x) (take-drop n xs)

length-take : (n : ℕ) (xs : Bytes) → ltb (length xs) n ≡ false → length (take n xs) ≡ n
length-take ℕ.zero xs h = refl
length-take (ℕ.suc n) [] h = ground arith
length-take (ℕ.suc n) (x ∷ xs) h = ap ℕ.suc (length-take n xs (ground arith))

-- The bytes that are asked for, of a file that has so many.
taken :
    (file : File) (n size : ℕ) {bytes : Bytes}
    → file.size ≡ some size
    → ((n ≡ size) × (size ≤ 65536)) ⊎ ((n ≡ 65536) × (65536 < size))
    → (if ltb (length file.readable) n then none else some (take n file.readable)) ≡ some bytes
    → HasBytes file bytes
taken file n size {bytes} sized full e = elim (Bool-cases (ltb (length file.readable) n)) [
  | inl short ↦ cc (rw short at e)
  | inr enough ↦
      let made : take n file.readable ≡ bytes = cc (rw enough at e) in
      let long : length bytes ≡ n =
        ap (length {0}) (sym made) ∙ length-take n file.readable enough in
      record {
        size = size;
        sized = sized;
        behind = drop n file.readable;
        begins = take-drop n file.readable ∙ ap (λ b. b ++ drop n file.readable) made;
        full = elim full [ inl f ↦ inl (long ∙ f.0, f.1) | inr f ↦ inr (long ∙ f.0, f.1) ];
      }
]

pub read_all-HasBytes :
    (file : File) {bytes : Bytes} → read_all file 65536 ≡ some bytes → HasBytes file bytes
unfolding read_all
read_all-HasBytes file e = elim (Option-cases file.size) [
  | inl no_size ↦ cc (rw no_size at e)
  | inr (size, sized) ↦ elim (Bool-cases (ltb 65536 size)) [
    | inl more ↦
        taken file 65536 size sized (inr (refl, ground (arith, more))) (rw more at (rw sized at e))
    | inr fits ↦
        taken file size size sized (inl (refl, ground (arith, fits))) (rw fits at (rw sized at e))
  ]
]

HasBytes-enough :
    (file : File) (bytes : Bytes) (n : ℕ)
    → ((behind : Bytes) × (file.readable ≡ bytes ++ behind))
    → length bytes ≡ n
    → (if ltb (length file.readable) n then none else some (take n file.readable)) ≡ some bytes
HasBytes-enough file bytes n (behind, e) long =
    let enough : ltb (length (bytes ++ behind)) (length bytes) ≡ false =
      ground (arith, length-append bytes behind) in
    subst
      (λ k.
        (if ltb (length file.readable) k then none else some (take k file.readable)) ≡ some bytes)
      long (rw e (rw enough (ap some (take-append bytes behind))))

pub HasBytes-read_all :
    (file : File) (bytes : Bytes) → HasBytes file bytes → read_all file 65536 ≡ some bytes
unfolding read_all
HasBytes-read_all file bytes h = elim h.full [
  | inl (long, fits) ↦
      let no_more : ltb 65536 h.size ≡ false = ground (arith, fits) in
      rw h.sized (rw no_more (HasBytes-enough file bytes h.size (h.behind, h.begins) long))
  | inr (long, over) ↦
      let more : ltb 65536 h.size ≡ true = ground (arith, over) in
      rw h.sized (rw more (HasBytes-enough file bytes 65536 (h.behind, h.begins) long))
]

string_in-cstr : (text behind : Bytes) → IsCStr text → string_in (text ++ 0 ∷ behind) ≡ ok text
unfolding string_in
string_in-cstr [] behind h = refl
string_in-cstr (c ∷ text) behind h =
    let inside : (c == 0) ≡ false = ground (arith, h.0) in
    rw (inside, string_in-cstr text behind h.1) refl

-- A string that is found in a buffer ends in it.
string_in-ok :
    (s : Bytes) {text : Bytes}
    → string_in s ≡ ok text
    → IsCStr text × ((behind : Bytes) × (s ≡ text ++ 0 ∷ behind))
unfolding string_in
string_in-ok [] e = cc
string_in-ok (c ∷ s) {text} e = elim (Bool-cases (c == 0)) [
  | inl z ↦
      let nul : c ≡ 0 = ground (arith, z) in
      subst (λ t. IsCStr t × ((behind : Bytes) × (c ∷ s ≡ t ++ 0 ∷ behind)))
        (ok-injective (rw z at e)) (tt, (s, ap (λ d. d ∷ s) nul))
  | inr z ↦
      let (t, inner, made) = >>=-eq-ok (string_in s) (λ t. ok (c ∷ t)) (rw z at e) in
      let (plain, (behind, splits)) = string_in-ok s inner in
      subst (λ t. IsCStr t × ((behind : Bytes) × (c ∷ s ≡ t ++ 0 ∷ behind))) (ok-injective made)
        ((ground (arith, z), plain), (behind, ap (◌∷◌ c) splits))
]

zeros-suc : (n : ℕ) → 0 < n → (m : ℕ) × (zeros n ≡ 0 ∷ zeros m)
unfolding zeros
zeros-suc ℕ.zero h = absurd (omega (arith, h))
zeros-suc (ℕ.suc n) h = (n, refl)

-- Where the buffer ends, no terminator of the zeros behind the bytes is left.
text_in :
    (bytes text behind : Bytes) (n : ℕ)
    → bytes ++ zeros n ≡ text ++ 0 ∷ behind
    → IsCStr text
    → ((behind : Bytes) × (bytes ≡ text ++ 0 ∷ behind)) ⊎ ((bytes ≡ text) × (0 < n))
unfolding zeros
text_in [] [] behind ℕ.zero e c = cc
text_in [] [] behind (ℕ.suc n) e c = inr (refl, omega arith)
text_in [] (t ∷ text) behind ℕ.zero e c = cc
text_in [] (t ∷ text) behind (ℕ.suc n) e c = let z : 0 ≡ t = cc in absurd (c.0 (sym z))
text_in (b ∷ bytes) [] behind n e c = let z : b ≡ 0 = cc in inl (bytes, ap (λ d. d ∷ bytes) z)
text_in (b ∷ bytes) (t ∷ text) behind n e c =
    let same : b ≡ t = cc in
    let tails : bytes ++ zeros n ≡ text ++ 0 ∷ behind = cc in
    elim (text_in bytes text behind n tails c.1) [
      | inl (rest, splits) ↦ inl (rest, ap (λ d. d ∷ bytes) same ∙ ap (◌∷◌ t) splits)
      | inr (all, room) ↦ inr (ap (λ d. d ∷ bytes) same ∙ ap (◌∷◌ t) all, room)
    ]

pub config_text-IsText :
    (bytes : Bytes) {text : Bytes} → config_text bytes ≡ ok text → IsText bytes text
unfolding config_text
config_text-IsText bytes {text} e =
    let (plain, (behind, splits)) = string_in-ok (bytes ++ zeros (65536 - length bytes)) e in
    (
      plain,
      elim (text_in bytes text behind (65536 - length bytes) splits plain) [
        | inl inside ↦ inl inside
        | inr (all, room) ↦ inr (all, omega (arith, room))
      ],
    )

pub IsText-config_text : (bytes text : Bytes) → IsText bytes text → config_text bytes ≡ ok text
unfolding config_text
IsText-config_text bytes text (plain, inl (behind, splits)) =
    let tail = zeros (65536 - length bytes) in
    ap (λ b. string_in (b ++ tail)) splits
    ∙ (ap string_in (append_assoc text (0 ∷ behind) tail)
        ∙ string_in-cstr text (behind ++ tail) plain)
IsText-config_text bytes text (plain, inr (all, room)) =
    let (m, z) = zeros-suc (65536 - length bytes) (omega (arith, room)) in
    ap (λ t. string_in (bytes ++ t)) z
    ∙ (ap (λ b. string_in (b ++ 0 ∷ zeros m)) all ∙ string_in-cstr text (zeros m) plain)
