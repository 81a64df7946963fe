-- ===== src/Util/Log/Bounds.antt =====
-- The buffer of `chttpdLog` of src/util.c is large enough, and is not kept by the workers' threads.
use chttpd.Prelude.{
  ℕ, suc, ◌+◌, ◌≤◌, ◌≡◌, refl, ap, ◌∙◌, ◌⊎◌, inl, inr, true, false, Bool-cases, Option, none, some,
  Option-cases, [], ◌∷◌, ◌++◌, ◌==◌, leb, ltb, arith, length, length-append, drop,
}
use chttpd.Libc.{Bytes, IsCStr, Result, ok, fault, null_pointer, ◌>>=◌, until_nul}
use chttpd.Util.Log.{Logger, Place, is_main, require, store_message, log_line, release, chttpd_log}

-- The buffer has the size that is noted for it.
abbrev pub IsBuffer : Option Bytes → ℕ → Type 0
IsBuffer none size = size ≡ 0
IsBuffer (some block) size = length block ≡ size

abbrev pub MallocOk : (ℕ → Option Bytes) → Type 0
MallocOk malloc = (n : ℕ) (block : Bytes) → malloc n ≡ some block → length block ≡ n

-- What a call of `chttpdLog` comes to.
abbrev pub Logged : (ℕ → Option Bytes) → Logger → Place → Bytes → Type 0
Logged malloc logger place message =
    ((chttpd_log malloc logger place message ≡ fault null_pointer)
      × (malloc (length message + 1) ≡ none))
    ⊎ ((after : Logger) × (chttpd_log malloc logger place message
          ≡ ok (after, log_line place logger.worker_id message))
        × IsBuffer after.buffer after.buffer_size
        × ((is_main logger.worker_id ≡ true) ⊎ (after.buffer ≡ none)))

until_nul-message : (s more : Bytes) → IsCStr s → until_nul (s ++ 0 ∷ more) ≡ s
unfolding until_nul
until_nul-message [] more h = refl
until_nul-message (c ∷ s) more h =
    let plain : (c == 0) ≡ false = ground (arith, h.0) in
    rw plain (ap (◌∷◌ c) (until_nul-message s more h.1))

length-drop : (n : ℕ) (xs : Bytes) → n ≤ length xs → n + length (drop n xs) ≡ length xs
length-drop ℕ.zero xs h = omega arith
length-drop (suc n) [] h = absurd (omega (arith, h))
length-drop (suc n) (x ∷ xs) h = omega (arith, length-drop n xs (omega (arith, h)))

release-IsBuffer :
    (logger : Logger)
    → IsBuffer logger.buffer logger.buffer_size
    → IsBuffer (release logger).buffer (release logger).buffer_size
      × ((is_main logger.worker_id ≡ true) ⊎ ((release logger).buffer ≡ none))
unfolding release
release-IsBuffer logger h = elim (Bool-cases (is_main logger.worker_id)) [
  | inl e ↦ rw e (h, inl refl)
  | inr e ↦ rw e (refl, inr refl)
]

has_block :
    (o : Option Bytes) (size n : ℕ)
    → IsBuffer o size
    → ltb size (n + 1) ≡ false
    → (block : Bytes) × (o ≡ some block) × (length block ≡ size)
has_block none size n h e = absurd (ground (arith, h))
has_block (some block) size n h e = (block, refl, h)

module _ (malloc : ℕ → Option Bytes) (place : Place) (message : Bytes) where
  -- `chttpdLog` behind the test of the size.
  behind : Logger → Logger → Result (Logger × Bytes)
  behind logger logger' = store_message logger'.buffer message >>= λ block. ok (
    release (record logger' { buffer = some block }),
    log_line place logger.worker_id (until_nul block),
  )

  behind-fits :
      (logger : Logger) (block : Bytes) (size : ℕ)
      → IsCStr message
      → length message + 1 ≤ length block
      → length block ≡ size
      → (after : Logger) × (behind logger
            (record logger { buffer = some block; buffer_size = size })
          ≡ ok (after, log_line place logger.worker_id message))
        × IsBuffer after.buffer after.buffer_size
        × ((is_main logger.worker_id ≡ true) ⊎ (after.buffer ≡ none))
  unfolding behind store_message
  behind-fits logger block size c h e =
      let fits : leb (length message + 1) (length block) ≡ true = ground arith in
      let more = drop (length message + 1) block in
      let filled = record logger { buffer = some (message ++ 0 ∷ more); buffer_size = size } in
      let sized : length (message ++ 0 ∷ more) ≡ size =
        omega
          (arith, length-append message (0 ∷ more), length-drop (length message + 1) block h, e) in
      let (kept, freed) = release-IsBuffer filled sized in
      (
        release filled,
        rw (fits, store_message)
            (ap (λ s. ok (release filled, log_line place logger.worker_id s))
              (until_nul-message message more c)),
        kept,
        freed,
      )

  -- `chttpdLog` writes the line for its message, as a string without terminators, and stays within
  -- its buffer, whatever messages came before; a thread with a number has no buffer behind it. Only
  -- where there is no memory for the message does it write through `NULL`.
  pub chttpd_log-Logged :
      (logger : Logger)
      → MallocOk malloc
      → IsBuffer logger.buffer logger.buffer_size
      → IsCStr message
      → Logged malloc logger place message
  unfolding chttpd_log require behind
  chttpd_log-Logged logger m h c = elim (Bool-cases (ltb logger.buffer_size (length message + 1))) [
    | inl e ↦ elim (Option-cases (malloc (length message + 1))) [
      | inl f ↦ inl (rw (e, chttpd_log) (rw f (unfold store_message in refl)), f)
      | inr (block, f) ↦
          let size = m (length message + 1) block f in
          inr (
            rw (e, chttpd_log)
              (rw f (behind-fits logger block (length message + 1) c (omega (arith, size)) size)))
    ]
    | inr e ↦
        let (block, has, size) = has_block logger.buffer logger.buffer_size (length message) h e in
        let enough : length message + 1 ≤ length block = ground arith in
        let (after, writes, kept, freed) =
          behind-fits logger block logger.buffer_size c enough size in
        inr (
          after,
          rw (e, chttpd_log) (ap (λ b. behind logger (record logger { buffer = b })) has ∙ writes),
          kept,
          freed,
        )
  ]
