-- ===== src/Linked/Moves.antt =====
-- Chains of links, and what they become when a node is linked in or out, as in cclib/cc_list.c.
use chttpd.Prelude.{
  ℕ, ◌≡◌, ◌≢◌, refl, sym, ◌∙◌, true, false, List, [], ◌∷◌, ◌++◌, ◌==◌, arith, All, All-of_append,
}
use chttpd.Linked.{set}

module _ {ℓ} {A : Type ℓ} where
  pub set-same : (f : ℕ → A) (k : ℕ) (v : A) → set f k v k ≡ v
  set-same f k v = let same : (k == k) ≡ true = ground arith in rw same refl

  pub set-other : (f : ℕ → A) (k : ℕ) (v : A) (n : ℕ) → n ≢ k → set f k v n ≡ f n
  set-other f k v n h = let other : (n == k) ≡ false = ground arith in rw other refl

-- The nodes between two, in the order of the `next` links, and of the `prev` links backwards.
abbrev pub Forth : (ℕ → ℕ) → ℕ → List ℕ → ℕ → Type 0
Forth next a [] b = next a ≡ b
Forth next a (n ∷ ns) b = (next a ≡ n) × Forth next n ns b

abbrev pub Back : (ℕ → ℕ) → ℕ → List ℕ → ℕ → Type 0
Back prev a [] b = prev b ≡ a
Back prev a (n ∷ ns) b = (prev n ≡ a) × Back prev n ns b

abbrev pub Avoids : ℕ → List ℕ → Type 0
Avoids k = All (λ n. k ≢ n)

abbrev pub Apart : List ℕ → Type 0
Apart [] = Unit
Apart (n ∷ ns) = Avoids n ns × Apart ns

-- The last node of a chain from `a`, and the first of one to `b`.
abbrev pub last_of : ℕ → List ℕ → ℕ
last_of a [] = a
last_of a (n ∷ ns) = last_of n ns

abbrev pub first_of : List ℕ → ℕ → ℕ
first_of [] b = b
first_of (n ∷ ns) b = n

pub All-last_of {κ} :
    (P : ℕ → Type κ) (a : ℕ) (before behind : List ℕ)
    → P a
    → All P (before ++ behind)
    → P (last_of a before)
All-last_of P a [] behind p h = p
All-last_of P a (n ∷ ns) behind p h = All-last_of P n ns behind h.0 h.1

pub All-first_of {κ} :
    (P : ℕ → Type κ) (before behind : List ℕ) (b : ℕ)
    → All P (before ++ behind)
    → P b
    → P (first_of behind b)
All-first_of P [] [] b h p = p
All-first_of P [] (n ∷ ns) b h p = h.0
All-first_of P (m ∷ ms) behind b h p = All-first_of P ms behind b h.1 p

pub Back-first_of :
    (prev : ℕ → ℕ) (a : ℕ) (before behind : List ℕ) (b : ℕ)
    → Back prev a (before ++ behind) b
    → prev (first_of behind b) ≡ last_of a before
Back-first_of prev a [] [] b h = h
Back-first_of prev a [] (n ∷ ns) b h = h.0
Back-first_of prev a (m ∷ ms) behind b h = Back-first_of prev m ms behind b h.1

-- The `next` link of the last node before the gap.
pub Forth-last_of :
    (next : ℕ → ℕ) (a : ℕ) (before behind : List ℕ) (b : ℕ)
    → Forth next a (before ++ behind) b
    → next (last_of a before) ≡ first_of behind b
Forth-last_of next a [] [] b h = h
Forth-last_of next a [] (n ∷ ns) b h = h.0
Forth-last_of next a (m ∷ ms) behind b h = Forth-last_of next m ms behind b h.1

Forth-frame :
    (next : ℕ → ℕ) (k v a : ℕ) (ns : List ℕ) (b : ℕ)
    → Avoids k (a ∷ ns)
    → Forth next a ns b
    → Forth (set next k v) a ns b
Forth-frame next k v a [] b f h = set-other next k v a (λ e. f.0 (sym e)) ∙ h
Forth-frame next k v a (n ∷ ns) b f h =
    (set-other next k v a (λ e. f.0 (sym e)) ∙ h.0, Forth-frame next k v n ns b f.1 h.1)

Back-frame :
    (prev : ℕ → ℕ) (k v a : ℕ) (ns : List ℕ) (b : ℕ)
    → Avoids k ns
    → k ≢ b
    → Back prev a ns b
    → Back (set prev k v) a ns b
Back-frame prev k v a [] b f g h = set-other prev k v b (λ e. g (sym e)) ∙ h
Back-frame prev k v a (n ∷ ns) b f g h =
    (set-other prev k v n (λ e. f.0 (sym e)) ∙ h.0, Back-frame prev k v n ns b f.1 g h.1)

-- The links of `cc_list_insert`, from the new node on and from the start of the chain.
Forth-new :
    (next : ℕ → ℕ) (new a : ℕ) (behind : List ℕ) (b : ℕ)
    → Apart (a ∷ behind)
    → Avoids new (a ∷ behind)
    → Forth next a behind b
    → Forth (set (set next new (first_of behind b)) a new) new behind b
Forth-new next new a [] b d f h = set-other (set next new b) a new new f.0 ∙ set-same next new b
Forth-new next new a (n ∷ ns) b d f h = (
  set-other (set next new n) a new new f.0 ∙ set-same next new n,
  Forth-frame (set next new n) a new n ns b d.0 (Forth-frame next new n n ns b f.1 h.1),
)

pub Forth-insert :
    (next : ℕ → ℕ) (new a : ℕ) (before behind : List ℕ) (b : ℕ)
    → Apart (a ∷ before ++ behind)
    → Avoids new (a ∷ before ++ behind)
    → Forth next a (before ++ behind) b
    → Forth
        (set (set next new (first_of behind b)) (last_of a before) new)
        a
        (before ++ new ∷ behind)
        b
Forth-insert next new a [] behind b d f h =
    (set-same (set next new (first_of behind b)) a new, Forth-new next new a behind b d f h)
Forth-insert next new a (c ∷ cs) behind b d f h =
    let apart : a ≢ last_of c cs = All-last_of (λ n. a ≢ n) c cs behind d.0.0 d.0.1 in
    (
      set-other (set next new (first_of behind b)) (last_of c cs) new a apart
          ∙ (set-other next new (first_of behind b) a (λ e. f.0 (sym e)) ∙ h.0),
      Forth-insert next new c cs behind b d.1 f.1 h.1,
    )

Back-new :
    (prev : ℕ → ℕ) (new a : ℕ) (behind : List ℕ) (b : ℕ)
    → Apart behind
    → Avoids new behind
    → new ≢ b
    → Avoids b behind
    → Back prev a behind b
    → Back (set (set prev new a) (first_of behind b) new) new behind b
Back-new prev new a [] b d f g k h = set-same (set prev new a) b new
Back-new prev new a (n ∷ ns) b d f g k h = (
  set-same (set prev new a) n new,
  Back-frame (set prev new a) n new n ns b d.0 (λ e. k.0 (sym e))
      (Back-frame prev new a n ns b f.1 g h.1),
)

pub Back-insert :
    (prev : ℕ → ℕ) (new a : ℕ) (before behind : List ℕ) (b : ℕ)
    → Apart (before ++ behind)
    → Avoids new (before ++ behind)
    → new ≢ b
    → Avoids b (before ++ behind)
    → Back prev a (before ++ behind) b
    → Back
        (set (set prev new (last_of a before)) (first_of behind b) new)
        a
        (before ++ new ∷ behind)
        b
Back-insert prev new a [] behind b d f g k h =
    let apart : new ≢ first_of behind b = All-first_of (λ n. new ≢ n) [] behind b f g in
    (
      set-other (set prev new a) (first_of behind b) new new apart ∙ set-same prev new a,
      Back-new prev new a behind b d f g k h,
    )
Back-insert prev new a (c ∷ cs) behind b d f g k h =
    let apart : c ≢ first_of behind b =
      All-first_of (λ n. c ≢ n) cs behind b d.0 (λ e. k.0 (sym e)) in
    (
      set-other (set prev new (last_of c cs)) (first_of behind b) new c apart
          ∙ (set-other prev new (last_of c cs) c (λ e. f.0 (sym e)) ∙ h.0),
      Back-insert prev new c cs behind b d.1 f.1 g k.1 h.1,
    )

-- The links of `cc_list_remove`, of the node `n`.
pub Forth-remove :
    (next : ℕ → ℕ) (a : ℕ) (before : List ℕ) (n : ℕ) (behind : List ℕ) (b : ℕ)
    → Apart (a ∷ before ++ n ∷ behind)
    → Forth next a (before ++ n ∷ behind) b
    → Forth (set next (last_of a before) (first_of behind b)) a (before ++ behind) b
Forth-remove next a [] n [] b d h = set-same next a b
Forth-remove next a [] n (m ∷ ms) b d h =
    (set-same next a m, Forth-frame next a m m ms b d.0.1 h.1.1)
Forth-remove next a (c ∷ cs) n behind b d h =
    let apart : a ≢ last_of c cs = All-last_of (λ n. a ≢ n) c cs (n ∷ behind) d.0.0 d.0.1 in
    (
      set-other next (last_of c cs) (first_of behind b) a apart ∙ h.0,
      Forth-remove next c cs n behind b d.1 h.1,
    )

pub Back-remove :
    (prev : ℕ → ℕ) (a : ℕ) (before : List ℕ) (n : ℕ) (behind : List ℕ) (b : ℕ)
    → Apart (before ++ n ∷ behind)
    → Avoids b (before ++ n ∷ behind)
    → Back prev a (before ++ n ∷ behind) b
    → Back (set prev (first_of behind b) (last_of a before)) a (before ++ behind) b
Back-remove prev a [] n [] b d k h = set-same prev b a
Back-remove prev a [] n (m ∷ ms) b d k h =
    (set-same prev m a, Back-frame prev m a m ms b d.1.0 (λ e. k.1.0 (sym e)) h.1.1)
Back-remove prev a (c ∷ cs) n behind b d k h =
    let others = All-of_append (λ m. c ≢ m) cs (n ∷ behind) d.0 in
    let apart : c ≢ first_of behind b =
      All-first_of (λ m. c ≢ m) [] behind b others.1.1 (λ e. k.0 (sym e)) in
    (
      set-other prev (first_of behind b) (last_of c cs) c apart ∙ h.0,
      Back-remove prev c cs n behind b d.1 k.1 h.1,
    )
