-- ===== src/Linked/Ring.antt =====
-- The operations of cclib/cc_list.c that link nodes in and out keep a ring.
use chttpd.Prelude.{
  ℕ, ◌≡◌, ◌≢◌, refl, sym, ap, inl, inr, Bool-cases, ◌∙◌, true, false, some, List, [], ◌∷◌, ◌++◌,
  ◌==◌, All, All-of_append, All-map, map,
}
use chttpd.Libc.{Bytes, ok}
use chttpd.Linked.{Heap, set, cc_list_insert, cc_list_remove}
use chttpd.Linked.Moves.{
  set-same, set-other, Forth, Avoids, Apart, last_of, first_of, All-last_of, All-first_of,
  Back-first_of, Forth-last_of, Forth-insert, Back-insert, Forth-remove, Back-remove,
}
use chttpd.Linked.Links.{
  Ring, contents, linked_in, linked_out, cc_list_insert-links, cc_list_remove-links,
}

All-insert {κ} :
    (P : ℕ → Type κ) (before behind : List ℕ) (n : ℕ)
    → P n
    → All P (before ++ behind)
    → All P (before ++ n ∷ behind)
All-insert P [] behind n p h = (p, h)
All-insert P (m ∷ ms) behind n p h = (h.0, All-insert P ms behind n p h.1)

All-skip {κ} :
    (P : ℕ → Type κ) (before behind : List ℕ) (n : ℕ)
    → All P (before ++ n ∷ behind)
    → All P (before ++ behind)
All-skip P [] behind n h = h.1
All-skip P (m ∷ ms) behind n h = (h.0, All-skip P ms behind n h.1)

Apart-insert :
    (before behind : List ℕ) (n : ℕ)
    → Avoids n (before ++ behind)
    → Apart (before ++ behind)
    → Apart (before ++ n ∷ behind)
Apart-insert [] behind n f d = (f, d)
Apart-insert (m ∷ ms) behind n f d =
    (All-insert (λ k. m ≢ k) ms behind n (λ e. f.0 (sym e)) d.0, Apart-insert ms behind n f.1 d.1)

Apart-skip :
    (before behind : List ℕ) (n : ℕ) → Apart (before ++ n ∷ behind) → Apart (before ++ behind)
Apart-skip [] behind n d = d.1
Apart-skip (m ∷ ms) behind n d = (All-skip (λ k. m ≢ k) ms behind n d.0, Apart-skip ms behind n d.1)

differ : true ≢ false
differ h = cc

-- The addresses in use are not the one that `malloc` gives.
pub unused :
    (heap : Heap) (new : ℕ) (ns : List ℕ)
    → heap.live new ≡ false
    → All (λ n. heap.live n ≡ true) ns
    → Avoids new ns
unused heap new ns l h =
    All-map (λ n. heap.live n ≡ true) (λ n. new ≢ n) ns
      (λ n a e. differ (sym a ∙ (ap heap.live (sym e) ∙ l))) h

contents-frame :
    (heap : Heap) (new : ℕ) (source : Bytes) (ns : List ℕ)
    → Avoids new ns
    → map (set heap.data_of new source) ns ≡ contents heap ns
contents-frame heap new source [] f = refl
contents-frame heap new source (n ∷ ns) f =
    let same = set-other heap.data_of new source n (λ e. f.0 (sym e)) in
    ap (λ x. x ∷ map (set heap.data_of new source) ns) same
    ∙ ap (◌∷◌ (heap.data_of n)) (contents-frame heap new source ns f.1)

pub contents-insert :
    (heap : Heap) (new : ℕ) (source : Bytes) (before behind : List ℕ)
    → Avoids new (before ++ behind)
    → map (set heap.data_of new source) (before ++ new ∷ behind)
      ≡ contents heap before ++ source ∷ contents heap behind
contents-insert heap new source [] behind f =
    ap (λ x. x ∷ map (set heap.data_of new source) behind) (set-same heap.data_of new source)
    ∙ ap (◌∷◌ source) (contents-frame heap new source behind f)
contents-insert heap new source (n ∷ ns) behind f =
    let same = set-other heap.data_of new source n (λ e. f.0 (sym e)) in
    ap (λ x. x ∷ map (set heap.data_of new source) (ns ++ new ∷ behind)) same
    ∙ ap (◌∷◌ (heap.data_of n)) (contents-insert heap new source ns behind f.1)

live-more : (heap : Heap) (new : ℕ) (n : ℕ) → heap.live n ≡ true → set heap.live new true n ≡ true
live-more heap new n h = elim (Bool-cases (n == new)) [ inl e ↦ rw e refl | inr e ↦ rw e h ]

contents-append :
    (heap : Heap) (ns ms : List ℕ) → contents heap (ns ++ ms) ≡ contents heap ns ++ contents heap ms
contents-append heap [] ms = refl
contents-append heap (n ∷ ns) ms = ap (◌∷◌ (heap.data_of n)) (contents-append heap ns ms)

next-first_of :
    (next : ℕ → ℕ) (a : ℕ) (before : List ℕ) (n : ℕ) (behind : List ℕ) (b : ℕ)
    → Forth next a (before ++ n ∷ behind) b
    → next n ≡ first_of behind b
next-first_of next a [] n behind b h = Forth-last_of next n [] behind b h.1
next-first_of next a (m ∷ ms) n behind b h = next-first_of next m ms n behind b h.1

Apart-Avoids :
    (before behind : List ℕ) (n : ℕ) → Apart (before ++ n ∷ behind) → Avoids n (before ++ behind)
Apart-Avoids [] behind n d = d.0
Apart-Avoids (m ∷ ms) behind n d =
    let others = All-of_append (λ k. m ≢ k) ms (n ∷ behind) d.0 in
    (λ e. others.1.0 (sym e), Apart-Avoids ms behind n d.1)

pub alive-less :
    (heap : Heap) (n : ℕ) (ns : List ℕ)
    → Avoids n ns
    → All (λ k. heap.live k ≡ true) ns
    → All (λ k. set heap.live n false k ≡ true) ns
alive-less heap n [] f h = tt
alive-less heap n (k ∷ ks) f h =
    (set-other heap.live n false k (λ e. f.0 (sym e)) ∙ h.0, alive-less heap n ks f.1 h.1)

module _ (heap : Heap) (list : ℕ) (before behind : List ℕ) where
  pub linked_in-Ring :
      (new : ℕ) (source : Bytes)
      → Ring heap list (before ++ behind)
      → heap.live new ≡ false
      → Ring
          (linked_in heap new (last_of list before) (first_of behind list) source)
          list
          (before ++ new ∷ behind)
  linked_in-Ring new source h l =
      let f = unused heap new (list ∷ before ++ behind) l h.alive in
      record {
        forth = Forth-insert heap.next new list before behind list h.apart f h.forth;
        back = Back-insert heap.prev new list before behind list h.apart.1 f.1 f.0 h.apart.0 h.back;
        apart = Apart-insert (list ∷ before) behind new f h.apart;
        alive = All-insert _ (list ∷ before) behind new (set-same heap.live new true) (
            All-map (λ n. heap.live n ≡ true) _ (list ∷ before ++ behind) (live-more heap new)
              h.alive);
      }

  -- `cc_list_insert` at a place of the ring, with an address that is not in use: no link is read or
  -- written at an address that is not in use, the ring has the new node before that place, and the
  -- other nodes keep their elements. At the end this is `cc_list_push_back`.
  pub cc_list_insert-Ring :
      (new : ℕ) (source : Bytes)
      → Ring heap list (before ++ behind)
      → heap.live new ≡ false
      → (after : Heap) × (cc_list_insert heap (some new) (first_of behind list) source ≡ ok after)
        × Ring after list (before ++ new ∷ behind)
        × (contents after (before ++ new ∷ behind)
            ≡ contents heap before ++ source ∷ contents heap behind)
  cc_list_insert-Ring new source h l =
      let p = last_of list before in
      let q = first_of behind list in
      let f = unused heap new (list ∷ before ++ behind) l h.alive in
      let lp = All-last_of (λ n. heap.live n ≡ true) list before behind h.alive.0 h.alive.1 in
      let lq = All-first_of (λ n. heap.live n ≡ true) before behind list h.alive.1 h.alive.0 in
      let fp = All-last_of (λ n. new ≢ n) list before behind f.0 f.1 in
      let fq = All-first_of (λ n. new ≢ n) before behind list f.1 f.0 in
      (
        linked_in heap new p q source,
        cc_list_insert-links heap new p q source
            (Back-first_of heap.prev list before behind list h.back) lq lp (λ e. fq (sym e))
            (λ e. fp (sym e)),
        linked_in-Ring new source h l,
        contents-insert heap new source before behind f.1,
      )

  -- `cc_list_remove` of a node of the ring: the ring is left without it, its address is no longer in
  -- use, and the other nodes keep their elements.
  pub cc_list_remove-Ring :
      (n : ℕ)
      → Ring heap list (before ++ n ∷ behind)
      → (after : Heap) × (cc_list_remove heap n ≡ ok after)
        × Ring after list (before ++ behind)
        × (after.live n ≡ false)
        × (contents after (before ++ behind) ≡ contents heap before ++ contents heap behind)
  cc_list_remove-Ring n h =
      let p = last_of list before in
      let q = first_of behind list in
      let f = Apart-Avoids (list ∷ before) behind n h.apart in
      let kept = All-skip (λ k. heap.live k ≡ true) (list ∷ before) behind n h.alive in
      let ln =
        All-first_of (λ k. heap.live k ≡ true) before (n ∷ behind) list h.alive.1 h.alive.0 in
      let lp = All-last_of (λ k. heap.live k ≡ true) list before behind kept.0 kept.1 in
      let lq = All-first_of (λ k. heap.live k ≡ true) before behind list kept.1 kept.0 in
      let fp = All-last_of (λ k. n ≢ k) list before behind f.0 f.1 in
      (
        linked_out heap n p q,
        cc_list_remove-links heap n p q
            (Back-first_of heap.prev list before (n ∷ behind) list h.back)
            (next-first_of heap.next list before n behind list h.forth) ln lp lq (λ e. fp (sym e)),
        record {
          forth = Forth-remove heap.next list before n behind list h.apart h.forth;
          back = Back-remove heap.prev list before n behind list h.apart.1 h.apart.0 h.back;
          apart = Apart-skip (list ∷ before) behind n h.apart;
          alive = alive-less heap n (list ∷ before ++ behind) f kept;
        },
        set-same heap.live n false,
        contents-append heap before behind,
      )
