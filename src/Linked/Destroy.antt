-- ===== src/Linked/Destroy.antt =====
-- The loops of cclib/cc_list.c over a ring.
use chttpd.Prelude.{
  ℕ, zero, suc, ◌<◌, ◌≡◌, refl, ap, ◌∙◌, true, false, List, [], ◌∷◌, ◌==◌, arith, All, length,
}
use chttpd.Libc.{ok}
use chttpd.Linked.{Heap, set, destroy_loop, cc_list_destroy, size_loop, cc_list_size}
use chttpd.Linked.Moves.{set-same, set-other, Forth, Avoids, Apart, first_of}
use chttpd.Linked.Links.{Ring, >>=-ok, get_next-ok, free_node-ok}
use chttpd.Linked.Ring.{alive-less}

pub first-Forth :
    (next : ℕ → ℕ) (a : ℕ) (ns : List ℕ) (b : ℕ) → Forth next a ns b → next a ≡ first_of ns b
first-Forth next a [] b h = h
first-Forth next a (n ∷ ns) b h = h.0

-- The loop over the nodes that are left, the first of which is still in use.
destroy_loop-frees :
    (fuel : ℕ) (heap : Heap) (list a : ℕ) (ns : List ℕ)
    → length ns < fuel
    → Forth heap.next a ns list
    → Apart (list ∷ ns)
    → All (λ n. heap.live n ≡ true) ns
    → (after : Heap) × (destroy_loop fuel heap list (first_of ns list) ≡ ok (after, ns))
      × All (λ n. after.live n ≡ false) ns
      × ((n : ℕ) → Avoids n ns → after.live n ≡ heap.live n)
unfolding destroy_loop
destroy_loop-frees zero heap list a ns f h d l = absurd (omega (arith, f))
destroy_loop-frees (suc fuel) heap list a [] f h d l =
    let stops : (list == list) ≡ true = ground arith in
    (heap, rw (stops, destroy_loop) refl, tt, λ n q. refl)
destroy_loop-frees (suc fuel) heap list a (n ∷ ns) f h d l =
    let goes : (n == list) ≡ false = ground (arith, d.0.0) in
    let freed = record heap { live = set heap.live n false } in
    let left = alive-less heap n ns d.1.0 l.1 in
    let (after, ends, gone, others) =
      destroy_loop-frees fuel freed list n ns (omega (arith, f)) h.1 (d.0.1, d.1.1) left in
    (
      after,
      rw (goes, destroy_loop)
          (>>=-ok _ (get_next-ok heap n _ l.0 (first-Forth heap.next n ns list h.1))
            (>>=-ok _ (free_node-ok heap n l.0) (>>=-ok _ ends refl))),
      (others n d.1.0 ∙ set-same heap.live n false, gone),
      λ k q. others k q.1 ∙ set-other heap.live n false k q.0,
    )

-- `cc_list_destroy`, with fuel for more rounds than there are nodes, frees each node of the list once,
-- in their order, and no other address; it reads no node that it has freed.
pub cc_list_destroy-frees :
    (fuel : ℕ) (heap : Heap) (list : ℕ) (ns : List ℕ)
    → length ns < fuel
    → Ring heap list ns
    → (after : Heap) × (cc_list_destroy fuel heap list ≡ ok (after, ns))
      × All (λ n. after.live n ≡ false) ns
      × ((n : ℕ) → Avoids n ns → after.live n ≡ heap.live n)
unfolding cc_list_destroy
cc_list_destroy-frees fuel heap list ns f h =
    let (after, ends, gone, others) =
      destroy_loop-frees fuel heap list list ns f h.forth h.apart h.alive.1 in
    (
      after,
      >>=-ok _ (get_next-ok heap list _ h.alive.0 (first-Forth heap.next list ns list h.forth))
          ends,
      gone,
      others,
    )

size_loop-length :
    (fuel : ℕ) (heap : Heap) (list a : ℕ) (ns : List ℕ)
    → length ns < fuel
    → Forth heap.next a ns list
    → Avoids list ns
    → All (λ n. heap.live n ≡ true) ns
    → size_loop fuel heap list (first_of ns list) ≡ ok (length ns)
unfolding size_loop
size_loop-length zero heap list a ns f h d l = absurd (omega (arith, f))
size_loop-length (suc fuel) heap list a [] f h d l =
    let stops : (list == list) ≡ true = ground arith in rw (stops, size_loop) refl
size_loop-length (suc fuel) heap list a (n ∷ ns) f h d l =
    let goes : (n == list) ≡ false = ground (arith, d.0) in
    rw (goes, size_loop)
      (>>=-ok _ (get_next-ok heap n _ l.0 (first-Forth heap.next n ns list h.1)) (
        >>=-ok _ (size_loop-length fuel heap list n ns (omega (arith, f)) h.1 d.1 l.1)
          (ap ok (omega arith))))

-- `cc_list_size`, with fuel for more rounds than there are nodes, counts them.
pub cc_list_size-length :
    (fuel : ℕ) (heap : Heap) (list : ℕ) (ns : List ℕ)
    → length ns < fuel
    → Ring heap list ns
    → cc_list_size fuel heap list ≡ ok (length ns)
unfolding cc_list_size
cc_list_size-length fuel heap list ns f h =
    >>=-ok _ (get_next-ok heap list _ h.alive.0 (first-Forth heap.next list ns list h.forth))
      (size_loop-length fuel heap list list ns f h.forth h.apart.0 h.alive.1)
