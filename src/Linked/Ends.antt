-- ===== src/Linked/Ends.antt =====
-- The operations of cclib/cc_list.c at the ends of a list.
use chttpd.Prelude.{
  ℕ, ◌≡◌, ◌≢◌, refl, sym, ap, ◌∙◌, true, false, some, List, [], ◌∷◌, ◌++◌, ◌==◌, arith,
}
use chttpd.Libc.{Bytes, ok}
use chttpd.Linked.{
  Heap, set, new_node, cc_list_empty, cc_list_remove, cc_list_push_front, cc_list_pop_back,
  cc_list_pop_front,
}
use chttpd.Linked.Moves.{set-same, set-other, Back, first_of, All-first_of}
use chttpd.Linked.Destroy.{first-Forth}
use chttpd.Linked.Links.{
  Ring, contents, >>=-ok, get_prev-ok, get_next-ok, set_prev-ok, set_next-ok, free_node-ok,
  linked_in, cc_list_remove-links,
}
use chttpd.Linked.Ring.{linked_in-Ring, unused, contents-insert}

module _ (heap : Heap) (list : ℕ) where
  push_front-links :
      (new q : ℕ) (source : Bytes)
      → heap.next list ≡ q
      → heap.live list ≡ true
      → heap.live q ≡ true
      → list ≢ new
      → q ≢ new
      → cc_list_push_front heap (some new) list source ≡ ok (linked_in heap new list q source)
  unfolding cc_list_push_front new_node
  push_front-links new q source e ll lq hl hq =
      let live = set heap.live new true in
      let at_new : live new ≡ true = set-same heap.live new true in
      let at_q : live q ≡ true = set-other heap.live new true q hq ∙ lq in
      let at_list : live list ≡ true = set-other heap.live new true list hl ∙ ll in
      let h0 = record heap { live = live; data_of = set heap.data_of new source } in
      let h1 = record h0 { prev = set heap.prev new list } in
      let h2 = record h1 { next = set heap.next new q } in
      let h3 = record h2 { prev = set (set heap.prev new list) q new } in
      >>=-ok _ (set_prev-ok h0 new list at_new) (
        >>=-ok _ (get_next-ok h1 list q at_list e) (
          >>=-ok _ (set_next-ok h1 new q at_new) (
            >>=-ok _ (get_next-ok h2 list q at_list (set-other heap.next new q list hl ∙ e))
              (>>=-ok _ (set_prev-ok h2 q new at_q) (set_next-ok h3 list new at_list)))))

  first-live : (ns : List ℕ) → Ring heap list ns → heap.live (first_of ns list) ≡ true
  first-live [] h = h.alive.0
  first-live (n ∷ ns) h = h.alive.1.0

  -- `cc_list_push_front`, with an address that is not in use, puts the new node first.
  pub cc_list_push_front-Ring :
      (ns : List ℕ) (new : ℕ) (source : Bytes)
      → Ring heap list ns
      → heap.live new ≡ false
      → (after : Heap) × (cc_list_push_front heap (some new) list source ≡ ok after)
        × Ring after list (new ∷ ns)
        × (contents after (new ∷ ns) ≡ source ∷ contents heap ns)
  cc_list_push_front-Ring ns new source h l =
      let q = first_of ns list in
      let f = unused heap new (list ∷ ns) l h.alive in
      (
        linked_in heap new list q source,
        push_front-links new q source (first-Forth heap.next list ns list h.forth) h.alive.0
            (first-live ns h) (λ e. f.0 (sym e))
            (λ e. All-first_of (λ n. new ≢ n) [] ns list f.1 f.0 (sym e)),
        linked_in-Ring heap list [] ns new source h l,
        contents-insert heap new source [] ns f.1,
      )

  is_empty-false :
      (n : ℕ) (ns : List ℕ) → Ring heap list (n ∷ ns) → cc_list_empty heap list ≡ ok false
  unfolding cc_list_empty
  is_empty-false n ns h =
      let other : (n == list) ≡ false = ground (arith, h.apart.0.0) in
      >>=-ok _ (get_next-ok heap list n h.alive.0 h.forth.0) (ap ok other)

  end-Back :
      (prev : ℕ → ℕ) (a : ℕ) (before : List ℕ) (n b : ℕ)
      → Back prev a (before ++ n ∷ []) b
      → prev b ≡ n
  end-Back prev a [] n b h = h.1
  end-Back prev a (m ∷ ms) n b h = end-Back prev m ms n b h.1

  not_empty :
      (before : List ℕ) (n : ℕ)
      → Ring heap list (before ++ n ∷ [])
      → cc_list_empty heap list ≡ ok false
  not_empty [] n h = is_empty-false n [] h
  not_empty (m ∷ ms) n h = is_empty-false m (ms ++ n ∷ []) h

  -- `cc_list_pop_back` and `cc_list_pop_front` are `cc_list_remove` of the last and the first node.
  pub cc_list_pop_back-remove :
      (before : List ℕ) (n : ℕ)
      → Ring heap list (before ++ n ∷ [])
      → cc_list_pop_back heap list ≡ cc_list_remove heap n
  unfolding cc_list_pop_back
  cc_list_pop_back-remove before n h = >>=-ok _ (not_empty before n h) (
      >>=-ok _ (get_prev-ok heap list n h.alive.0 (end-Back heap.prev list before n list h.back))
        refl)

  pub cc_list_pop_front-remove :
      (n : ℕ) (ns : List ℕ)
      → Ring heap list (n ∷ ns)
      → cc_list_pop_front heap list ≡ cc_list_remove heap n
  unfolding cc_list_pop_front
  cc_list_pop_front-remove n ns h =
      let q = first_of ns list in
      let ln = h.alive.1.0 in
      let lq = All-first_of (λ k. heap.live k ≡ true) [] ns list h.alive.1.1 h.alive.0 in
      let to_n = h.forth.0 in
      let to_q = first-Forth heap.next n ns list h.forth.1 in
      let to_list = h.back.0 in
      let apart : n ≢ q =
        All-first_of (λ k. n ≢ k) [] ns list h.apart.1.0 (λ e. h.apart.0.0 (sym e)) in
      let h1 = record heap { prev = set heap.prev q list } in
      let h2 = record h1 { next = set heap.next list q } in
      >>=-ok _ (is_empty-false n ns h) (
        >>=-ok _ (get_next-ok heap list n h.alive.0 to_n) (
          >>=-ok _ (get_next-ok heap n q ln to_q) (
            >>=-ok _ (get_prev-ok heap n list ln to_list) (
              >>=-ok _ (set_prev-ok heap q list lq) (
                >>=-ok _ (get_prev-ok h1 n list ln (set-other heap.prev q list n apart ∙ to_list)) (
                  >>=-ok _ (get_next-ok h1 n q ln to_q)
                    (>>=-ok _ (set_next-ok h1 list q h.alive.0) (free_node-ok h2 n ln))))))))
      ∙ sym (cc_list_remove-links heap n list q to_list to_q ln h.alive.0 lq h.apart.0.0)
