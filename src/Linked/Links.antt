-- ===== src/Linked/Links.antt =====
-- What a list of cclib/cc_list.c is, and the links that its operations write.
use chttpd.Prelude.{ℕ, ◌≡◌, ◌≢◌, refl, sym, ap, ◌∙◌, true, false, some, List, ◌∷◌, All, map}
use chttpd.Libc.{Bytes, Result, ok, ◌>>=◌}
use chttpd.Linked.{
  Heap, set, get_prev, get_next, set_prev, set_next, free_node, new_node, cc_list_insert,
  cc_list_remove,
}
use chttpd.Linked.Moves.{set-same, set-other, Forth, Back, Apart}

-- The nodes of the list, first to last: linked both ways, all different, all in use.
pub record Ring (heap : Heap) (list : ℕ) (ns : List ℕ) : Type 0 where
  pub forth : Forth heap.next list ns list
  pub back : Back heap.prev list ns list
  pub apart : Apart (list ∷ ns)
  pub alive : All (λ n. heap.live n ≡ true) (list ∷ ns)

abbrev pub contents : Heap → List ℕ → List Bytes
contents heap ns = map heap.data_of ns

pub >>=-ok {ℓ κ} :
    {A : Type ℓ} {B : Type κ} {m : Result A} {a : A} {r : Result B} (f : A → Result B)
    → m ≡ ok a
    → f a ≡ r
    → (m >>= f) ≡ r
>>=-ok f e k = ap (λ m. m >>= f) e ∙ k

-- Accesses to nodes in use.
pub get_prev-ok :
    (heap : Heap) (n v : ℕ) → heap.live n ≡ true → heap.prev n ≡ v → get_prev heap n ≡ ok v
unfolding get_prev
get_prev-ok heap n v l e = rw l (ap ok e)

pub get_next-ok :
    (heap : Heap) (n v : ℕ) → heap.live n ≡ true → heap.next n ≡ v → get_next heap n ≡ ok v
unfolding get_next
get_next-ok heap n v l e = rw l (ap ok e)

pub set_prev-ok :
    (heap : Heap) (n v : ℕ)
    → heap.live n ≡ true
    → set_prev heap n v ≡ ok (record heap { prev = set heap.prev n v })
unfolding set_prev
set_prev-ok heap n v l = rw l refl

pub set_next-ok :
    (heap : Heap) (n v : ℕ)
    → heap.live n ≡ true
    → set_next heap n v ≡ ok (record heap { next = set heap.next n v })
unfolding set_next
set_next-ok heap n v l = rw l refl

pub free_node-ok :
    (heap : Heap) (n : ℕ)
    → heap.live n ≡ true
    → free_node heap n ≡ ok (record heap { live = set heap.live n false })
unfolding free_node
free_node-ok heap n l = rw l refl

-- The heap behind the links of a new node between `p` and `q`, and of a node taken out.
abbrev pub linked_in : Heap → ℕ → ℕ → ℕ → Bytes → Heap
linked_in heap new p q source = record {
  live = set heap.live new true;
  data_of = set heap.data_of new source;
  prev = set (set heap.prev new p) q new;
  next = set (set heap.next new q) p new;
}

abbrev pub linked_out : Heap → ℕ → ℕ → ℕ → Heap
linked_out heap n p q = record heap {
  live = set heap.live n false;
  prev = set heap.prev q p;
  next = set heap.next p q;
}

pub cc_list_insert-links :
    (heap : Heap) (new p q : ℕ) (source : Bytes)
    → heap.prev q ≡ p
    → heap.live q ≡ true
    → heap.live p ≡ true
    → q ≢ new
    → p ≢ new
    → cc_list_insert heap (some new) q source ≡ ok (linked_in heap new p q source)
unfolding cc_list_insert new_node
cc_list_insert-links heap new p q source e lq lp hq hp =
    let live = set heap.live new true in
    let at_new : live new ≡ true = set-same heap.live new true in
    let at_q : live q ≡ true = set-other heap.live new true q hq ∙ lq in
    let at_p : live p ≡ true = set-other heap.live new true p hp ∙ lp in
    let h0 = record heap { live = live; data_of = set heap.data_of new source } in
    let h1 = record h0 { prev = set heap.prev new p } in
    let h2 = record h1 { next = set heap.next new q } in
    let h3 = record h2 { next = set (set heap.next new q) p new } in
    >>=-ok _ (get_prev-ok h0 q p at_q e) (
      >>=-ok _ (set_prev-ok h0 new p at_new) (
        >>=-ok _ (set_next-ok h1 new q at_new) (
          >>=-ok _ (get_prev-ok h2 q p at_q (set-other heap.prev new p q hq ∙ e))
            (>>=-ok _ (set_next-ok h2 p new at_p) (set_prev-ok h3 q new at_q)))))

pub cc_list_remove-links :
    (heap : Heap) (n p q : ℕ)
    → heap.prev n ≡ p
    → heap.next n ≡ q
    → heap.live n ≡ true
    → heap.live p ≡ true
    → heap.live q ≡ true
    → p ≢ n
    → cc_list_remove heap n ≡ ok (linked_out heap n p q)
unfolding cc_list_remove
cc_list_remove-links heap n p q e f ln lp lq h =
    let h1 = record heap { next = set heap.next p q } in
    let h2 = record h1 { prev = set heap.prev q p } in
    >>=-ok _ (get_prev-ok heap n p ln e) (
      >>=-ok _ (get_next-ok heap n q ln f) (
        >>=-ok _ (set_next-ok heap p q lp) (
          >>=-ok _ (get_next-ok h1 n q ln (set-other heap.next p q n (λ s. h (sym s)) ∙ f)) (
            >>=-ok _ (get_prev-ok h1 n p ln e)
              (>>=-ok _ (set_prev-ok h1 q p lq) (free_node-ok h2 n ln))))))
