-- ===== src/Linked/Tests.antt =====
-- A list at the address 0 with the nodes 1 and 2.
use chttpd.Prelude.{ℕ, ◌≡◌, refl, false, some, [], ◌∷◌, ◌==◌, ltb, if◌then◌else◌, arith, All}
use chttpd.Libc.{ok}
use chttpd.Linked.{Heap, cc_list_insert, cc_list_remove, cc_list_destroy}
use chttpd.Linked.Moves.{Avoids}
use chttpd.Linked.Links.{Ring, contents}
use chttpd.Linked.Ring.{cc_list_insert-Ring, cc_list_remove-Ring}
use chttpd.Linked.Destroy.{cc_list_destroy-frees}

abbrev heap : Heap
heap = record {
  live = λ n. ltb n 3;
  prev = λ n. if n == 0 then 2 else if n == 1 then 0 else 1;
  next = λ n. if n == 0 then 1 else if n == 1 then 2 else 0;
  data_of = λ n. n ∷ [];
}

heap-Ring : Ring heap 0 (1 ∷ 2 ∷ [])
heap-Ring = record {
  forth = (refl, (refl, refl));
  back = (refl, (refl, refl));
  apart = ground arith;
  alive = (refl, (refl, (refl, tt)));
}

cc_list_insert-Ring_example :
    (after : Heap) × (cc_list_insert heap (some 7) 2 (9 ∷ []) ≡ ok after)
    × Ring after 0 (1 ∷ 7 ∷ 2 ∷ [])
    × (contents after (1 ∷ 7 ∷ 2 ∷ []) ≡ (1 ∷ []) ∷ (9 ∷ []) ∷ (2 ∷ []) ∷ [])
cc_list_insert-Ring_example = cc_list_insert-Ring heap 0 (1 ∷ []) (2 ∷ []) 7 (9 ∷ []) heap-Ring refl

cc_list_remove-Ring_example :
    (after : Heap) × (cc_list_remove heap 2 ≡ ok after)
    × Ring after 0 (1 ∷ [])
    × (after.live 2 ≡ false)
    × (contents after (1 ∷ []) ≡ (1 ∷ []) ∷ [])
cc_list_remove-Ring_example = cc_list_remove-Ring heap 0 (1 ∷ []) [] 2 heap-Ring

cc_list_destroy-frees_example :
    (after : Heap) × (cc_list_destroy 3 heap 0 ≡ ok (after, 1 ∷ 2 ∷ []))
    × All (λ n. after.live n ≡ false) (1 ∷ 2 ∷ [])
    × ((n : ℕ) → Avoids n (1 ∷ 2 ∷ []) → after.live n ≡ heap.live n)
cc_list_destroy-frees_example = cc_list_destroy-frees 3 heap 0 (1 ∷ 2 ∷ []) (omega arith) heap-Ring
