-- ===== src/Linked.antt =====
-- cclib/cc_list.c: rings of nodes on the heap. The list itself is the node that closes the ring. The
-- heap has a map for each field of the nodes, and one that tells which addresses are in use; an
-- access to another address, or a second `free`, is a fault.
pub mod Ring
pub mod Destroy
pub mod Ends
pub mod Links
pub mod Moves
mod Tests
use chttpd.Prelude.{
  ℕ, zero, suc, ◌+◌, Bool, true, false, not, Option, none, some, List, [], ◌∷◌, ◌==◌, if◌then◌else◌,
}
use chttpd.Libc.{
  Bytes, Result, ok, fault, null_pointer, double_free, use_after_free, assertion_failed,
  out_of_fuel, ◌>>=◌,
}
use chttpd.Libc.Text.{bytes_eq}

pub record Heap : Type 0 where
  pub live : ℕ → Bool
  pub prev : ℕ → ℕ
  pub next : ℕ → ℕ
  pub data_of : ℕ → Bytes

-- A map with another value at one address.
abbrev pub set {ℓ} : {A : Type ℓ} → (ℕ → A) → ℕ → A → ℕ → A
set f k v n = if n == k then v else f n

-- `node->prev` and `node->next`, read and written.
unfoldable pub get_prev : Heap → ℕ → Result ℕ
get_prev heap node = if heap.live node then ok (heap.prev node) else fault use_after_free

unfoldable pub get_next : Heap → ℕ → Result ℕ
get_next heap node = if heap.live node then ok (heap.next node) else fault use_after_free

-- The element of a node.
unfoldable pub get_data : Heap → ℕ → Result Bytes
get_data heap node = if heap.live node then ok (heap.data_of node) else fault use_after_free

unfoldable pub set_prev : Heap → ℕ → ℕ → Result Heap
set_prev heap node to =
    if heap.live node
    then ok (record heap { prev = set heap.prev node to })
    else fault use_after_free

unfoldable pub set_next : Heap → ℕ → ℕ → Result Heap
set_next heap node to =
    if heap.live node
    then ok (record heap { next = set heap.next node to })
    else fault use_after_free

unfoldable pub free_node : Heap → ℕ → Result Heap
free_node heap node =
    if heap.live node
    then ok (record heap { live = set heap.live node false })
    else fault double_free

-- `malloc` of a node, whose result is not tested, and `memcpy` of the element into it.
unfoldable pub new_node : Heap → Option ℕ → Bytes → Result (Heap × ℕ)
new_node heap none source = fault null_pointer
new_node heap (some node) source =
    ok
      (record heap { live = set heap.live node true; data_of = set heap.data_of node source }, node)

unfoldable pub cc_list_init : Heap → ℕ → Result Heap
unfolding set_prev set_next
cc_list_init heap list = set_prev heap list list >>= λ heap. set_next heap list list

-- The store of a new node before the one at `pos`.
unfoldable pub cc_list_insert : Heap → Option ℕ → ℕ → Bytes → Result Heap
unfolding new_node get_prev set_prev set_next
cc_list_insert heap malloc pos source = new_node heap malloc source >>= λ (heap, node).
    get_prev heap pos >>= λ before. set_prev heap node before >>= λ heap.
    set_next heap node pos >>= λ heap.
    get_prev heap pos >>= λ before. set_next heap before node >>= λ heap. set_prev heap pos node

unfoldable pub cc_list_push_back : Heap → Option ℕ → ℕ → Bytes → Result Heap
unfolding cc_list_insert
cc_list_push_back heap malloc list source = cc_list_insert heap malloc list source

unfoldable pub cc_list_push_front : Heap → Option ℕ → ℕ → Bytes → Result Heap
unfolding new_node get_next set_prev set_next
cc_list_push_front heap malloc list source = new_node heap malloc source >>= λ (heap, node).
    set_prev heap node list >>= λ heap. get_next heap list >>= λ first.
    set_next heap node first >>= λ heap.
    get_next heap list >>= λ first. set_prev heap first node >>= λ heap. set_next heap list node

unfoldable pub cc_list_insert_after : Heap → Option ℕ → ℕ → Bytes → Result Heap
unfolding get_next cc_list_insert
cc_list_insert_after heap malloc pos source =
    get_next heap pos >>= λ next. cc_list_insert heap malloc next source

unfoldable pub cc_list_remove : Heap → ℕ → Result Heap
unfolding get_prev get_next set_prev set_next free_node
cc_list_remove heap node = get_prev heap node >>= λ before. get_next heap node >>= λ behind.
    set_next heap before behind >>= λ heap. get_next heap node >>= λ behind.
    get_prev heap node >>= λ before. set_prev heap behind before >>= λ heap. free_node heap node

unfoldable pub cc_list_empty : Heap → ℕ → Result Bool
unfolding get_next
cc_list_empty heap list = get_next heap list >>= λ first. ok (first == list)

unfoldable pub cc_list_pop_back : Heap → ℕ → Result Heap
unfolding cc_list_empty get_prev cc_list_remove
cc_list_pop_back heap list = cc_list_empty heap list >>= λ is_empty.
    if is_empty
    then fault assertion_failed
    else get_prev heap list >>= λ node. cc_list_remove heap node

-- The two links are written in the other order.
unfoldable pub cc_list_pop_front : Heap → ℕ → Result Heap
unfolding cc_list_empty get_prev get_next set_prev set_next free_node
cc_list_pop_front heap list = cc_list_empty heap list >>= λ is_empty.
    if is_empty
    then fault assertion_failed
    else (get_next heap list >>= λ node. get_next heap node >>= λ behind.
        get_prev heap node >>= λ before. set_prev heap behind before >>= λ heap.
        get_prev heap node >>= λ before. get_next heap node >>= λ behind.
        set_next heap before behind >>= λ heap. free_node heap node)

-- The loop of `cc_list_destroy`, on fuel: the heap, and the nodes that it freed in order.
unfoldable pub destroy_loop : ℕ → Heap → ℕ → ℕ → Result (Heap × List ℕ)
unfolding get_next free_node
destroy_loop zero heap list iter = fault out_of_fuel
destroy_loop (suc fuel) heap list iter = elim (iter == list) [
  | true ↦ ok (heap, [])
  | false ↦ get_next heap iter >>= λ behind. free_node heap iter >>= λ heap.
      destroy_loop fuel heap list behind >>= λ (heap, freed). ok (heap, iter ∷ freed)
]

unfoldable pub cc_list_destroy : ℕ → Heap → ℕ → Result (Heap × List ℕ)
unfolding get_next destroy_loop
cc_list_destroy fuel heap list = get_next heap list >>= λ first. destroy_loop fuel heap list first

-- The loop of `cc_list_size`, on fuel.
unfoldable pub size_loop : ℕ → Heap → ℕ → ℕ → Result ℕ
unfolding get_next
size_loop zero heap list iter = fault out_of_fuel
size_loop (suc fuel) heap list iter = elim (iter == list) [
  | true ↦ ok 0
  | false ↦ get_next heap iter >>= λ behind. size_loop fuel heap list behind >>= λ n. ok (n + 1)
]

unfoldable pub cc_list_size : ℕ → Heap → ℕ → Result ℕ
unfolding get_next size_loop
cc_list_size fuel heap list = get_next heap list >>= λ first. size_loop fuel heap list first

-- The loop of `cc_list_find`, on fuel: the first node whose element passes the test, or the list.
unfoldable pub find_loop : ℕ → Heap → ℕ → (Bytes → Bool) → ℕ → Result ℕ
unfolding get_next get_data
find_loop zero heap list test node = fault out_of_fuel
find_loop (suc fuel) heap list test node = elim (node == list) [
  | true ↦ ok list
  | false ↦ get_data heap node >>= λ element. elim (test element) [
    | true ↦ ok node
    | false ↦ get_next heap node >>= λ behind. find_loop fuel heap list test behind
  ]
]

unfoldable pub cc_list_find : ℕ → Heap → ℕ → (Bytes → Bool) → Result ℕ
unfolding get_next find_loop
cc_list_find fuel heap list test =
    get_next heap list >>= λ first. find_loop fuel heap list test first

-- `memcmp` of the whole elements, which have one size.
unfoldable pub cc_list_find_value : ℕ → Heap → ℕ → Bytes → Result ℕ
unfolding cc_list_find bytes_eq
cc_list_find_value fuel heap list value =
    cc_list_find fuel heap list (λ element. bytes_eq element value)

unfoldable pub cc_list_front : Heap → ℕ → Result Bytes
unfolding cc_list_empty get_next get_data
cc_list_front heap list = cc_list_empty heap list >>= λ is_empty.
    if is_empty then fault assertion_failed else get_next heap list >>= λ node. get_data heap node

unfoldable pub cc_list_back : Heap → ℕ → Result Bytes
unfolding cc_list_empty get_prev get_data
cc_list_back heap list = cc_list_empty heap list >>= λ is_empty.
    if is_empty then fault assertion_failed else get_prev heap list >>= λ node. get_data heap node

-- The nodes from `first` up to `last` are linked out and freed; the loop is that of
-- `cc_list_destroy`, up to another node.
unfoldable pub cc_list_remove_range : ℕ → Heap → ℕ → ℕ → Result (Heap × List ℕ)
unfolding get_prev set_prev set_next destroy_loop
cc_list_remove_range fuel heap first last = get_prev heap first >>= λ before.
    set_next heap before last >>= λ heap. get_prev heap first >>= λ before.
    set_prev heap last before >>= λ heap. destroy_loop fuel heap last first

-- The search from an iterator to another, which is returned where nothing is found.
unfoldable pub cc_list_iter_find : ℕ → Heap → ℕ → ℕ → (Bytes → Bool) → Result ℕ
unfolding find_loop
cc_list_iter_find fuel heap first last test = find_loop fuel heap last test first

unfoldable pub cc_list_iter_find_value : ℕ → Heap → ℕ → ℕ → Bytes → Result ℕ
unfolding cc_list_iter_find bytes_eq
cc_list_iter_find_value fuel heap first last value =
    cc_list_iter_find fuel heap first last (λ element. bytes_eq element value)
