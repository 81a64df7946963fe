-- ===== src/Vec.antt =====
-- cclib/cc_vec.c: vectors of elements of one size, byte by byte. `block` is the memory from `start`
-- to `end`, and empty where these are NULL; `usage` is an offset from `start`. The library is kept in
-- the tree and built with the server. A size that `realloc` grants is below 2^63, so doubling one
-- does not wrap.
mod Memory
pub mod Refinement
mod Room
mod Store
mod Tests
use chttpd.Prelude.{
  ℕ, ◌+◌, ◌-◌, ◌*◌, ◌/◌, Bool, true, false, Option, none, some, List, [], ◌∷◌, ◌++◌, ◌==◌, ltb, leb,
  if◌then◌else◌, length, take, drop,
}
use chttpd.Prelude.Int.{ℤ, pos, negsuc}
use chttpd.Libc.{Bytes, Result, ok, fault, out_of_bounds, division_by_zero, assertion_failed, ◌>>=◌}

-- `realloc`: the block of the new size, if it is given.
abbrev pub Realloc : Type 0
Realloc = Bytes → ℕ → Option Bytes

pub record CcVec : Type 0 where
  pub block : Bytes
  pub usage : ℕ
  pub elem_size : ℕ

-- `assert`
abbrev pub assert {ℓ} : {A : Type ℓ} → Bool → Result A → Result A
assert true r = r
assert false r = fault assertion_failed

unfoldable pub read : ℕ → ℕ → Bytes → Result Bytes
read offset n block =
    if leb (offset + n) (length block) then ok (take n (drop offset block)) else fault out_of_bounds

unfoldable pub write : ℕ → Bytes → Bytes → Result Bytes
write offset bytes block =
    if leb (offset + length bytes) (length block)
    then ok (take offset block ++ (bytes ++ drop (offset + length bytes) block))
    else fault out_of_bounds

-- `memcpy` of so many bytes of `source` to the offset, and `memmove` within the block.
unfoldable pub memcpy : ℕ → Bytes → ℕ → Bytes → Result Bytes
unfolding read write
memcpy offset source n block = read 0 n source >>= λ bytes. write offset bytes block

unfoldable pub memmove : ℕ → ℕ → ℕ → Bytes → Result Bytes
unfolding read write
memmove to from n block = read from n block >>= λ bytes. write to bytes block

unfoldable pub cc_vec_grow : Realloc → CcVec → Result CcVec
cc_vec_grow realloc vec = assert (length vec.block == vec.usage) (
    let target = if length vec.block == 0 then 8 * vec.elem_size else length vec.block * 2 in
    elim (realloc vec.block target) [
      | none ↦ fault assertion_failed
      | some start ↦ ok (record vec { block = start; usage = length vec.block })
    ])

unfoldable pub cc_vec_init : ℕ → Result CcVec
cc_vec_init elem_size =
    assert (ltb 0 elem_size) (ok (record { block = []; usage = 0; elem_size = elem_size }))

unfoldable pub cc_vec_destroy : CcVec → CcVec
cc_vec_destroy vec = record { block = []; usage = 0; elem_size = 0 }

-- `if (vec->usage == vec->end) cc_vec_grow(vec);`
unfoldable pub make_room : Realloc → CcVec → Result CcVec
unfolding cc_vec_grow
make_room realloc vec = if vec.usage == length vec.block then cc_vec_grow realloc vec else ok vec

-- The store of one more element behind the last.
unfoldable pub cc_vec_push_back : Realloc → CcVec → Bytes → Result CcVec
unfolding make_room memcpy
cc_vec_push_back realloc vec source = make_room realloc vec >>= λ vec.
    assert (ltb vec.usage (length vec.block)) (
      memcpy vec.usage source vec.elem_size vec.block >>= λ block.
      ok (record vec { block = block; usage = vec.usage + vec.elem_size }))

-- The bytes from `from` on move up by an element, which is stored in their place.
unfoldable pub insert_at : CcVec → ℕ → Bytes → Result CcVec
unfolding memmove memcpy
insert_at vec from source =
    memmove (from + vec.elem_size) from (vec.usage - from) vec.block >>= λ block.
    memcpy from source vec.elem_size block >>= λ block.
    ok (record vec { block = block; usage = vec.usage + vec.elem_size })

unfoldable pub cc_vec_push_front : Realloc → CcVec → Bytes → Result CcVec
unfolding make_room insert_at
cc_vec_push_front realloc vec source = make_room realloc vec >>= λ vec.
    assert (ltb vec.usage (length vec.block)) (insert_at vec 0 source)

unfoldable pub cc_vec_insert : Realloc → CcVec → ℕ → Bytes → Result CcVec
unfolding make_room insert_at
cc_vec_insert realloc vec idx source =
    assert (leb (idx * vec.elem_size) vec.usage)
      (make_room realloc vec >>= λ vec. insert_at vec (idx * vec.elem_size) source)

-- `CC_VPTR_SUB` adds, and so `usage` moves up here.
unfoldable pub cc_vec_pop_back : CcVec → Result CcVec
cc_vec_pop_back vec =
    assert (ltb 0 vec.usage) (ok (record vec { usage = vec.usage + vec.elem_size }))

unfoldable pub cc_vec_pop_front : CcVec → Result CcVec
unfolding memmove
cc_vec_pop_front vec = assert (ltb 0 vec.usage) (
    memmove 0 vec.elem_size (vec.usage - vec.elem_size) vec.block >>= λ block.
    ok (record vec { block = block; usage = vec.usage + vec.elem_size }))

-- The offset of the element that is returned.
unfoldable pub cc_vec_front : CcVec → Result ℕ
cc_vec_front vec = assert (ltb 0 vec.usage) (ok 0)

unfoldable pub cc_vec_back : CcVec → Result ℕ
cc_vec_back vec = assert (ltb 0 vec.usage) (ok (vec.usage + vec.elem_size))

unfoldable pub cc_vec_nth : CcVec → ℕ → Result ℕ
cc_vec_nth vec idx =
    assert (ltb 0 vec.usage)
      (assert (leb (idx * vec.elem_size) vec.usage) (ok (idx * vec.elem_size)))

-- The move is by an element up as well.
unfoldable pub cc_vec_remove : CcVec → ℕ → Result CcVec
unfolding memmove
cc_vec_remove vec idx =
    let start_pos = idx * vec.elem_size in
    assert (leb start_pos vec.usage) (
      memmove (start_pos + vec.elem_size) start_pos (vec.usage - start_pos) vec.block >>= λ block.
      ok (record vec { block = block; usage = vec.usage + vec.elem_size }))

unfoldable pub cc_vec_remove_n : CcVec → ℕ → ℕ → Result CcVec
unfolding memmove
cc_vec_remove_n vec first n =
    let start_pos = first * vec.elem_size in
    let end_pos = start_pos + n * vec.elem_size in
    assert (leb ((first + n) * vec.elem_size) vec.usage) (
      if n == 0
      then ok vec
      else memmove start_pos end_pos (vec.usage - end_pos) vec.block >>= λ block.
          ok (record vec { block = block; usage = vec.usage + n * vec.elem_size }))

unfoldable pub cc_vec_len : CcVec → Result ℕ
cc_vec_len vec =
    if vec.elem_size == 0 then fault division_by_zero else ok (vec.usage / vec.elem_size)

unfoldable pub cc_vec_size : CcVec → Result ℕ
unfolding cc_vec_len
cc_vec_size vec = cc_vec_len vec

unfoldable pub cc_vec_empty : CcVec → Bool
cc_vec_empty vec = vec.usage == 0

-- No element is ever compared: the search is not written yet.
unfoldable pub cc_vec_find_in : CcVec → ℕ → ℤ → Result ℤ
unfolding cc_vec_len
cc_vec_find_in vec first (pos n) = ok (negsuc 0)
cc_vec_find_in vec first (negsuc n) = cc_vec_len vec >>= λ last. ok (negsuc 0)

unfoldable pub cc_vec_find : CcVec → Result ℤ
unfolding cc_vec_len cc_vec_find_in
cc_vec_find vec = cc_vec_len vec >>= λ last. cc_vec_find_in vec 0 (pos last)
