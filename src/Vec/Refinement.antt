-- ===== src/Vec/Refinement.antt =====
-- The operations of cclib/cc_vec.c that add and find elements are those of a list.
use mathlib.Core.Path.{subst}
use mathlib.Core.List.{append_assoc}
use native.Mathlib.Nat.{mul-div_cancel}
use chttpd.Prelude.{
  ℕ, suc, ◌+◌, ◌*◌, ◌/◌, ◌≤◌, ◌≡◌, refl, sym, ap, ◌∙◌, true, false, List, [], ◌∷◌, ◌++◌, ◌==◌, ltb,
  leb, arith, All-of_append, length, length-append,
}
use chttpd.Libc.{Bytes, ok, ◌>>=◌}
use chttpd.Vec.{
  Realloc, CcVec, read, cc_vec_push_back, insert_at, cc_vec_push_front, cc_vec_insert, cc_vec_nth,
  cc_vec_len, cc_vec_pop_back,
}
use chttpd.Vec.Memory.{read-middle}
use chttpd.Vec.Room.{
  concat, concat-append, length-concat, Holds, ReallocOk, Unless, Unless-bind, HasRoom,
  make_room-HasRoom,
}
use chttpd.Vec.Store.{insert_at-Holds, room_test, push_at_end-Holds}

module _ (realloc : Realloc) (r : ReallocOk realloc) where
  push_back-Holds :
      (vec : CcVec) (xs : List Bytes) (x more : Bytes)
      → Holds vec xs
      → length x ≡ vec.elem_size
      → Unless realloc (λ v. Holds v (xs ++ x ∷ [])) (cc_vec_push_back realloc vec (x ++ more))
  unfolding cc_vec_push_back
  push_back-Holds vec xs x more h e =
      Unless-bind realloc (HasRoom vec.elem_size xs) (λ v. Holds v (xs ++ x ∷ [])) _ _
        (make_room-HasRoom realloc r vec xs h)
        λ v k.
          let (block, stores, holds) = push_at_end-Holds vec.elem_size v xs x more k e in
          rw (room_test vec.elem_size v xs k) (rw stores holds)

  push_front-Holds :
      (vec : CcVec) (xs : List Bytes) (x more : Bytes)
      → Holds vec xs
      → length x ≡ vec.elem_size
      → Unless realloc (λ v. Holds v (x ∷ xs)) (cc_vec_push_front realloc vec (x ++ more))
  unfolding cc_vec_push_front
  push_front-Holds vec xs x more h e =
      Unless-bind realloc (HasRoom vec.elem_size xs) (λ v. Holds v (x ∷ xs)) _ _
        (make_room-HasRoom realloc r vec xs h)
        λ v k.
          let (result, stores, holds) = insert_at-Holds vec.elem_size v [] xs x more k e in
          rw (room_test vec.elem_size v xs k) (rw stores holds)

  insert-Holds :
      (vec : CcVec) (before behind : List Bytes) (x more : Bytes)
      → Holds vec (before ++ behind)
      → length x ≡ vec.elem_size
      → Unless realloc
          (λ v. Holds v (before ++ x ∷ behind))
          (cc_vec_insert realloc vec (length before) (x ++ more))
  unfolding cc_vec_insert
  insert-Holds vec before behind x more h e =
      let (s0, s1) = All-of_append (λ y. length y ≡ vec.elem_size) before behind h.sized in
      let from = length-concat vec.elem_size before s0 in
      let split = ap (length {0}) (concat-append before behind) in
      let within : leb (length before * vec.elem_size) vec.usage ≡ true =
        ground (arith, h.used, split, length-append (concat before) (concat behind), from) in
      rw within (
        Unless-bind realloc (HasRoom vec.elem_size (before ++ behind))
          (λ v. Holds v (before ++ x ∷ behind)) _ _
          (make_room-HasRoom realloc r vec (before ++ behind) h)
          λ v k.
            let (result, stores, holds) =
              insert_at-Holds vec.elem_size v before behind x more k e in
            let offset : length before * v.elem_size ≡ length (concat before) =
              ap (λ n. length before * n) k.1 ∙ sym from in
            subst (Unless realloc (λ v. Holds v (before ++ x ∷ behind)))
              (sym (ap (λ n. insert_at v n (x ++ more)) offset ∙ stores)) holds)

  -- If a vector holds a list, then what `cc_vec_push_back`, `cc_vec_push_front` and `cc_vec_insert`
  -- return holds the list with the new element at the end, at the front or at the index, read from
  -- the start of the memory that is passed; each returns, without leaving a block, unless `realloc`
  -- refuses memory.
  pub cc_vec_refines :
      (vec : CcVec) (before behind : List Bytes) (x more : Bytes)
      → Holds vec (before ++ behind)
      → length x ≡ vec.elem_size
      → Unless realloc
          (λ v. Holds v ((before ++ behind) ++ x ∷ []))
          (cc_vec_push_back realloc vec (x ++ more))
        × Unless realloc
            (λ v. Holds v (x ∷ before ++ behind))
            (cc_vec_push_front realloc vec (x ++ more))
        × Unless realloc
            (λ v. Holds v (before ++ x ∷ behind))
            (cc_vec_insert realloc vec (length before) (x ++ more))
  cc_vec_refines vec before behind x more h e = (
    push_back-Holds vec (before ++ behind) x more h e,
    push_front-Holds vec (before ++ behind) x more h e,
    insert-Holds vec before behind x more h e,
  )

times_pos : (size n : ℕ) → size ≤ suc n * size
times_pos size n = omega arith

-- If a vector holds a list, `cc_vec_len` counts its elements, and behind `cc_vec_pop_back`, which
-- adds where it is meant to subtract, it counts one more and not one less.
pub cc_vec_len-pop_back :
    (vec : CcVec) (x : Bytes) (xs : List Bytes)
    → Holds vec (x ∷ xs)
    → (cc_vec_len vec ≡ ok (length (x ∷ xs)))
      × ((cc_vec_pop_back vec >>= cc_vec_len) ≡ ok (length (x ∷ xs) + 1))
unfolding cc_vec_len cc_vec_pop_back
cc_vec_len-pop_back vec x xs h =
    let size = vec.elem_size in
    let positive = h.positive in
    let full : vec.usage ≡ length (x ∷ xs) * size = h.used ∙ length-concat size (x ∷ xs) h.sized in
    let more : vec.usage + size ≡ (length (x ∷ xs) + 1) * size = omega (arith, full) in
    let some_size : (size == 0) ≡ false = ground arith in
    let some_used : ltb 0 vec.usage ≡ true = ground (arith, full, times_pos size (length xs)) in
    (
      rw some_size (ap ok (ap (λ n. n / size) full ∙ mul-div_cancel (length (x ∷ xs)) positive)),
      rw some_used (
          rw some_size
            (ap ok (ap (λ n. n / size) more ∙ mul-div_cancel (length (x ∷ xs) + 1) positive))),
    )

-- `cc_vec_nth` gives the place of the element at the index.
pub cc_vec_nth-read :
    (vec : CcVec) (before : List Bytes) (x : Bytes) (behind : List Bytes)
    → Holds vec (before ++ x ∷ behind)
    → (offset : ℕ) × (cc_vec_nth vec (length before) ≡ ok offset)
      × (read offset vec.elem_size vec.block ≡ ok x)
unfolding cc_vec_nth
cc_vec_nth-read vec before x behind h =
    let size = vec.elem_size in
    let positive = h.positive in
    let (s0, s1) = All-of_append (λ y. length y ≡ size) before (x ∷ behind) h.sized in
    let from = length-concat size before s0 in
    let split = ap (length {0}) (concat-append before (x ∷ behind)) in
    let used : vec.usage ≡ length (concat before) + (length x + length (concat behind)) = omega (
      arith,
      h.used,
      split,
      length-append (concat before) (x ++ concat behind),
      length-append x (concat behind),
    ) in
    let one = s1.0 in
    let whole : vec.block ≡ concat before ++ (x ++ (concat behind ++ h.spare)) =
      h.laid_out
      ∙ (ap (λ s. s ++ h.spare) (concat-append before (x ∷ behind))
          ∙ (append_assoc (concat before) (x ++ concat behind) h.spare
              ∙ ap (λ s. concat before ++ s) (append_assoc x (concat behind) h.spare))) in
    let some_used : ltb 0 vec.usage ≡ true = ground arith in
    let within : leb (length before * size) vec.usage ≡ true = ground arith in
    (
      length before * size,
      rw some_used (rw within refl),
      ap (λ n. read n size vec.block) (sym from)
          ∙ (ap (λ n. read (length (concat before)) n vec.block) (sym one)
              ∙ (ap (read (length (concat before)) (length x)) whole
                  ∙ read-middle (concat before) x (concat behind ++ h.spare))),
    )
