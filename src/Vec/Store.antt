-- ===== src/Vec/Store.antt =====
-- The stores of an element into a block of cclib/cc_vec.c that has room for it.
use mathlib.Core.Path.{subst}
use mathlib.Core.List.{append_assoc, append-nil}
use chttpd.Prelude.{
  ℕ, zero, suc, ◌+◌, ◌-◌, ◌*◌, ◌≤◌, ◌<◌, ◌≡◌, sym, ap, ◌∙◌, true, List, [], ◌∷◌, ◌++◌, ltb, arith,
  All-append, All-of_append, length, length-append, take, drop,
}
use chttpd.Libc.{Bytes, Result, ok, ◌>>=◌}
use chttpd.Vec.{CcVec, memcpy, memmove, insert_at}
use chttpd.Vec.Memory.{memcpy-middle, memmove-up, take-drop, length-take, length-drop}
use chttpd.Vec.Room.{concat, concat-append, Holds, HasRoom}

-- The place behind the elements, and what is behind that.
record Gap (vec : CcVec) (xs : List Bytes) : Type 0 where
  old : Bytes
  rest : Bytes
  places : ℕ
  laid_out : vec.block ≡ concat xs ++ (old ++ rest)
  old_size : length old ≡ vec.elem_size
  room : length rest ≡ places * vec.elem_size

more_places :
    (n size : ℕ) (s : Bytes)
    → 0 < n
    → length s ≡ n * size
    → (m : ℕ) × (size ≤ length s) × (length s ≡ size + m * size)
more_places zero size s h e = absurd (omega (arith, h))
more_places (suc n) size s h e = (n, omega (arith, e), omega (arith, e))

HasRoom-Gap : (size : ℕ) (vec : CcVec) (xs : List Bytes) → HasRoom size xs vec → Gap vec xs
HasRoom-Gap size vec xs (h, e, some_places) =
    let (m, fits, splits) = more_places h.places vec.elem_size h.spare some_places h.room in
    record {
      old = take vec.elem_size h.spare;
      rest = drop vec.elem_size h.spare;
      places = m;
      laid_out = h.laid_out ∙ ap (λ s. concat xs ++ s) (sym (take-drop vec.elem_size h.spare));
      old_size = length-take vec.elem_size h.spare fits;
      room = omega (arith, length-drop vec.elem_size h.spare fits, splits);
    }

-- A block with one more element in it.
Holds-more :
    (vec : CcVec) (before behind : List Bytes) (x rest : Bytes) (places : ℕ)
    → Holds vec (before ++ behind)
    → length x ≡ vec.elem_size
    → length rest ≡ places * vec.elem_size
    → Holds
        (record vec {
          block = concat before ++ (x ++ (concat behind ++ rest));
          usage = vec.usage + vec.elem_size;
        })
        (before ++ x ∷ behind)
Holds-more vec before behind x rest places h e f =
    let (s0, s1) = All-of_append (λ y. length y ≡ vec.elem_size) before behind h.sized in
    let a = concat before in
    let b = concat behind in
    record {
      spare = rest;
      places = places;
      laid_out =
          ap (λ s. a ++ s) (sym (append_assoc x b rest))
          ∙ (sym (append_assoc a (x ++ b) rest)
              ∙ ap (λ s. s ++ rest) (sym (concat-append before (x ∷ behind))));
      used = omega (
        arith,
        h.used,
        ap (length {0}) (concat-append before behind),
        length-append a b,
        ap (length {0}) (concat-append before (x ∷ behind)),
        length-append a (x ++ b),
        length-append x b,
        e,
      );
      sized = All-append (λ y. length y ≡ vec.elem_size) before (x ∷ behind) s0 (e, s1);
      positive = h.positive;
      room = f;
    }

pub insert_at-Holds :
    (size : ℕ) (vec : CcVec) (before behind : List Bytes) (x more : Bytes)
    → HasRoom size (before ++ behind) vec
    → length x ≡ size
    → (result : CcVec) × (insert_at vec (length (concat before)) (x ++ more) ≡ ok result)
      × Holds result (before ++ x ∷ behind)
unfolding insert_at
insert_at-Holds size vec before behind x more (h, same, some_places) e =
    let g = HasRoom-Gap size vec (before ++ behind) (h, same, some_places) in
    let a = concat before in
    let b = concat behind in
    let whole : vec.block ≡ a ++ (b ++ (g.old ++ g.rest)) =
      g.laid_out
      ∙ (ap (λ s. s ++ (g.old ++ g.rest)) (concat-append before behind)
          ∙ append_assoc a b (g.old ++ g.rest)) in
    let used : vec.usage - length a ≡ length b =
      omega (arith, h.used, ap (length {0}) (concat-append before behind), length-append a b) in
    let (gap, gap_size, moves) = memmove-up a b g.old g.rest in
    let stores =
      memcpy-middle a gap (b ++ g.rest) x more vec.elem_size (e ∙ sym same)
        (gap_size ∙ g.old_size) in
    let from = length a in
    let moved =
      ap (memmove (from + vec.elem_size) from (vec.usage - from)) whole
      ∙ (ap (λ n. memmove (from + vec.elem_size) from n (a ++ (b ++ (g.old ++ g.rest)))) used
          ∙ (ap (λ k. memmove (from + k) from (length b) (a ++ (b ++ (g.old ++ g.rest))))
                (sym g.old_size)
              ∙ moves)) in
    (
      record vec { block = a ++ (x ++ (b ++ g.rest)); usage = vec.usage + vec.elem_size },
      ap
            (λ (m : Result Bytes). m >>= λ block.
              memcpy from (x ++ more) vec.elem_size block >>= λ block.
              ok (record vec { block = block; usage = vec.usage + vec.elem_size }))
            moved
          ∙ ap
              (λ (m : Result Bytes).
                m >>= λ block. ok (record vec { block = block; usage = vec.usage + vec.elem_size }))
              stores,
      Holds-more vec before behind x g.rest g.places h (e ∙ sym same) g.room,
    )

-- There is room, so the test in front of a store is passed.
pub room_test :
    (size : ℕ) (vec : CcVec) (xs : List Bytes)
    → HasRoom size xs vec
    → ltb vec.usage (length vec.block) ≡ true
room_test size vec xs (h, same, some_places) =
    let g = HasRoom-Gap size vec xs (h, same, some_places) in
    let positive = h.positive in
    let sizes : length vec.block ≡ vec.usage + (length g.old + length g.rest) = omega (
      arith,
      ap (length {0}) g.laid_out,
      length-append (concat xs) (g.old ++ g.rest),
      length-append g.old g.rest,
      h.used,
    ) in
    let one = g.old_size in ground arith

pub push_at_end-Holds :
    (size : ℕ) (vec : CcVec) (xs : List Bytes) (x more : Bytes)
    → HasRoom size xs vec
    → length x ≡ size
    → (block : Bytes) × (memcpy vec.usage (x ++ more) vec.elem_size vec.block ≡ ok block)
      × Holds (record vec { block = block; usage = vec.usage + vec.elem_size }) (xs ++ x ∷ [])
push_at_end-Holds size vec xs x more (h, same, some_places) e =
    let g = HasRoom-Gap size vec xs (h, same, some_places) in
    let stores =
      memcpy-middle (concat xs) g.old g.rest x more vec.elem_size (e ∙ sym same) g.old_size in
    let all : Holds vec (xs ++ []) = subst (Holds vec) (sym (append-nil xs)) h in
    (
      concat xs ++ (x ++ g.rest),
      ap (λ k. memcpy k (x ++ more) vec.elem_size vec.block) h.used
          ∙ (ap (memcpy (length (concat xs)) (x ++ more) vec.elem_size) g.laid_out ∙ stores),
      Holds-more vec xs [] x g.rest g.places all (e ∙ sym same) g.room,
    )
