-- ===== src/Vec/Tests.antt =====
-- A vector of elements of two bytes.
use chttpd.Prelude.{
  ℕ, zero, suc, ◌-◌, ◌≡◌, refl, sym, ap, ◌∙◌, some, List, [], ◌∷◌, ◌++◌, arith, length,
  length-append,
}
use chttpd.Libc.{Bytes, ok, ◌>>=◌}
use chttpd.Vec.{
  Realloc, CcVec, read, cc_vec_push_back, cc_vec_push_front, cc_vec_insert, cc_vec_nth, cc_vec_len,
  cc_vec_pop_back,
}
use chttpd.Vec.Room.{Holds, ReallocOk, Unless}
use chttpd.Vec.Refinement.{cc_vec_refines, cc_vec_len-pop_back, cc_vec_nth-read}

fill : ℕ → Bytes
fill zero = []
fill (suc n) = 7 ∷ fill n

length-fill : (n : ℕ) → length (fill n) ≡ n
unfolding fill
length-fill zero = refl
length-fill (suc n) = ap suc (length-fill n)

abbrev realloc : Realloc
realloc block n = some (block ++ fill (n - length block))

realloc-ReallocOk : ReallocOk realloc
realloc-ReallocOk block larger n h e =
    let same : block ++ fill (n - length block) ≡ larger = cc in
    (
      fill (n - length block),
      sym same,
      ap (length {0}) (sym same)
          ∙ (length-append block (fill (n - length block))
              ∙ omega (arith, h, length-fill (n - length block))),
    )

-- Full, so that the next store asks for memory.
abbrev vec : CcVec
vec = record { block = 1 ∷ 2 ∷ 3 ∷ 4 ∷ []; usage = 4; elem_size = 2 }

abbrev elements : List Bytes
elements = (1 ∷ 2 ∷ []) ∷ (3 ∷ 4 ∷ []) ∷ []

vec-Holds : Holds vec elements
vec-Holds = record {
  spare = [];
  places = 0;
  laid_out = refl;
  used = refl;
  sized = (refl, (refl, tt));
  positive = omega arith;
  room = refl;
}

cc_vec_refines_example :
    Unless realloc
      (λ v. Holds v (elements ++ (8 ∷ 9 ∷ []) ∷ []))
      (cc_vec_push_back realloc vec (8 ∷ 9 ∷ 5 ∷ []))
    × Unless realloc
        (λ v. Holds v ((8 ∷ 9 ∷ []) ∷ elements))
        (cc_vec_push_front realloc vec (8 ∷ 9 ∷ 5 ∷ []))
    × Unless realloc
        (λ v. Holds v ((1 ∷ 2 ∷ []) ∷ (8 ∷ 9 ∷ []) ∷ (3 ∷ 4 ∷ []) ∷ []))
        (cc_vec_insert realloc vec 1 (8 ∷ 9 ∷ 5 ∷ []))
cc_vec_refines_example =
    cc_vec_refines realloc realloc-ReallocOk vec ((1 ∷ 2 ∷ []) ∷ []) ((3 ∷ 4 ∷ []) ∷ [])
      (8 ∷ 9 ∷ []) (5 ∷ []) vec-Holds refl

cc_vec_len-pop_back_example :
    (cc_vec_len vec ≡ ok 2) × ((cc_vec_pop_back vec >>= cc_vec_len) ≡ ok 3)
cc_vec_len-pop_back_example = cc_vec_len-pop_back vec (1 ∷ 2 ∷ []) ((3 ∷ 4 ∷ []) ∷ []) vec-Holds

cc_vec_nth-read_example :
    (offset : ℕ) × (cc_vec_nth vec 1 ≡ ok offset) × (read offset 2 vec.block ≡ ok (3 ∷ 4 ∷ []))
cc_vec_nth-read_example = cc_vec_nth-read vec ((1 ∷ 2 ∷ []) ∷ []) (3 ∷ 4 ∷ []) [] vec-Holds
