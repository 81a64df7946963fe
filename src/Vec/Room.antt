-- ===== src/Vec/Room.antt =====
-- What a vector of cclib/cc_vec.c holds, and the growth of its block.
use mathlib.Core.List.{append_assoc, append-nil}
use chttpd.Prelude.{
  ℕ, zero, suc, ◌+◌, ◌*◌, ◌≤◌, ◌<◌, ◌≡◌, ◌≢◌, refl, sym, ap, ◌∙◌, inl, inr, true, Bool-cases, none,
  some, Option-cases, List, [], ◌∷◌, ◌++◌, ◌==◌, arith, All, length, length-append,
}
use chttpd.Libc.{Bytes, Result, ok, reject, fault, assertion_failed, ◌>>=◌}
use chttpd.Vec.{Realloc, CcVec, cc_vec_grow, make_room}

abbrev pub concat : List Bytes → Bytes
concat [] = []
concat (x ∷ xs) = x ++ concat xs

pub concat-append : (xs ys : List Bytes) → concat (xs ++ ys) ≡ concat xs ++ concat ys
concat-append [] ys = refl
concat-append (x ∷ xs) ys =
    ap (λ s. x ++ s) (concat-append xs ys) ∙ sym (append_assoc x (concat xs) (concat ys))

-- The elements have the size that the vector says.
abbrev pub IsSized : ℕ → List Bytes → Type 0
IsSized size = All (λ x. length x ≡ size)

pub length-concat :
    (size : ℕ) (xs : List Bytes) → IsSized size xs → length (concat xs) ≡ length xs * size
length-concat size [] h = omega arith
length-concat size (x ∷ xs) h = rw length-append (rw (h.0, length-concat size xs h.1) (omega arith))

-- A vector holds a list: the elements stand one behind the other at the start of its block, and
-- there is room for a whole number of further ones.
pub record Holds (vec : CcVec) (xs : List Bytes) : Type 0 where
  pub spare : Bytes
  pub places : ℕ
  pub laid_out : vec.block ≡ concat xs ++ spare
  pub used : vec.usage ≡ length (concat xs)
  pub sized : IsSized vec.elem_size xs
  pub positive : 0 < vec.elem_size
  pub room : length spare ≡ places * vec.elem_size

-- What `realloc` keeps, where it gives a larger block.
abbrev pub ReallocOk : Realloc → Type 0
ReallocOk realloc =
    (block larger : Bytes) (n : ℕ)
    → length block ≤ n
    → realloc block n ≡ some larger
    → (more : Bytes) × (larger ≡ block ++ more) × (length larger ≡ n)

-- The call returns a vector of which this holds, unless there is no memory.
abbrev pub Unless : Realloc → (CcVec → Type 0) → Result CcVec → Type 0
Unless realloc P (ok vec) = P vec
Unless realloc P reject = ⊥
Unless realloc P (fault e) =
    (e ≡ assertion_failed) × (block : Bytes) × (n : ℕ) × (realloc block n ≡ none)

pub Unless-bind :
    (realloc : Realloc) (P Q : CcVec → Type 0) (m : Result CcVec) (f : CcVec → Result CcVec)
    → Unless realloc P m
    → ((vec : CcVec) → P vec → Unless realloc Q (f vec))
    → Unless realloc Q (m >>= f)
Unless-bind realloc P Q (ok vec) f h k = k vec h
Unless-bind realloc P Q reject f h k = h
Unless-bind realloc P Q (fault e) f h k = h

-- The list, in a vector that has room for one more element.
abbrev pub HasRoom : ℕ → List Bytes → CcVec → Type 0
HasRoom size xs vec = (h : Holds vec xs) × (vec.elem_size ≡ size) × (0 < h.places)

grown :
    (realloc : Realloc) (vec : CcVec) (xs : List Bytes) (h : Holds vec xs) (larger : Bytes)
    (target : ℕ)
    → ReallocOk realloc
    → h.spare ≡ []
    → (n : ℕ) → target ≡ length vec.block + suc n * vec.elem_size
    → realloc vec.block target ≡ some larger
    → HasRoom vec.elem_size xs (record vec { block = larger; usage = length vec.block })
grown realloc vec xs h larger target r e n t g =
    let (more, larger_is, size) = r vec.block larger target (omega (arith, t)) g in
    let tight : vec.block ≡ concat xs =
      h.laid_out ∙ (ap (λ s. concat xs ++ s) e ∙ append-nil (concat xs)) in
    (
      record {
        spare = more;
        places = suc n;
        laid_out = larger_is ∙ ap (λ s. s ++ more) tight;
        used = ap (length {0}) tight;
        sized = h.sized;
        positive = h.positive;
        room = omega (arith, ap (length {0}) larger_is, length-append vec.block more, size, t);
      },
      refl,
      omega arith,
    )

doubled_len :
    (size : ℕ) (xs : List Bytes) (n : ℕ)
    → n ≡ length xs * size
    → n ≢ 0
    → (m : ℕ) × (n * 2 ≡ n + suc m * size)
doubled_len size [] n e h = absurd (h (omega (arith, e)))
doubled_len size (x ∷ xs) n e h = (length xs, omega (arith, e))

empty : (s : Bytes) → length s ≡ 0 → s ≡ []
empty [] e = refl
empty (c ∷ s) e = absurd (omega (arith, e))

positive_of : (n size : ℕ) → n * size ≢ 0 → 0 < n
positive_of zero size h = absurd (h (omega arith))
positive_of (suc n) size h = omega arith

module _ (realloc : Realloc) (r : ReallocOk realloc) where
  -- The block of the new size, behind the test for memory.
  given :
      (vec : CcVec) (xs : List Bytes) (h : Holds vec xs) (target : ℕ) (n : ℕ)
      → h.spare ≡ []
      → target ≡ length vec.block + suc n * vec.elem_size
      → Unless realloc (HasRoom vec.elem_size xs) (elim (realloc vec.block target) [
        | none ↦ fault assertion_failed
        | some start ↦ ok (record vec { block = start; usage = length vec.block })
      ])
  given vec xs h target n e t = elim (Option-cases (realloc vec.block target)) [
    | inl f ↦ rw f (refl, vec.block, target, f)
    | inr (larger, f) ↦ rw f (grown realloc vec xs h larger target r e n t f)
  ]

  cc_vec_grow-HasRoom :
      (vec : CcVec) (xs : List Bytes) (h : Holds vec xs)
      → h.spare ≡ []
      → Unless realloc (HasRoom vec.elem_size xs) (cc_vec_grow realloc vec)
  unfolding cc_vec_grow
  cc_vec_grow-HasRoom vec xs h e =
      let size = length-concat vec.elem_size xs h.sized in
      let whole : length vec.block ≡ length (concat xs) =
        ap (length {0}) (h.laid_out ∙ (ap (λ s. concat xs ++ s) e ∙ append-nil (concat xs))) in
      let at_end : (length vec.block == vec.usage) ≡ true = ground (arith, h.used) in
      rw at_end (elim (Bool-cases (length vec.block == 0)) [
        | inl f ↦
            let none_yet : length vec.block ≡ 0 = ground arith in
            rw f (given vec xs h (8 * vec.elem_size) 7 e (omega (arith, none_yet)))
        | inr f ↦
            let some_yet : length vec.block ≢ 0 = ground arith in
            let (n, doubled) =
              doubled_len vec.elem_size xs (length vec.block) (whole ∙ size) some_yet in
            rw f (given vec xs h (length vec.block * 2) n e doubled)
      ])

  pub make_room-HasRoom :
      (vec : CcVec) (xs : List Bytes)
      → Holds vec xs
      → Unless realloc (HasRoom vec.elem_size xs) (make_room realloc vec)
  unfolding make_room
  make_room-HasRoom vec xs h =
      let whole = ap (length {0}) h.laid_out in
      let parts = length-append (concat xs) h.spare in
      elim (Bool-cases (vec.usage == length vec.block)) [
        | inl e ↦
            let full : vec.usage ≡ length vec.block = ground arith in
            let none_left : length h.spare ≡ 0 = omega (arith, full, whole, parts, h.used) in
            rw e (cc_vec_grow-HasRoom vec xs h (empty h.spare none_left))
        | inr e ↦
            let open_end : vec.usage ≢ length vec.block = ground arith in
            let left : length h.spare ≢ 0 =
              λ z. open_end (omega (arith, z, whole, parts, h.used)) in
            rw e (h, refl, positive_of h.places vec.elem_size (λ z. left (h.room ∙ z)))
      ]
