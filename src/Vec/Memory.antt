-- ===== src/Vec/Memory.antt =====
-- Copies within a block, and lists of elements laid out in one.
use native.Mathlib.Nat.{zero-add, suc-add}
use mathlib.Core.List.{append_assoc}
use chttpd.Prelude.{
  ℕ, zero, suc, ◌+◌, ◌≤◌, ◌≡◌, refl, sym, ap, ◌∙◌, true, [], ◌∷◌, ◌++◌, leb, arith, length,
  length-append, take, drop, take-append, drop-append,
}
use chttpd.Libc.{Bytes, ok}
use chttpd.Vec.{read, write, memcpy, memmove}

pub take-drop : (n : ℕ) (xs : Bytes) → take n xs ++ drop n xs ≡ xs
take-drop zero xs = refl
take-drop (suc n) [] = refl
take-drop (suc n) (x ∷ xs) = ap (◌∷◌ x) (take-drop n xs)

pub length-take : (n : ℕ) (xs : Bytes) → n ≤ length xs → length (take n xs) ≡ n
length-take zero xs h = refl
length-take (suc n) [] h = absurd (omega (arith, h))
length-take (suc n) (x ∷ xs) h = ap suc (length-take n xs (omega (arith, h)))

pub length-drop : (n : ℕ) (xs : Bytes) → n ≤ length xs → length (drop n xs) + n ≡ length xs
length-drop n xs h =
    let whole = ap (length {0}) (take-drop n xs) in
    omega (arith, whole, length-append (take n xs) (drop n xs), length-take n xs h)

drop-add : (n : ℕ) (xs ys : Bytes) → drop (length xs + n) (xs ++ ys) ≡ drop n ys
drop-add n [] ys = rw zero-add refl
drop-add n (x ∷ xs) ys = rw suc-add (drop-add n xs ys)

pub read-middle : (a b c : Bytes) → read (length a) (length b) (a ++ (b ++ c)) ≡ ok b
unfolding read
read-middle a b c =
    let inside : leb (length a + length b) (length (a ++ (b ++ c))) ≡ true =
      rw length-append (rw length-append (ground arith)) in
    rw inside (rw (drop-append a (b ++ c)) (rw (take-append b c) refl))

pub write-middle :
    (a old new c : Bytes)
    → length new ≡ length old
    → write (length a) new (a ++ (old ++ c)) ≡ ok (a ++ (new ++ c))
unfolding write
write-middle a old new c e =
    let inside : leb (length a + length new) (length (a ++ (old ++ c))) ≡ true =
      rw length-append (rw length-append (ground arith)) in
    let behind : drop (length a + length new) (a ++ (old ++ c)) ≡ c =
      drop-add (length new) a (old ++ c) ∙ rw e (drop-append old c) in
    rw inside (rw behind (rw (take-append a (old ++ c)) refl))

pub memcpy-middle :
    (a old c new more : Bytes) (n : ℕ)
    → length new ≡ n
    → length old ≡ n
    → memcpy (length a) (new ++ more) n (a ++ (old ++ c)) ≡ ok (a ++ (new ++ c))
unfolding memcpy
memcpy-middle a old c new more n e f =
    rw (sym e) (rw (read-middle [] new more) (write-middle a old new c (e ∙ sym f)))

-- A move up by the length of `old`, which stands behind: what is left in the gap has that length.
pub memmove-up :
    (a b old c : Bytes)
    → (gap : Bytes) × (length gap ≡ length old)
      × (memmove (length a + length old) (length a) (length b) (a ++ (b ++ (old ++ c)))
          ≡ ok (a ++ (gap ++ (b ++ c))))
unfolding memmove
memmove-up a b old c =
    let n = length old in
    let p = take n (b ++ old) in
    let q = drop n (b ++ old) in
    let fits : n ≤ length (b ++ old) = omega (arith, length-append b old) in
    let size_p : length p ≡ n = length-take n (b ++ old) fits in
    let size_q : length b ≡ length q =
      omega (arith, length-drop n (b ++ old) fits, length-append b old) in
    let shifted : b ++ (old ++ c) ≡ p ++ (q ++ c) =
      sym (append_assoc b old c)
      ∙ (ap (λ s. s ++ c) (sym (take-drop n (b ++ old))) ∙ append_assoc p q c) in
    let whole : a ++ (b ++ (old ++ c)) ≡ (a ++ p) ++ (q ++ c) =
      ap (λ s. a ++ s) shifted ∙ sym (append_assoc a p (q ++ c)) in
    let at_gap : length a + n ≡ length (a ++ p) = omega (arith, length-append a p, size_p) in
    (
      p,
      size_p,
      rw (read-middle a b (old ++ c)) (
          ap (write (length a + n) b) whole
          ∙ (ap (λ k. write k b ((a ++ p) ++ (q ++ c))) at_gap
              ∙ (write-middle (a ++ p) q b c size_q ∙ ap ok (append_assoc a p (b ++ c))))),
    )
