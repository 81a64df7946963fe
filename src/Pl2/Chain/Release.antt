-- ===== src/Pl2/Chain/Release.antt =====
-- The release of the commands of a program by `pl2b_dropProgram` of pl2/pl2b.c.
use chttpd.Prelude.{
  ℕ, zero, suc, ◌<◌, ◌≡◌, ◌≢◌, refl, sym, ap, ◌∙◌, Bool, inl, inr, Bool-cases, true, false, Option,
  List, [], ◌∷◌, ◌==◌, arith, All, map, length,
}
use chttpd.Libc.{ok}
use chttpd.Linked.{set}
use chttpd.Linked.Moves.{set-same, set-other, Avoids, Apart}
use chttpd.Linked.Links.{>>=-ok}
use chttpd.Pl2.{Cmd}
use chttpd.Pl2.Chain.{CmdHeap, Program, init_program, add_cmds, drop_loop, drop_program}
use chttpd.Pl2.Chain.Append.{Chain, IsProgram, addresses, commands_of, add_cmds-IsProgram}

-- The loop over a chain of commands in use.
drop_loop-frees :
    (fuel : ℕ) (heap : CmdHeap) (p : Option ℕ) (ns : List ℕ)
    → length ns < fuel
    → Chain heap.next p ns
    → Apart ns
    → All (λ n. heap.live n ≡ true) ns
    → (after : CmdHeap) × (drop_loop fuel heap p ≡ ok (after, ns))
      × All (λ n. after.live n ≡ false) ns
      × ((k : ℕ) → Avoids k ns → after.live k ≡ heap.live k)
unfolding drop_loop
drop_loop-frees zero heap p ns f h d l = absurd (omega (arith, f))
drop_loop-frees (suc fuel) heap p [] f h d l = (heap, rw (h, drop_loop) refl, tt, λ k a. refl)
drop_loop-frees (suc fuel) heap p (n ∷ ns) f h d l =
    let freed = record heap { live = set heap.live n false } in
    let left = live-less heap n ns l.1 d.0 in
    let (after, ends, gone, others) =
      drop_loop-frees fuel freed (heap.next n) ns (omega (arith, f)) h.1 d.1 left in
    (
      after,
      rw (h.0, l.0, drop_loop) (>>=-ok _ ends refl),
      (others n d.0 ∙ set-same heap.live n false, gone),
      λ k a. others k a.1 ∙ set-other heap.live n false k a.0,
    )
  where
    live-less :
        (heap : CmdHeap) (n : ℕ) (ns : List ℕ)
        → All (λ k. heap.live k ≡ true) ns
        → Avoids n ns
        → All (λ k. set heap.live n false k ≡ true) ns
    live-less heap n [] l f = tt
    live-less heap n (m ∷ ms) l f =
        (set-other heap.live n false m (λ e. f.0 (sym e)) ∙ l.0, live-less heap n ms l.1 f.1)

-- The chain of a program that may be empty, with its nodes apart and in use.
IsProgram-Chain :
    (heap : CmdHeap) (program : Program) (ns : List ℕ)
    → IsProgram heap program ns
    → Chain heap.next program.commands ns × Apart ns × All (λ n. heap.live n ≡ true) ns
IsProgram-Chain heap program [] p = (p.0, tt, tt)
IsProgram-Chain heap program (n ∷ ns) (c, t, d, l) = (c, d, l)

-- Two maps that agree at the addresses of a list and apart from them agree.
agree :
    (f g : ℕ → Bool) (ns : List ℕ)
    → All (λ n. f n ≡ false) ns
    → All (λ n. g n ≡ false) ns
    → (k : ℕ) → (Avoids k ns → f k ≡ g k)
    → f k ≡ g k
agree f g [] a b k h = h tt
agree f g (n ∷ ns) a b k h = elim (Bool-cases (k == n)) [
  | inl e ↦ let same : k ≡ n = ground (arith, e) in ap f same ∙ (a.0 ∙ (sym b.0 ∙ ap g (sym same)))
  | inr e ↦
      let other : k ≢ n = ground (arith, e) in agree f g ns a.1 b.1 k (λ avoids. h (other, avoids))
]

length-addresses : (cmds : List (ℕ × Cmd)) → length (addresses cmds) ≡ length cmds
length-addresses [] = refl
length-addresses (c ∷ cmds) = ap suc (length-addresses cmds)

-- Where `malloc` gives each command of a source an address of its own that was not in use, adding the
-- commands one behind the other links them into one chain from `program.commands`, in their order, on
-- which each holds what was stored in it; and `pl2b_dropProgram`, with fuel for more rounds than there
-- are commands, frees each of them once, in this order, reads none that it has freed, and leaves in
-- use just the addresses that were in use before.
pub drop_program-add_cmds :
    (fuel : ℕ) (heap : CmdHeap) (cmds : List (ℕ × Cmd))
    → length cmds < fuel
    → Apart (addresses cmds)
    → All (λ n. heap.live n ≡ false) (addresses cmds)
    → (built : CmdHeap) × (program : Program) × (released : CmdHeap) × (add_cmds heap init_program
          cmds
        ≡ ok (built, program))
      × Chain built.next program.commands (addresses cmds)
      × (map built.cmd_of (addresses cmds) ≡ commands_of cmds)
      × (drop_program fuel built program ≡ ok (released, addresses cmds))
      × ((k : ℕ) → released.live k ≡ heap.live k)
unfolding drop_program
drop_program-add_cmds fuel heap cmds f d fresh =
    let (built, program, added, is, holds, others) =
      add_cmds-IsProgram heap init_program [] cmds (refl, refl) d in
    let (chain, apart, live) = IsProgram-Chain built program (addresses cmds) is in
    let (released, ends, gone, kept) =
      drop_loop-frees fuel built program.commands (addresses cmds)
        (omega (arith, f, length-addresses cmds)) chain apart live in
    (
      built,
      program,
      released,
      added,
      chain,
      holds,
      ends,
      λ k. agree released.live heap.live (addresses cmds) gone fresh k (λ a. kept k a ∙ others k a),
    )
