-- ===== src/Pl2/Chain/Append.antt =====
-- The commands that `finishLine` of pl2/pl2b.c adds one by one are a chain from the first to the last.
use chttpd.Prelude.{
  ℕ, ◌≡◌, ◌≢◌, refl, sym, ap, ◌∙◌, true, Option, none, some, List, [], ◌∷◌, ◌++◌, All, All-append,
  All-of_append, map,
}
use mathlib.Core.Path.{subst}
use mathlib.Core.List.{append-nil, append_assoc}
use chttpd.Libc.{ok}
use chttpd.Linked.{set}
use chttpd.Linked.Moves.{set-same, set-other, Avoids, Apart, last_of, All-last_of}
use chttpd.Linked.Links.{>>=-ok}
use chttpd.Pl2.{Cmd}
use chttpd.Pl2.Chain.{CmdHeap, Program, link_next, link_prev, cmd5, cmd3, add_cmd, add_cmds}

-- The nodes from a pointer on, to the one whose `next` is `NULL`.
abbrev pub Chain : (ℕ → Option ℕ) → Option ℕ → List ℕ → Type 0
Chain next p [] = p ≡ none
Chain next p (n ∷ ns) = (p ≡ some n) × Chain next (next n) ns

abbrev pub IsProgram : CmdHeap → Program → List ℕ → Type 0
IsProgram heap program [] = (program.commands ≡ none) × (program.list_tail ≡ none)
IsProgram heap program (n ∷ ns) =
    Chain heap.next program.commands (n ∷ ns)
    × (program.list_tail ≡ some (last_of n ns))
    × Apart (n ∷ ns)
    × All (λ n. heap.live n ≡ true) (n ∷ ns)

-- The heap behind `cmd5` without a command before, and behind one.
abbrev first_in : CmdHeap → ℕ → Cmd → CmdHeap
first_in heap ret cmd = record heap {
  live = set heap.live ret true;
  prev = set heap.prev ret none;
  cmd_of = set heap.cmd_of ret cmd;
  next = set heap.next ret none;
}

abbrev last_in : CmdHeap → ℕ → ℕ → Cmd → CmdHeap
last_in heap tail ret cmd = record heap {
  live = set heap.live ret true;
  prev = set heap.prev ret (some tail);
  cmd_of = set heap.cmd_of ret cmd;
  next = set (set heap.next tail (some ret)) ret none;
}

cmd5-links :
    (heap : CmdHeap) (tail ret : ℕ) (cmd : Cmd)
    → heap.live tail ≡ true
    → tail ≢ ret
    → cmd5 heap (some ret) (some tail) none cmd ≡ ok (last_in heap tail ret cmd, some ret)
unfolding cmd5 link_next link_prev
cmd5-links heap tail ret cmd l h =
    let at_tail : set heap.live ret true tail ≡ true = set-other heap.live ret true tail h ∙ l in
    rw at_tail refl

Chain-append :
    (next : ℕ → Option ℕ) (p : Option ℕ) (m : ℕ) (ms : List ℕ) (n : ℕ)
    → Apart (m ∷ ms)
    → Avoids n (m ∷ ms)
    → Chain next p (m ∷ ms)
    → Chain (set (set next (last_of m ms) (some n)) n none) p (m ∷ ms ++ n ∷ [])
Chain-append next p m [] n d f h = (
  h.0,
  (
    set-other (set next m (some n)) n none m (λ e. f.0 (sym e)) ∙ set-same next m (some n),
    set-same (set next m (some n)) n none,
  ),
)
Chain-append next p m (c ∷ cs) n d f h =
    let rest = Chain-append next (next m) c cs n d.1 f.1 h.1 in
    let apart : m ≢ last_of c cs =
      All-last_of (λ k. m ≢ k) c cs [] d.0.0 (All-append _ cs [] d.0.1 tt) in
    (
      h.0,
      subst (λ q. Chain (set (set next (last_of c cs) (some n)) n none) q (c ∷ cs ++ n ∷ []))
          (sym (
            set-other (set next (last_of c cs) (some n)) n none m (λ e. f.0 (sym e))
            ∙ set-other next (last_of c cs) (some n) m apart))
          rest,
    )

last_of-append : (m : ℕ) (ms : List ℕ) (n : ℕ) → last_of m (ms ++ n ∷ []) ≡ n
last_of-append m [] n = refl
last_of-append m (c ∷ cs) n = last_of-append c cs n

Apart-append : (ns : List ℕ) (n : ℕ) → Avoids n ns → Apart ns → Apart (ns ++ n ∷ [])
Apart-append [] n f d = (tt, tt)
Apart-append (m ∷ ms) n f d =
    (All-append (λ k. m ≢ k) ms (n ∷ []) d.0 ((λ e. f.0 (sym e)), tt), Apart-append ms n f.1 d.1)

live-append :
    (heap : CmdHeap) (n : ℕ) (ns : List ℕ)
    → All (λ k. heap.live k ≡ true) ns
    → Avoids n ns
    → All (λ k. set heap.live n true k ≡ true) (ns ++ n ∷ [])
live-append heap n [] l f = (set-same heap.live n true, tt)
live-append heap n (m ∷ ms) l f =
    (set-other heap.live n true m (λ e. f.0 (sym e)) ∙ l.0, live-append heap n ms l.1 f.1)

map-append :
    (f : ℕ → Cmd) (n : ℕ) (cmd : Cmd) (ns : List ℕ)
    → Avoids n ns
    → map (set f n cmd) (ns ++ n ∷ []) ≡ map f ns ++ cmd ∷ []
map-append f n cmd [] a = ap (λ x. x ∷ []) (set-same f n cmd)
map-append f n cmd (m ∷ ms) a =
    ap (λ x. x ∷ map (set f n cmd) (ms ++ n ∷ [])) (set-other f n cmd m (λ e. a.0 (sym e)))
    ∙ ap (◌∷◌ (f m)) (map-append f n cmd ms a.1)

-- A new command behind the last of a program.
pub add_cmd-IsProgram :
    (heap : CmdHeap) (program : Program) (ns : List ℕ) (ret : ℕ) (cmd : Cmd)
    → IsProgram heap program ns
    → Avoids ret ns
    → (after : CmdHeap) × (longer : Program) × (add_cmd heap program (some ret) cmd
        ≡ ok (after, longer))
      × IsProgram after longer (ns ++ ret ∷ [])
      × (map after.cmd_of (ns ++ ret ∷ []) ≡ map heap.cmd_of ns ++ cmd ∷ [])
      × ((k : ℕ) → k ≢ ret → after.live k ≡ heap.live k)
unfolding add_cmd cmd3 cmd5 link_next link_prev
add_cmd-IsProgram heap program [] ret cmd (c, t) f = (
  first_in heap ret cmd,
  record { commands = some ret; list_tail = some ret },
  rw (t, c) refl,
  ((refl, set-same heap.next ret none), refl, (tt, tt), (set-same heap.live ret true, tt)),
  map-append heap.cmd_of ret cmd [] tt,
  λ k h. set-other heap.live ret true k h,
)
add_cmd-IsProgram heap program (m ∷ ms) ret cmd (c, t, d, l) f =
    let at : heap.live (last_of m ms) ≡ true =
      All-last_of (λ k. heap.live k ≡ true) m ms [] l.0 (All-append _ ms [] l.1 tt) in
    let other : ret ≢ last_of m ms =
      All-last_of (λ k. ret ≢ k) m ms [] f.0 (All-append _ ms [] f.1 tt) in
    (
      last_in heap (last_of m ms) ret cmd,
      record program { list_tail = some ret },
      rw t (>>=-ok _ (cmd5-links heap (last_of m ms) ret cmd at (λ e. other (sym e))) refl),
      (
        Chain-append heap.next program.commands m ms ret d f c,
        ap some (sym (last_of-append m ms ret)),
        Apart-append (m ∷ ms) ret f d,
        live-append heap ret (m ∷ ms) l f,
      ),
      map-append heap.cmd_of ret cmd (m ∷ ms) f,
      λ k h. set-other heap.live ret true k h,
    )

Avoids-middle : (ns : List ℕ) (n : ℕ) (ms : List ℕ) → Apart (ns ++ n ∷ ms) → Avoids n ns
Avoids-middle [] n ms d = tt
Avoids-middle (k ∷ ns) n ms d =
    ((λ e. (All-of_append (λ m. k ≢ m) ns (n ∷ ms) d.0).1.0 (sym e)), Avoids-middle ns n ms d.1)

abbrev pub addresses : List (ℕ × Cmd) → List ℕ
addresses cmds = map (λ c. c.0) cmds

abbrev pub commands_of : List (ℕ × Cmd) → List Cmd
commands_of cmds = map (λ c. c.1) cmds

pub add_cmds-IsProgram :
    (heap : CmdHeap) (program : Program) (ns : List ℕ) (cmds : List (ℕ × Cmd))
    → IsProgram heap program ns
    → Apart (ns ++ addresses cmds)
    → (after : CmdHeap) × (longer : Program) × (add_cmds heap program cmds ≡ ok (after, longer))
      × IsProgram after longer (ns ++ addresses cmds)
      × (map after.cmd_of (ns ++ addresses cmds) ≡ map heap.cmd_of ns ++ commands_of cmds)
      × ((k : ℕ) → Avoids k (addresses cmds) → after.live k ≡ heap.live k)
unfolding add_cmds
add_cmds-IsProgram heap program ns [] p d = (
  heap,
  program,
  refl,
  subst (IsProgram heap program) (sym (append-nil ns)) p,
  ap (map heap.cmd_of) (append-nil ns) ∙ sym (append-nil (map heap.cmd_of ns)),
  λ k a. refl,
)
add_cmds-IsProgram heap program ns ((ret, cmd) ∷ cmds) p d =
    let (h1, p1, e1, i1, c1, o1) =
      add_cmd-IsProgram heap program ns ret cmd p (Avoids-middle ns ret (addresses cmds) d) in
    let more = append_assoc ns (ret ∷ []) (addresses cmds) in
    let (h2, p2, e2, i2, c2, o2) =
      add_cmds-IsProgram h1 p1 (ns ++ ret ∷ []) cmds i1 (subst Apart (sym more) d) in
    (
      h2,
      p2,
      >>=-ok _ e1 e2,
      subst (IsProgram h2 p2) more i2,
      ap (map h2.cmd_of) (sym more)
          ∙ (c2
              ∙ (ap (λ x. x ++ commands_of cmds) c1
                  ∙ append_assoc (map heap.cmd_of ns) (cmd ∷ []) (commands_of cmds))),
      λ k a. o2 k a.1 ∙ o1 k a.0,
    )
