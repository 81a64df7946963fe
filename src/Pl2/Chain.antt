-- ===== src/Pl2/Chain.antt =====
-- The commands of pl2/pl2b.c on the heap: `pl2b_cmd5` and `cmdFromSlices4` allocate and link one,
-- `finishLine` links it behind the last, `pl2b_dropProgram` frees them. An access to an address
-- that is not in use, or a second `free`, is a fault.
pub mod Append
pub mod Release
use chttpd.Prelude.{
  ℕ, zero, suc, Bool, true, false, Option, none, some, List, [], ◌∷◌, if◌then◌else◌,
}
use chttpd.Libc.{Result, ok, fault, use_after_free, assertion_failed, out_of_fuel, ◌>>=◌}
use chttpd.Linked.{set}
use chttpd.Pl2.{Cmd}

pub record CmdHeap : Type 0 where
  pub live : ℕ → Bool
  pub prev : ℕ → Option ℕ
  pub next : ℕ → Option ℕ
  -- `sourceInfo`, `cmd` and `args`
  pub cmd_of : ℕ → Cmd

-- `program.commands` and `listTail` of the parser.
pub record Program : Type 0 where
  pub commands : Option ℕ
  pub list_tail : Option ℕ

abbrev pub init_program : Program
init_program = record { commands = none; list_tail = none }

-- `if (prev != NULL) { prev->next = ret; }`
unfoldable pub link_next : CmdHeap → Option ℕ → ℕ → Result CmdHeap
link_next heap none ret = ok heap
link_next heap (some prev) ret =
    if heap.live prev
    then ok (record heap { next = set heap.next prev (some ret) })
    else fault use_after_free

-- `if (next != NULL) { next->prev = ret; }`
unfoldable pub link_prev : CmdHeap → Option ℕ → ℕ → Result CmdHeap
link_prev heap none ret = ok heap
link_prev heap (some next) ret =
    if heap.live next
    then ok (record heap { prev = set heap.prev next (some ret) })
    else fault use_after_free

-- A command with its links. `malloc` is the address, or `NULL`.
unfoldable pub cmd5 : CmdHeap → Option ℕ → Option ℕ → Option ℕ → Cmd → Result (CmdHeap × Option ℕ)
unfolding link_next link_prev
cmd5 heap none prev next cmd = ok (heap, none)
cmd5 heap (some ret) prev next cmd =
    let heap = record heap {
      live = set heap.live ret true;
      prev = set heap.prev ret prev;
      cmd_of = set heap.cmd_of ret cmd;
    } in
    link_next heap prev ret >>= λ heap.
    link_prev (record heap { next = set heap.next ret next }) next ret >>= λ heap.
    ok (heap, some ret)

unfoldable pub cmd3 : CmdHeap → Option ℕ → Cmd → Result (CmdHeap × Option ℕ)
unfolding cmd5
cmd3 heap malloc cmd = cmd5 heap malloc none none cmd

-- The command of a line behind the last one.
unfoldable pub add_cmd : CmdHeap → Program → Option ℕ → Cmd → Result (CmdHeap × Program)
unfolding cmd5 cmd3
add_cmd heap program malloc cmd = elim program.list_tail [
  | none ↦ elim program.commands [
    | none ↦ cmd3 heap malloc cmd >>= λ (heap, ret).
        ok (heap, record { commands = ret; list_tail = ret })
    | some first ↦ fault assertion_failed
  ]
  | some tail ↦ cmd5 heap malloc (some tail) none cmd >>= λ (heap, ret).
      ok (heap, record program { list_tail = ret })
]

-- The commands of the lines of a source, each with the address that `malloc` gives it.
unfoldable pub add_cmds : CmdHeap → Program → List (ℕ × Cmd) → Result (CmdHeap × Program)
unfolding add_cmd
add_cmds heap program [] = ok (heap, program)
add_cmds heap program ((ret, cmd) ∷ cmds) =
    add_cmd heap program (some ret) cmd >>= λ (heap, program). add_cmds heap program cmds

-- The loop of `pl2b_dropProgram`, on fuel: the heap, and the commands that it freed in order.
unfoldable pub drop_loop : ℕ → CmdHeap → Option ℕ → Result (CmdHeap × List ℕ)
drop_loop zero heap iter = fault out_of_fuel
drop_loop (suc fuel) heap none = ok (heap, [])
drop_loop (suc fuel) heap (some iter) = elim (heap.live iter) [
  | false ↦ fault use_after_free
  | true ↦
      drop_loop fuel (record heap { live = set heap.live iter false }) (heap.next iter)
      >>= λ (heap, freed). ok (heap, iter ∷ freed)
]

unfoldable pub drop_program : ℕ → CmdHeap → Program → Result (CmdHeap × List ℕ)
unfolding drop_loop
drop_program fuel heap program = drop_loop fuel heap program.commands
