-- ===== src/Sched/RoundRobin.antt =====
-- kernel/sched/round_robin.rs and the state changes of kernel/sched/mod.rs.
use light_os_orion_risc_v.Prelude.{
  ℕ, zero, suc, ◌+◌, ◌%◌, Bool, false, Option, none, some, List, if◌then◌else◌, set, slot,
}
use light_os_orion_risc_v.Sched.{
  ready, running, Process, ProcTable, System, max_procs, is_ready, is_running, with_slots,
}

abbrev pub ready_at : List (Option Process) → ℕ → Bool
ready_at slots j = elim (slot slots j) [ none ↦ false | some p ↦ is_ready p.state ]

-- The loop of `pick_next` from round `i` on, with the rounds left.
unfoldable pub first_ready : List (Option Process) → ℕ → ℕ → ℕ → Option ℕ
first_ready slots start i zero = none
first_ready slots start i (suc rounds) =
    let rest = first_ready slots start (i + 1) rounds in
    if ready_at slots ((start + i) % max_procs) then some ((start + i) % max_procs) else rest

abbrev mark_running : ProcTable → ℕ → Process → ProcTable
mark_running t j p = record t {
  slots = set t.slots j (some (record p { state = running }));
  last_run = j;
}

unfoldable pub pick_next : ProcTable → Option ((ℕ × ℕ) × ProcTable)
pick_next t = elim (first_ready t.slots t.last_run 1 max_procs) [
  | none ↦ none
  | some j ↦ elim (slot t.slots j) [
    | none ↦ none
    | some p ↦ some ((j, p.root_pa), mark_running t j p)
  ]
]

-- One round of the loop of `schedule`: the process that it enters becomes the current one; without
-- a ready process the hart waits for an interrupt and nothing changes.
unfoldable pub schedule : System → System
schedule s = elim (pick_next s.procs) [
  | none ↦ s
  | some ((j, root_pa), t) ↦ record s { procs = t; current = some j }
]

-- `yield_current`, up to its call of `schedule`.
unfoldable pub yield_current : System → Option System
yield_current s = elim s.current [
  | none ↦ none
  | some cur ↦
      let slots : List (Option Process) = elim (slot s.procs.slots cur) [
        | none ↦ s.procs.slots
        | some p ↦
            if is_running p.state
            then set s.procs.slots cur (some (record p { state = ready }))
            else s.procs.slots
      ] in
      some (record (with_slots s slots) { current = none })
]
