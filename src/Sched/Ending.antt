-- ===== src/Sched/Ending.antt =====
-- kernel/sched/process.rs: how processes end, `exit_current` and `wait_current`.
use light_os_orion_risc_v.Prelude.{
  ℕ, ◌+◌, ◌*◌, ◌%◌, Bool, true, false, Option, none, some, List, [], ◌∷◌, ◌++◌, ◌==◌, if◌then◌else◌,
  set, slot,
}
use light_os_orion_risc_v.Sched.{
  ready, sleep_child, zombie, Process, System, Effect, free_user_space, page_free, copy_out,
  is_sleep_child, is_zombie, is_child, position, with_slots, set_frame_a0, to_le_bytes,
}

-- `let wstatus = (code & 0xff) << 8`, copied out unless the address is null.
abbrev pub deliver_status : Process → Process → List Effect
deliver_status p c =
    if p.wait_status_uva == 0
    then []
    else copy_out p.root_pa p.wait_status_uva (to_le_bytes (c.exit_code % 256 * 256)) ∷ []

unfoldable pub complete_wait : System → ℕ → ℕ → Option (System × List Effect)
complete_wait s parent_slot child_slot = elim (slot s.procs.slots child_slot) [
  | none ↦ none
  | some c ↦ elim (slot s.procs.slots parent_slot) [
    | none ↦ none
    | some p ↦
        let woken = set s.procs.slots parent_slot (some (record p { state = ready })) in
        some (
          record (with_slots s (set woken child_slot none)) {
            frames = set_frame_a0 s.frames parent_slot c.pid;
          },
          deliver_status p c ++ (page_free c.root_pa 1 ∷ []),
        )
  ]
]

-- "Orphans are re-parented to init"
unfoldable pub reparent : List (Option Process) → ℕ → Option ℕ → List (Option Process)
reparent [] cur init_slot = []
reparent (none ∷ r) cur init_slot = none ∷ reparent r cur init_slot
reparent (some p ∷ r) cur init_slot =
    (if is_child p cur then some (record p { parent = init_slot }) else some p)
    ∷ reparent r cur init_slot

abbrev pub init_slot : List (Option Process) → Option ℕ
init_slot slots = position (λ p. p.pid == 1) slots

-- The call of `complete_wait` at the end of `exit_current`, if the parent is blocked in wait4.
abbrev notify : System → ℕ → ℕ → Option (System × List Effect)
notify s parent cur = elim (slot s.procs.slots parent) [
  | none ↦ some (s, [])
  | some p ↦ if is_sleep_child p.state then complete_wait s parent cur else some (s, [])
]

abbrev pub handed_on : List (Option Process) → ℕ → List (Option Process)
handed_on slots cur = reparent slots cur (init_slot slots)

-- The slots with the children handed on and the caller a zombie.
abbrev pub buried : List (Option Process) → ℕ → ℕ → List (Option Process)
buried slots cur code = elim (slot (handed_on slots cur) cur) [
  | none ↦ handed_on slots cur
  | some p ↦ set (handed_on slots cur) cur (some (record p { state = zombie; exit_code = code }))
]

-- `exit_current`, up to its call of `schedule`. Init must not exit.
unfoldable pub exit_current : System → ℕ → Option (System × List Effect)
exit_current s code = elim s.current [
  | none ↦ none
  | some cur ↦ elim (slot s.procs.slots cur) [
    | none ↦ none
    | some p ↦
        let s' = with_slots s (buried s.procs.slots cur code) in
        let told : Option (System × List Effect) = elim p.parent [
          | none ↦ some (s', [])
          | some parent ↦ notify s' parent cur
        ] in
        if p.pid == 1 then none else elim told [
          | none ↦ none
          | some (t, effects) ↦
              some (record t { current = none }, free_user_space p.root_pa ∷ effects)
        ]
  ]
]

-- The loop of `wait_current`: whether there is a child, and the first child that is a zombie.
unfoldable pub find_child : List (Option Process) → ℕ → Bool × Option ℕ
find_child [] cur = (false, none)
find_child (none ∷ r) cur =
    let rest = find_child r cur in (rest.0, elim rest.1 [ none ↦ none | some j ↦ some (j + 1) ])
find_child (some p ∷ r) cur =
    let rest = find_child r cur in
    let later : Option ℕ = elim rest.1 [ none ↦ none | some j ↦ some (j + 1) ] in
    if is_child p cur
    then (if is_zombie p.state then (true, some 0) else (true, later))
    else (rest.0, later)

-- `wait_current`, up to its call of `schedule`. 2^64 - 10 is ECHILD as a register value.
unfoldable pub wait_current : System → ℕ → Option (System × List Effect)
wait_current s status_uva = elim s.current [
  | none ↦ none
  | some cur ↦ elim (slot s.procs.slots cur) [
    | none ↦ none
    | some p ↦
        let found = find_child s.procs.slots cur in
        let asleep = record s {
          procs = record s.procs {
            slots =
                set s.procs.slots cur
                  (some (record p { state = sleep_child; wait_status_uva = status_uva }));
          };
          current = none;
        } in
        let idle = record s {
          procs = record s.procs {
            slots =
                set s.procs.slots cur
                  (some (record p { state = ready; wait_status_uva = status_uva }));
          };
          current = none;
          frames = set_frame_a0 s.frames cur 0xffff_ffff_ffff_fff6;
        } in
        let reaped : Option (System × List Effect) = elim found.1 [
          | none ↦ some (asleep, [])
          | some child_slot ↦ complete_wait asleep cur child_slot
        ] in
        if found.0 then reaped else some (idle, [])
  ]
]
