-- ===== src/Sched/Reach.antt =====
-- Everything that the kernel does to its processes (kernel/sched), as steps from boot, and the
-- invariant of all states that are reached.
use light_os_orion_risc_v.Prelude.{
  ℕ, ◌-◌, ◌^◌, ◌≡◌, ◌||◌, ltb, leb, Bool-cases, inl, inr, refl, sym, ap, ◌∙◌, Bool, true, false,
  Option, none, some, List, arith, set, length-set, slot, slot-replicate, Option-cases, ℕ_discrete,
}
use light_os_orion_risc_v.Sched.{
  Process, System, TrapFrame, FdKind, OpenFile, max_procs, boot, Effect, with_slots, is_running,
  is_zombie,
}
use light_os_orion_risc_v.Sched.Files.{place, open_file, install_fd, sys_close}
use light_os_orion_risc_v.Net.Socket.{SocketTable}
use light_os_orion_risc_v.Nce.{set_current}
use light_os_orion_risc_v.Sched.Inv.{SysValid, patch-TableValid}
use light_os_orion_risc_v.Sched.Ending.{exit_current, wait_current}
use light_os_orion_risc_v.Sched.Wait.{wait_current-Waited}
use light_os_orion_risc_v.Sched.Exit.{exit_current-Exited}
use light_os_orion_risc_v.Sched.Running.{
  patch-OnlyRunning_keep, schedule-SysValid, yield_current-SysValid, block_on_console-SysValid,
}
use light_os_orion_risc_v.Sched.RoundRobin.{schedule, yield_current}
use light_os_orion_risc_v.Sched.Console.{block_on_console, wake_console_reader}
use light_os_orion_risc_v.Sched.Lifecycle.{spawn, fork_current, exec_current, Image, Forked}
use light_os_orion_risc_v.Uart.{RxRing}
use light_os_orion_risc_v.Sched.Begin.{
  wake_console_reader-SysValid, spawn-SysValid, exec_current-SysValid, fork_current-SysValid,
}

-- The table with another process in a slot.
abbrev pub rewritten : System → ℕ → Process → System
rewritten s j p = with_slots s (set s.procs.slots j (some p))

-- One operation. `schedule` is entered with no current process; the others are made for the
-- current one, or by a trap, or at boot. A panic is no step.
pub data Step : System → System → Type 0 where
  schedules : {s : System} → s.current ≡ none → Step s (schedule s)
  yields : {s s' : System} → yield_current s ≡ some s' → Step s s'
  blocks : {s s' : System} (buf_uva len : ℕ) → block_on_console s buf_uva len ≡ some s' → Step s s'
  wakes :
      {s : System} (copied : ℕ → ℕ → List ℕ → Bool) (rx : RxRing)
      → Step s (wake_console_reader copied s rx).0
  waits_for_child :
      {s s' : System} (uva : ℕ) (effects : List Effect)
      → wait_current s uva ≡ some (s', effects)
      → Step s s'
  exits :
      {s s' : System} (code : ℕ) (effects : List Effect)
      → exit_current s code ≡ some (s', effects)
      → Step s s'
  spawns :
      {s s' : System} (kernel_sp pid : ℕ) (name : List ℕ) (image : Image)
      → spawn kernel_sp s name image ≡ some (pid, s')
      → Step s s'
  forks :
      {s s' : System} (kernel_sp : ℕ) (root : Option ℕ) (cloned : Bool) (result : Forked)
      (effects : List Effect)
      → fork_current kernel_sp s root cloned ≡ some (result, s', effects)
      → Step s s'
  execs :
      {s s' : System} (kernel_sp : ℕ) (name : List ℕ) (image : Image) (effects : List Effect)
      → exec_current kernel_sp s name image ≡ some (s', effects)
      → Step s s'
  installs : {s : System} (kind : FdKind) → Step s (install_fd s kind).1
  closes : {s : System} (t : SocketTable) (fd : ℕ) → Step s (sys_close s t fd).1
  sets_affinity : {s s' : System} (mask : ℕ) → set_current s mask ≡ some s' → Step s s'
  -- The calls that open or read a file, or map memory, write the files or the next address of the
  -- current process.
  updates :
      {s : System} (cur : ℕ) (p : Process) (files : List (Option OpenFile)) (next_mmap : ℕ)
      → s.current ≡ some cur
      → slot s.procs.slots cur ≡ some p
      → Step s (rewritten s cur (record p { files = files; next_mmap = next_mmap }))
  -- A trap saves registers into a frame, and the result of a call goes there.
  saves : {s : System} (j : ℕ) (f : TrapFrame) → Step s (record s { frames = set s.frames j f })

pub data Reachable : System → Type 0 where
  booted : Reachable boot
  after : {s s' : System} → Reachable s → Step s s' → Reachable s'

boot_empty : (j : ℕ) (p : Process) → slot boot.procs.slots j ≡ some p → false ≡ true
boot_empty j p e = let no = sym (slot-replicate {A = Process} max_procs j) ∙ e in cc

boot-SysValid : SysValid boot
boot-SysValid = record {
  table = record {
    size = refl;
    last_run_lt = omega arith;
    family = λ j q p e. let no = boot_empty j p e in absurd (cc);
    fresh_pids = λ j p e. let no = boot_empty j p e in absurd (cc);
    distinct_pids = λ i j p q e. let no = boot_empty i p e in absurd (cc);
    init_lives = λ j p e. let no = boot_empty j p e in absurd (cc);
  };
  one = record {
    runs = λ j never. absurd (cc);
    only = λ j p e. let no = boot_empty j p e in absurd (cc);
  };
  frames = refl;
}

yields-SysValid : (s s' : System) → SysValid s → yield_current s ≡ some s' → SysValid s'
unfolding yield_current
yields-SysValid s s' v e = elim (Option-cases s.current) [
  | inl idle ↦ absurd (ground arith)
  | inr (cur, is_cur) ↦
      let (s₁, e₁, stopped, v₁) = yield_current-SysValid s cur is_cur v in
      let is : s' ≡ s₁ = ground arith in rw is v₁
]

blocks-SysValid :
    (s s' : System) (buf_uva len : ℕ)
    → SysValid s
    → block_on_console s buf_uva len ≡ some s'
    → SysValid s'
unfolding block_on_console
blocks-SysValid s s' buf_uva len v e = elim (Option-cases s.current) [
  | inl idle ↦ absurd (ground arith)
  | inr (cur, is_cur) ↦
      let (s₁, e₁, stopped, v₁) = block_on_console-SysValid s cur buf_uva len is_cur v in
      let is : s' ≡ s₁ = ground arith in rw is v₁
]

waits-SysValid :
    (s s' : System) (uva : ℕ) (effects : List Effect)
    → SysValid s
    → wait_current s uva ≡ some (s', effects)
    → SysValid s'
unfolding wait_current
waits-SysValid s s' uva effects v e = elim (Option-cases s.current) [
  | inl idle ↦ absurd (ground arith)
  | inr (cur, is_cur) ↦
      let (p, here, runs) = v.one.runs cur is_cur in
      let (s₁, effects₁, e₁, w) = wait_current-Waited s cur uva p v is_cur here in
      let is : s' ≡ s₁ = ground arith in rw is w.valid
]

exits-SysValid :
    (s s' : System) (code : ℕ) (effects : List Effect)
    → SysValid s
    → exit_current s code ≡ some (s', effects)
    → SysValid s'
unfolding exit_current
exits-SysValid s s' code effects v e = elim (Option-cases s.current) [
  | inl idle ↦ absurd (ground arith)
  | inr (cur, is_cur) ↦
      let (p, here, runs) = v.one.runs cur is_cur in
      elim (ℕ_discrete p.pid 1) [
        | yes init ↦ absurd (ground arith)
        | no other ↦
            let (s₁, effects₁, e₁, w) = exit_current-Exited s cur code p v is_cur here other in
            let is : s' ≡ s₁ = ground arith in rw is w.valid
      ]
]

-- A write to a process that keeps its pid, its parent and its state.
rewritten-SysValid :
    (s : System) (j : ℕ) (p p' : Process)
    → SysValid s
    → slot s.procs.slots j ≡ some p
    → p'.pid ≡ p.pid
    → p'.parent ≡ p.parent
    → p'.state ≡ p.state
    → SysValid (rewritten s j p')
rewritten-SysValid s j p p' v here pid parent state = record {
  table =
      patch-TableValid s.procs j p p' v.table here pid parent (λ lives. ap is_zombie state ∙ lives);
  one =
      patch-OnlyRunning_keep s.procs.slots j s.current p p' here (ap is_running (sym state)) v.one;
  frames = v.frames;
}

same-SysValid : (s s' : System) → s ≡ s' → SysValid s → SysValid s'
same-SysValid s s' e v = rw (← e) v

installs-SysValid : (s : System) (kind : FdKind) → SysValid s → SysValid (install_fd s kind).1
unfolding install_fd
installs-SysValid s kind v = elim (Option-cases s.current) [
  | inl idle ↦ same-SysValid s (install_fd s kind).1 (ground arith) v
  | inr (cur, is_cur) ↦
      let (p, here, runs) = v.one.runs cur is_cur in
      let p' : Process = record p { files = (place p.files (record { kind = kind; pos = 0 })).0 } in
      same-SysValid (rewritten s cur p') (install_fd s kind).1 (ground arith)
        (rewritten-SysValid s cur p p' v here refl refl refl)
]

closes-SysValid :
    (s : System) (t : SocketTable) (fd : ℕ) → SysValid s → SysValid (sys_close s t fd).1
unfolding sys_close
closes-SysValid s t fd v = elim (Bool-cases (ltb fd 3 || leb (2 ^ 63) fd)) [
  | inl outside ↦ same-SysValid s (sys_close s t fd).1 (ground arith) v
  | inr within ↦ elim (Option-cases s.current) [
    | inl idle ↦ same-SysValid s (sys_close s t fd).1 (ground arith) v
    | inr (cur, is_cur) ↦
        let (p, here, runs) = v.one.runs cur is_cur in
        elim (Option-cases (open_file p fd)) [
          | inl free ↦ same-SysValid s (sys_close s t fd).1 (ground arith) v
          | inr (f, at) ↦
              let p' : Process = record p { files = set p.files (fd - 3) none } in
              same-SysValid (rewritten s cur p') (sys_close s t fd).1 (ground arith)
                (rewritten-SysValid s cur p p' v here refl refl refl)
        ]
  ]
]

sets_affinity-SysValid :
    (s s' : System) (mask : ℕ) → SysValid s → set_current s mask ≡ some s' → SysValid s'
unfolding set_current
sets_affinity-SysValid s s' mask v e = elim (Option-cases s.current) [
  | inl idle ↦ absurd (ground arith)
  | inr (cur, is_cur) ↦
      let (p, here, runs) = v.one.runs cur is_cur in
      let is : rewritten s cur (record p { nce_affinity = mask }) ≡ s' = ground arith in
      rw (← is)
        (rewritten-SysValid s cur p (record p { nce_affinity = mask }) v here refl refl refl)
]

Step-SysValid : (s s' : System) → SysValid s → Step s s' → SysValid s'
Step-SysValid s s' v (schedules idle) = schedule-SysValid s idle v
Step-SysValid s s' v (yields e) = yields-SysValid s s' v e
Step-SysValid s s' v (blocks buf_uva len e) = blocks-SysValid s s' buf_uva len v e
Step-SysValid s s' v (wakes copied rx) = wake_console_reader-SysValid copied s rx v
Step-SysValid s s' v (waits_for_child uva effects e) = waits-SysValid s s' uva effects v e
Step-SysValid s s' v (exits code effects e) = exits-SysValid s s' code effects v e
Step-SysValid s s' v (spawns kernel_sp pid name image e) =
    spawn-SysValid kernel_sp s name image pid s' v e
Step-SysValid s s' v (forks kernel_sp root cloned result effects e) =
    fork_current-SysValid kernel_sp s root cloned result s' effects v e
Step-SysValid s s' v (execs kernel_sp name image effects e) =
    exec_current-SysValid kernel_sp s name image s' effects v e
Step-SysValid s s' v (installs kind) = installs-SysValid s kind v
Step-SysValid s s' v (closes t fd) = closes-SysValid s t fd v
Step-SysValid s s' v (sets_affinity mask e) = sets_affinity-SysValid s s' mask v e
Step-SysValid s s' v (updates cur p files next_mmap is_cur here) =
    rewritten-SysValid s cur p (record p { files = files; next_mmap = next_mmap }) v here refl refl
      refl
Step-SysValid s s' v (saves j f) = record {
  table = v.table;
  one = v.one;
  frames = length-set s.frames j f ∙ v.frames;
}

-- In every state that the kernel reaches from boot, the process that runs is the current one and
-- no other runs; every parent is a process that has not exited; pids are distinct; init has not
-- exited.
pub Reachable-SysValid : (s : System) → Reachable s → SysValid s
Reachable-SysValid s booted = boot-SysValid
Reachable-SysValid s (after r st) = Step-SysValid _ s (Reachable-SysValid _ r) st
