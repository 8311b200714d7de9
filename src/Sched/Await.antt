-- ===== src/Sched/Await.antt =====
-- Whether the parent of a process waits for it (kernel/sched/process.rs, `exit_current`).
use light_os_orion_risc_v.Prelude.{
  ℕ, ◌≡◌, ◌≢◌, inl, inr, ◌∙◌, true, false, slot-set_ne, some, arith, set, slot, Bool-cases,
}
use light_os_orion_risc_v.Sched.{
  ProcState, ready, running, sleep_child, sleep_console, zombie, Process, System, is_sleep_child,
  is_running,
}
use light_os_orion_risc_v.Sched.Ending.{init_slot, handed_on, buried}
use light_os_orion_risc_v.Sched.Orphans.{adopted, slot-reparent}
use light_os_orion_risc_v.Sched.Bury.{dead}

-- No parent of `p` waits in wait4.
abbrev pub Unawaited : System → Process → Type 0
Unawaited s p =
    (q : ℕ) (pp : Process)
    → p.parent ≡ some q
    → slot s.procs.slots q ≡ some pp
    → is_sleep_child pp.state ≡ false

running_not_asleep :
    (state : ProcState) → is_running state ≡ true → is_sleep_child state ≡ true → false ≡ true
running_not_asleep ready runs sleeps = runs
running_not_asleep running runs sleeps = sleeps
running_not_asleep sleep_child runs sleeps = runs
running_not_asleep sleep_console runs sleeps = runs
running_not_asleep zombie runs sleeps = runs

-- A process in wait4 is still there, and still asleep, after the caller was buried.
still_asleep :
    (s : System) (cur code q : ℕ) (p pp : Process)
    → slot s.procs.slots cur ≡ some p
    → is_running p.state ≡ true
    → slot s.procs.slots q ≡ some pp
    → is_sleep_child pp.state ≡ true
    → (pp' : Process) × (slot (buried s.procs.slots cur code) q ≡ some pp')
      × (is_sleep_child pp'.state ≡ true)
still_asleep s cur code q p pp here runs at sleeps =
    let slots = s.procs.slots in
    let init = init_slot slots in
    let apart : cur ≢ q =
      λ same. let both = running_not_asleep pp.state (ground arith) sleeps in absurd (cc) in
    let is : buried slots cur code ≡ set (handed_on slots cur) cur (some (dead slots cur p code)) =
      ground (arith, slot-reparent slots cur init cur) in
    (
      adopted cur init pp,
      rw is (
          slot-set_ne (handed_on slots cur) cur q (some (dead slots cur p code)) apart
          ∙ ground (arith, slot-reparent slots cur init q)),
      ground arith,
    )

-- If the parent's slot holds no sleeper after the caller was buried, it held none before.
pub unawaited :
    (s : System) (cur code q : ℕ) (p : Process)
    → slot s.procs.slots cur ≡ some p
    → is_running p.state ≡ true
    → p.parent ≡ some q
    → ((pp : Process)
        → slot (buried s.procs.slots cur code) q ≡ some pp
        → is_sleep_child pp.state ≡ false)
    → Unawaited s p
unawaited s cur code q p here runs of none_sleeps q' pp of' at =
    elim (Bool-cases (is_sleep_child pp.state)) [
      | inl sleeps ↦
          let same : q' ≡ q = ground arith in
          let (pp', at', sleeps') =
            still_asleep s cur code q p pp here runs (rw (← same) at) sleeps in
          let awake = none_sleeps pp' at' in absurd (cc)
      | inr awake ↦ awake
    ]
