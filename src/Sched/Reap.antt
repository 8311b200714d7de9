-- ===== src/Sched/Reap.antt =====
-- Reaping a child (kernel/sched/process.rs, `complete_wait`).
use light_os_orion_risc_v.Prelude.{
  ℕ, ◌≡◌, ◌≢◌, inl, inr, refl, sym, ◌∙◌, true, false, Option, none, some, List, [], ◌∷◌, ◌++◌,
  arith, length, set, get_elem?, length-set, slot, slot-set_self, slot-set_ne, slot-set_cases,
  slot-lt, Option-cases,
}
use light_os_orion_risc_v.Sched.{
  ProcState, ready, running, sleep_child, sleep_console, zombie, Process, System, TrapFrame, set_a0,
  page_free, set_frame_a0, is_running, is_zombie,
}
use light_os_orion_risc_v.Sched.Inv.{TableValid, OnlyRunning, patch-TableValid}
use light_os_orion_risc_v.Sched.Ending.{complete_wait, deliver_status}
use light_os_orion_risc_v.Sched.Running.{patch-OnlyRunning_keep}
use light_os_orion_risc_v.Sched.Family.{remove-TableValid}

pub runs_or_dead :
    (state : ProcState) → is_zombie state ≡ true → is_running state ≡ true → false ≡ true
runs_or_dead ready dead r = r
runs_or_dead running dead r = dead
runs_or_dead sleep_child dead r = r
runs_or_dead sleep_console dead r = r
runs_or_dead zombie dead r = r

remove-OnlyRunning :
    (slots : List (Option Process)) (j : ℕ) (current : Option ℕ) (z : Process)
    → slot slots j ≡ some z
    → is_zombie z.state ≡ true
    → OnlyRunning slots current
    → OnlyRunning (set slots j none) current
remove-OnlyRunning slots j current z e dead o = record {
  runs = λ k cur.
      let (c, there, r) = o.runs k cur in
      (
        c,
        slot-set_ne slots j k none
              (λ same. let both = runs_or_dead c.state (ground arith) r in absurd (cc))
            ∙ there,
        r,
      );
  only = λ k c ek r. elim (slot-set_cases slots j k none c (slot-lt slots j z e) ek) [
    | inl (same, never) ↦ absurd (cc)
    | inr (ne, there) ↦ o.only k c there r
  ];
}

-- Child `j` of the waiting process `q` was reaped: its slot is free, and `q` is ready, with the pid
-- as the result of its wait4.
pub record Reaped (s : System) (q j pid : ℕ) (s' : System) : Type 0 where
  pub gone : slot s'.procs.slots j ≡ none
  pub parent : Process
  pub parent_after : slot s'.procs.slots q ≡ some parent
  pub parent_ready : parent.state ≡ ready
  pub told : s'.frames ≡ set_frame_a0 s.frames q pid

pub complete_wait-Reaped :
    (s : System) (q j : ℕ) (p c : Process)
    → TableValid s.procs
    → OnlyRunning s.procs.slots none
    → slot s.procs.slots q ≡ some p
    → p.state ≡ sleep_child
    → slot s.procs.slots j ≡ some c
    → is_zombie c.state ≡ true
    → (s' : System) × (complete_wait s q j
        ≡ some (s', deliver_status p c ++ (page_free c.root_pa 1 ∷ [])))
      × TableValid s'.procs
      × OnlyRunning s'.procs.slots none
      × (s'.current ≡ s.current)
      × Reaped s q j c.pid s'
unfolding complete_wait
complete_wait-Reaped s q j p c v o at asleep there dead =
    let p' : Process = record p { state = ready } in
    let apart : q ≢ j = λ same. absurd (ground arith) in
    let woken : List (Option Process) = set s.procs.slots q (some p') in
    let there' : slot woken j ≡ some c = slot-set_ne s.procs.slots q j (some p') apart ∙ there in
    let hq = slot-lt s.procs.slots q p at in
    (
      record s {
        procs = record s.procs { slots = set woken j none };
        frames = set_frame_a0 s.frames q c.pid;
      },
      ground arith,
      remove-TableValid _ j c (patch-TableValid s.procs q p p' v at refl refl (λ z. refl)) there'
          dead,
      remove-OnlyRunning woken j none c there' dead
          (patch-OnlyRunning_keep s.procs.slots q none p p' at (ground arith) o),
      refl,
      record {
        gone = slot-set_self woken j none (slot-lt woken j c there');
        parent = p';
        parent_after =
            slot-set_ne woken j q none (λ same. apart (sym same))
            ∙ slot-set_self s.procs.slots q (some p') hq;
        parent_ready = refl;
        told = refl;
      },
    )

pub length-set_frame_a0 :
    (frames : List TrapFrame) (j v : ℕ) → length (set_frame_a0 frames j v) ≡ length frames
unfolding set_frame_a0
length-set_frame_a0 frames j v = elim (Option-cases (get_elem? frames j)) [
  | inl nothing ↦ ground arith
  | inr (tf, there) ↦ ground (arith, length-set frames j (set_a0 tf v))
]
