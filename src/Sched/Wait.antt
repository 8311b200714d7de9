-- ===== src/Sched/Wait.antt =====
-- wait4 (kernel/sched/process.rs, `wait_current`).
use light_os_orion_risc_v.Prelude.{
  ℕ, ◌≡◌, ◌≢◌, ◌⊎◌, inl, inr, refl, ◌∙◌, true, false, none, some, List, [], ◌∷◌, ◌++◌, arith,
  length, set, slot, slot-set_self, slot-set_ne, slot-lt, Bool-cases, Option-cases,
}
use light_os_orion_risc_v.Sched.{
  ready, sleep_child, Process, System, max_procs, Effect, TrapFrame, page_free, set_frame_a0,
  is_running, is_zombie, is_child,
}
use light_os_orion_risc_v.Sched.Inv.{SysValid, patch-TableValid}
use light_os_orion_risc_v.Sched.Ending.{deliver_status, find_child, wait_current}
use light_os_orion_risc_v.Sched.Running.{patch-OnlyRunning_stop}
use light_os_orion_risc_v.Sched.Reap.{
  Reaped, complete_wait-Reaped, length-set_frame_a0, runs_or_dead,
}
use light_os_orion_risc_v.Sched.Children.{found_zombie, no_zombie, has_child, no_child}

-- What wait4 leaves behind. Without a child the caller goes on with ECHILD; with children that all
-- live it sleeps, and remembers where the status goes; otherwise one child that has exited is reaped.
pub record Waited (s : System) (cur uva : ℕ) (p : Process) (s' : System) (effects : List Effect)
    : Type 0 where
  pub idle : s'.current ≡ none
  pub valid : SysValid s'
  pub outcome :
      (((k : ℕ) (c : Process) → slot s.procs.slots k ≡ some c → is_child c cur ≡ false)
        × (slot s'.procs.slots cur ≡ some (record p { state = ready; wait_status_uva = uva }))
        × (s'.frames ≡ set_frame_a0 s.frames cur 0xffff_ffff_ffff_fff6)
        × (effects ≡ []))
      ⊎ (((k : ℕ) × (c : Process) × (slot s.procs.slots k ≡ some c) × (is_child c cur ≡ true))
          × ((k : ℕ) (c : Process)
              → slot s.procs.slots k ≡ some c
              → is_child c cur ≡ true
              → is_zombie c.state ≡ false)
          × (slot s'.procs.slots cur
              ≡ some (record p { state = sleep_child; wait_status_uva = uva }))
          × (s'.frames ≡ s.frames)
          × (effects ≡ []))
      ⊎ ((j : ℕ) × (c : Process) × (slot s.procs.slots j ≡ some c)
          × (is_child c cur ≡ true)
          × (is_zombie c.state ≡ true)
          × Reaped s cur j c.pid s'
          × (effects
              ≡ deliver_status (record p { wait_status_uva = uva }) c
                ++ (page_free c.root_pa 1 ∷ [])))

-- The current process gives up the hart in another state, the rest of the system being the same.
parked-SysValid :
    (s : System) (cur : ℕ) (p p' : Process) (frames : List TrapFrame)
    → SysValid s
    → s.current ≡ some cur
    → slot s.procs.slots cur ≡ some p
    → p'.pid ≡ p.pid
    → p'.parent ≡ p.parent
    → is_running p'.state ≡ false
    → is_zombie p'.state ≡ false
    → length frames ≡ max_procs
    → SysValid (record s {
      procs = record s.procs { slots = set s.procs.slots cur (some p') };
      current = none;
      frames = frames;
    })
parked-SysValid s cur p p' frames v e here pid parent stopped lives size = record {
  table = patch-TableValid s.procs cur p p' v.table here pid parent (λ z. lives);
  one = patch-OnlyRunning_stop s.procs.slots cur p p' here stopped (rw (← e) v.one);
  frames = size;
}

-- A child that has exited is there.
reap :
    (s : System) (cur uva j : ℕ) (p : Process)
    → SysValid s
    → s.current ≡ some cur
    → slot s.procs.slots cur ≡ some p
    → (find_child s.procs.slots cur).1 ≡ some j
    → (s' : System) × (effects : List Effect) × (wait_current s uva ≡ some (s', effects))
      × Waited s cur uva p s' effects
unfolding wait_current
reap s cur uva j p v e here found =
    let slots = s.procs.slots in
    let asleep : Process = record p { state = sleep_child; wait_status_uva = uva } in
    let (c, at, of, dead, there) = found_zombie slots cur j found in
    let (p₀, here₀, runs) = v.one.runs cur e in
    let apart : cur ≢ j =
      λ same. let both = runs_or_dead p₀.state (ground arith) runs in absurd (cc) in
    let s₀ : System = record s {
      procs = record s.procs { slots = set slots cur (some asleep) };
      current = none;
    } in
    let v₀ : SysValid s₀ =
      parked-SysValid s cur p asleep s.frames v e here refl refl refl refl v.frames in
    let at₀ : slot s₀.procs.slots j ≡ some c = slot-set_ne slots cur j (some asleep) apart ∙ at in
    let self : slot s₀.procs.slots cur ≡ some asleep =
      slot-set_self slots cur (some asleep) (slot-lt slots cur p here) in
    let (s₁, ran, table, one, idle, reaped) =
      complete_wait-Reaped s₀ cur j asleep c v₀.table v₀.one self refl at₀ dead in
    (
      s₁,
      deliver_status asleep c ++ (page_free c.root_pa 1 ∷ []),
      ground arith,
      record {
        idle = idle;
        valid = record {
          table = table;
          one = rw idle one;
          frames = rw (reaped.told) (length-set_frame_a0 s.frames cur _ ∙ v.frames);
        };
        outcome = inr (
            inr (
              j,
              c,
              at,
              of,
              dead,
              record {
                gone = reaped.gone;
                parent = reaped.parent;
                parent_after = reaped.parent_after;
                parent_ready = reaped.parent_ready;
                told = reaped.told;
              },
              refl,
            ));
      },
    )

-- In a valid system wait4 of the current process does not panic and keeps the system valid.
-- Without a child it goes on with ECHILD, with children that all live it sleeps, and otherwise it
-- reaps a child that has exited.
pub wait_current-Waited :
    (s : System) (cur uva : ℕ) (p : Process)
    → SysValid s
    → s.current ≡ some cur
    → slot s.procs.slots cur ≡ some p
    → (s' : System) × (effects : List Effect) × (wait_current s uva ≡ some (s', effects))
      × Waited s cur uva p s' effects
unfolding wait_current
wait_current-Waited s cur uva p v e here =
    let slots = s.procs.slots in
    let asleep : Process = record p { state = sleep_child; wait_status_uva = uva } in
    let woken : Process = record p { state = ready; wait_status_uva = uva } in
    let hj = slot-lt slots cur p here in
    elim (Bool-cases (find_child slots cur).0) [
      | inr childless ↦ (
        record s {
          procs = record s.procs { slots = set slots cur (some woken) };
          current = none;
          frames = set_frame_a0 s.frames cur 0xffff_ffff_ffff_fff6;
        },
        [],
        ground arith,
        record {
          idle = refl;
          valid =
              parked-SysValid s cur p woken (set_frame_a0 s.frames cur 0xffff_ffff_ffff_fff6) v e
                here refl refl refl refl (length-set_frame_a0 s.frames cur _ ∙ v.frames);
          outcome = inl (
            λ k c. no_child slots cur k c childless,
            slot-set_self slots cur (some woken) hj,
            refl,
            refl,
          );
        },
      )
      | inl parent ↦ elim (Option-cases (find_child slots cur).1) [
        | inl nobody ↦ (
          record s {
            procs = record s.procs { slots = set slots cur (some asleep) };
            current = none;
          },
          [],
          ground arith,
          record {
            idle = refl;
            valid = parked-SysValid s cur p asleep s.frames v e here refl refl refl refl v.frames;
            outcome = inr (
                inl (
                  has_child slots cur parent,
                  λ k c. no_zombie slots cur k c nobody,
                  slot-set_self slots cur (some asleep) hj,
                  refl,
                  refl,
                ));
          },
        )
        | inr (j, found) ↦ reap s cur uva j p v e here found
      ]
    ]
