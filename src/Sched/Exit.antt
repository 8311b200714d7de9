-- ===== src/Sched/Exit.antt =====
-- The end of a process (kernel/sched/process.rs, `exit_current`).
use light_os_orion_risc_v.Prelude.{
  ℕ, ◌≡◌, ◌≢◌, ◌⊎◌, inl, inr, refl, ap, ◌∙◌, true, Option, none, some, List, [], ◌∷◌, ◌++◌, arith,
  length, set, slot, slot-set_cases, slot-lt, Bool-cases, Option-cases,
}
use light_os_orion_risc_v.Sched.{
  ProcState, ready, running, sleep_child, sleep_console, zombie, Process, System, max_procs, Effect,
  free_user_space, page_free, with_slots, set_frame_a0, is_sleep_child, is_running,
}
use light_os_orion_risc_v.Sched.Inv.{TableValid, OnlyRunning, SysValid}
use light_os_orion_risc_v.Sched.Ending.{init_slot, handed_on, buried, exit_current, deliver_status}
use light_os_orion_risc_v.Sched.Orphans.{adopted, slot-reparent, slot-reparent_cases}
use light_os_orion_risc_v.Sched.Reap.{Reaped, complete_wait-Reaped, length-set_frame_a0}
use light_os_orion_risc_v.Sched.Bury.{dead, buried_lem}
use light_os_orion_risc_v.Sched.Await.{Unawaited, unawaited}

sleep_child-state : (state : ProcState) → is_sleep_child state ≡ true → state ≡ sleep_child
sleep_child-state ready e = cc
sleep_child-state running e = cc
sleep_child-state sleep_child e = refl
sleep_child-state sleep_console e = cc
sleep_child-state zombie e = cc

-- The process that waits for `p` in wait4, if its parent does.
abbrev pub Waits : System → Process → ℕ → Process → Type 0
Waits s p q pp = (p.parent ≡ some q) × (slot s.procs.slots q ≡ some pp) × (pp.state ≡ sleep_child)

-- The state after an exit: either nobody waits, and the process stays as a zombie with its code, or
-- the parent waits, and gets the pid and the status.
pub record Exited (s : System) (cur : ℕ) (p : Process) (code : ℕ) (s' : System)
    (effects : List Effect) : Type 0 where
  pub idle : s'.current ≡ none
  pub valid : SysValid s'
  pub outcome :
      (Unawaited s p
        × (slot s'.procs.slots cur ≡ some (dead s.procs.slots cur p code))
        × (effects ≡ free_user_space p.root_pa ∷ []))
      ⊎ ((q : ℕ) × (pp : Process) × Waits s p q pp
          × Reaped s q cur p.pid s'
          × (effects
              ≡ free_user_space p.root_pa
                ∷ (deliver_status pp (record p { exit_code = code })
                    ++ (page_free p.root_pa 1 ∷ []))))

-- The caller stays a zombie.
buried-Exited :
    (s : System) (cur code : ℕ) (p : Process)
    → SysValid s
    → s.current ≡ some cur
    → slot s.procs.slots cur ≡ some p
    → p.pid ≢ 1
    → Unawaited s p
    → Exited s cur p code
        (record s {
          procs = record s.procs { slots = buried s.procs.slots cur code };
          current = none;
        })
        (free_user_space p.root_pa ∷ [])
buried-Exited s cur code p v e here ne quiet =
    let (there, table, one) = buried_lem s cur code p v e here ne in
    record {
      idle = refl;
      valid = record { table = table; one = one; frames = v.frames };
      outcome = inl (quiet, there, refl);
    }

-- A sleeping parent is what it was before the children were handed on, but for its own parent.
waiting_parent :
    (s : System) (cur code q : ℕ) (p pp : Process)
    → slot s.procs.slots cur ≡ some p
    → slot (buried s.procs.slots cur code) q ≡ some pp
    → pp.state ≡ sleep_child
    → (old : Process) × (slot s.procs.slots q ≡ some old)
      × (pp ≡ adopted cur (init_slot s.procs.slots) old)
      × (old.state ≡ sleep_child)
waiting_parent s cur code q p pp here at asleep =
    let slots = s.procs.slots in
    let h : List (Option Process) = handed_on slots cur in
    let init = init_slot slots in
    let here₁ : slot h cur ≡ some (adopted cur init p) =
      ground (arith, slot-reparent slots cur init cur) in
    let is : buried slots cur code ≡ set h cur (some (dead slots cur p code)) = ground arith in
    elim (slot-set_cases h cur q (some (dead slots cur p code)) pp (slot-lt h cur _ here₁)
      (rw (← is) at)) [
        | inl (same, zombie_is) ↦ absurd (ground arith)
        | inr (other, there) ↦
            let (old, was, is_old) = slot-reparent_cases slots cur init q pp there in
            (old, was, is_old, ground arith)
      ]

-- The parent has reaped the caller.
told-Exited :
    (s : System) (cur code q : ℕ) (p pp old : Process) (s' : System)
    → Waits s p q old
    → pp ≡ adopted cur (init_slot s.procs.slots) old
    → length s.frames ≡ max_procs
    → TableValid s'.procs
    → OnlyRunning s'.procs.slots none
    → Reaped
        (with_slots s (buried s.procs.slots cur code))
        q
        cur
        (dead s.procs.slots cur p code).pid
        s'
    → Exited s cur p code
        (record s' { current = none })
        (free_user_space p.root_pa
          ∷ (deliver_status pp (dead s.procs.slots cur p code) ++ (page_free p.root_pa 1 ∷ [])))
told-Exited s cur code q p pp old s' waits is_old size table one r =
    let pid : (dead s.procs.slots cur p code).pid ≡ p.pid = ground arith in
    let status : deliver_status pp (dead s.procs.slots cur p code)
        ≡ deliver_status old (record p { exit_code = code }) =
      ground arith in
    record {
      idle = refl;
      valid = record {
        table = table;
        one = one;
        frames = rw (r.told) (length-set_frame_a0 s.frames q _ ∙ size);
      };
      outcome = inr (
        q,
        old,
        waits,
        record {
          gone = r.gone;
          parent = r.parent;
          parent_after = r.parent_after;
          parent_ready = r.parent_ready;
          told = r.told ∙ ap (λ n. set_frame_a0 s.frames q n) pid;
        },
        rw status refl,
      );
    }

-- In a valid system the current process, unless it is init, may exit: the kernel does not panic
-- and the system stays valid. If no parent waits in wait4 the process is a zombie with its code;
-- if one does, it is ready again with the pid and the status of the child, whose slot is free.
pub exit_current-Exited :
    (s : System) (cur code : ℕ) (p : Process)
    → SysValid s
    → s.current ≡ some cur
    → slot s.procs.slots cur ≡ some p
    → p.pid ≢ 1
    → (s' : System) × (effects : List Effect) × (exit_current s code ≡ some (s', effects))
      × Exited s cur p code s' effects
unfolding exit_current
exit_current-Exited s cur code p v e here ne =
    let (there, table, one) = buried_lem s cur code p v e here ne in
    let after : List (Option Process) = buried s.procs.slots cur code in
    let (p₀, here₀, r₀) = v.one.runs cur e in
    let runs : is_running p.state ≡ true = ground arith in
    let s₁ : System = with_slots s after in
    elim (Option-cases p.parent) [
      | inl orphan ↦ (
        record s₁ { current = none },
        free_user_space p.root_pa ∷ [],
        ground arith,
        buried-Exited s cur code p v e here ne (λ q pp of. absurd (ground arith)),
      )
      | inr (q, of) ↦ elim (Option-cases (slot after q)) [
        | inl nobody ↦ (
          record s₁ { current = none },
          free_user_space p.root_pa ∷ [],
          ground arith,
          buried-Exited s cur code p v e here ne
              (unawaited s cur code q p here runs of (λ pp at. absurd (ground arith))),
        )
        | inr (pp, at) ↦ elim (Bool-cases (is_sleep_child pp.state)) [
          | inr awake ↦ (
            record s₁ { current = none },
            free_user_space p.root_pa ∷ [],
            ground arith,
            buried-Exited s cur code p v e here ne
                (unawaited s cur code q p here runs of (λ c there. ground arith)),
          )
          | inl asleep ↦
              let st = sleep_child-state pp.state asleep in
              let (old, was, is_old, slept) = waiting_parent s cur code q p pp here at st in
              let (s₂, ran, table₂, one₂, cur₂, reaped) =
                complete_wait-Reaped s₁ q cur pp (dead s.procs.slots cur p code) table one at st
                  there refl in
              (
                record s₂ { current = none },
                free_user_space p.root_pa
                    ∷ (deliver_status pp (dead s.procs.slots cur p code)
                        ++ (page_free p.root_pa 1 ∷ [])),
                ground arith,
                told-Exited s cur code q p pp old s₂ (of, was, slept) is_old v.frames table₂ one₂
                    reaped,
              )
        ]
      ]
    ]
