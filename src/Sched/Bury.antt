-- ===== src/Sched/Bury.antt =====
-- The caller of `exit_current` becomes a zombie, and its children init's (kernel/sched/process.rs).
use light_os_orion_risc_v.Prelude.{
  ℕ, ◌≡◌, ◌≢◌, inl, inr, refl, sym, ◌∙◌, false, Option, none, some, List, arith, set, length-set,
  slot, slot-set_self, slot-set_ne, slot-set_cases, slot-lt,
}
use light_os_orion_risc_v.Sched.{zombie, Process, ProcTable, System, is_child}
use light_os_orion_risc_v.Sched.Inv.{Alive, TableValid, OnlyRunning, SysValid}
use light_os_orion_risc_v.Sched.Ending.{init_slot, handed_on, buried}
use light_os_orion_risc_v.Sched.Running.{patch-OnlyRunning_stop}
use light_os_orion_risc_v.Sched.Orphans.{
  adopted, slot-reparent, slot-reparent_cases, handed_on-TableValid, handed_on-childless,
}

-- A process that is nobody's parent and not init may become a zombie.
bury-TableValid :
    (t : ProcTable) (j : ℕ) (p p' : Process)
    → TableValid t
    → slot t.slots j ≡ some p
    → p'.pid ≡ p.pid
    → p'.parent ≡ p.parent
    → p.pid ≢ 1
    → ((k : ℕ) (c : Process) → slot t.slots k ≡ some c → is_child c j ≡ false)
    → TableValid (record t { slots = set t.slots j (some p') })
bury-TableValid t j p p' v e pid parent ne childless =
    let hj = slot-lt t.slots j p e in
    let keeps : (k q : ℕ) (c : Process)
        → slot t.slots k ≡ some c
        → c.parent ≡ some q
        → Alive (set t.slots j (some p')) q =
      λ k q c ek eq.
        let (pp, there, lives) = v.family k q c ek eq in
        let other : is_child c j ≡ false = childless k c ek in
        (pp, slot-set_ne t.slots j q (some p') (λ same. absurd (ground arith)) ∙ there, lives) in
    record {
      size = length-set t.slots j (some p') ∙ v.size;
      last_run_lt = v.last_run_lt;
      family = λ k q c ek eq. elim (slot-set_cases t.slots j k (some p') c hj ek) [
        | inl (same, is) ↦ keeps j q p e (ground arith)
        | inr (other, there) ↦ keeps k q c there eq
      ];
      fresh_pids = λ k c ek. elim (slot-set_cases t.slots j k (some p') c hj ek) [
        | inl (same, is) ↦ let old = v.fresh_pids j p e in ground arith
        | inr (other, there) ↦ v.fresh_pids k c there
      ];
      distinct_pids = λ i k a b ei ek eq. elim (slot-set_cases t.slots j i (some p') a hj ei) [
        | inl (same, is) ↦ elim (slot-set_cases t.slots j k (some p') b hj ek) [
          | inl (same', is') ↦ ground arith
          | inr (other, there) ↦ sym same ∙ v.distinct_pids j k p b e there (ground arith)
        ]
        | inr (other, there) ↦ elim (slot-set_cases t.slots j k (some p') b hj ek) [
          | inl (same', is') ↦ v.distinct_pids i j a p there e (ground arith) ∙ same'
          | inr (other', there') ↦ v.distinct_pids i k a b there there' eq
        ]
      ];
      init_lives = λ k c ek one. elim (slot-set_cases t.slots j k (some p') c hj ek) [
        | inl (same, is) ↦ absurd (ground arith)
        | inr (other, there) ↦ v.init_lives k c there one
      ];
    }

handed_on-OnlyRunning :
    (slots : List (Option Process)) (cur : ℕ) (current : Option ℕ)
    → OnlyRunning slots current
    → OnlyRunning (handed_on slots cur) current
handed_on-OnlyRunning slots cur current o =
    let init = init_slot slots in
    record {
      runs = λ k e.
          let (c, there, r) = o.runs k e in
          (adopted cur init c, ground (arith, slot-reparent slots cur init k), ground arith);
      only = λ k c ek r.
          let (p, there, is) = slot-reparent_cases slots cur init k c ek in
          o.only k p there (ground arith);
    }

-- The caller as a zombie.
abbrev pub dead : List (Option Process) → ℕ → Process → ℕ → Process
dead slots cur p code = record (adopted cur (init_slot slots) p) {
  state = zombie;
  exit_code = code;
}

-- The table just before the parent is told: the caller is a zombie with its code, the table is
-- valid, and nobody runs.
pub buried_lem :
    (s : System) (cur code : ℕ) (p : Process)
    → SysValid s
    → s.current ≡ some cur
    → slot s.procs.slots cur ≡ some p
    → p.pid ≢ 1
    → let after = buried s.procs.slots cur code in
      (slot after cur ≡ some (dead s.procs.slots cur p code))
      × TableValid (record s.procs { slots = after })
      × OnlyRunning after none
buried_lem s cur code p v e here ne =
    let slots = s.procs.slots in
    let h : List (Option Process) = handed_on slots cur in
    let p₁ : Process = adopted cur (init_slot slots) p in
    let p₂ : Process = dead slots cur p code in
    let here₁ : slot h cur ≡ some p₁ =
      ground (arith, slot-reparent slots cur (init_slot slots) cur) in
    let is : buried slots cur code ≡ set h cur (some p₂) = ground arith in
    (
      rw is (slot-set_self h cur (some p₂) (slot-lt h cur p₁ here₁)),
      rw is (
          bury-TableValid (record s.procs { slots = h }) cur p₁ p₂
            (handed_on-TableValid s.procs cur v.table) here₁ refl refl (ground arith)
            (handed_on-childless s.procs cur p here ne)),
      rw is (
          patch-OnlyRunning_stop h cur p₁ p₂ here₁ refl
            (handed_on-OnlyRunning slots cur (some cur) (rw (← e) v.one))),
    )
