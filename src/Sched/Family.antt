-- ===== src/Sched/Family.antt =====
-- The process table as a family (kernel/sched/process.rs): a new process, and a reaped one.
use light_os_orion_risc_v.Prelude.{
  ℕ, ◌+◌, ◌<◌, ◌≡◌, inl, inr, ◌∙◌, true, false, none, some, arith, length, set, length-set, slot,
  slot-set_ne, slot-set_cases, slot-lt,
}
use light_os_orion_risc_v.Sched.{Process, ProcTable, is_zombie}
use light_os_orion_risc_v.Sched.Inv.{Alive, TableValid}

-- A new process in an empty slot, under the next pid.
pub enroll-TableValid :
    (t : ProcTable) (j : ℕ) (p : Process)
    → TableValid t
    → j < length t.slots
    → slot t.slots j ≡ none
    → p.pid ≡ t.next_pid
    → is_zombie p.state ≡ false
    → ((q : ℕ) → p.parent ≡ some q → Alive t.slots q)
    → TableValid (record t { slots = set t.slots j (some p); next_pid = t.next_pid + 1 })
enroll-TableValid t j p v hj empty pid alive parent =
    let keeps : (q : ℕ) → Alive t.slots q → Alive (set t.slots j (some p)) q =
      λ q (c, there, lives).
        (c, slot-set_ne t.slots j q (some p) (λ same. absurd (ground arith)) ∙ there, lives) in
    record {
      size = length-set t.slots j (some p) ∙ v.size;
      last_run_lt = v.last_run_lt;
      family = λ k q c ek eq. elim (slot-set_cases t.slots j k (some p) c hj ek) [
        | inl (same, is) ↦ keeps q (parent q (ground arith))
        | inr (ne, there) ↦ keeps q (v.family k q c there eq)
      ];
      fresh_pids = λ k c ek. elim (slot-set_cases t.slots j k (some p) c hj ek) [
        | inl (same, is) ↦ ground arith
        | inr (ne, there) ↦ omega (arith, v.fresh_pids k c there)
      ];
      distinct_pids = λ i k a b ei ek eq. elim (slot-set_cases t.slots j i (some p) a hj ei) [
        | inl (same, is) ↦ elim (slot-set_cases t.slots j k (some p) b hj ek) [
          | inl (same', is') ↦ ground arith
          | inr (ne, there) ↦ let old = v.fresh_pids k b there in absurd (ground arith)
        ]
        | inr (ne, there) ↦ elim (slot-set_cases t.slots j k (some p) b hj ek) [
          | inl (same', is') ↦ let old = v.fresh_pids i a there in absurd (ground arith)
          | inr (ne', there') ↦ v.distinct_pids i k a b there there' eq
        ]
      ];
      init_lives = λ k c ek one. elim (slot-set_cases t.slots j k (some p) c hj ek) [
        | inl (same, is) ↦ ground arith
        | inr (ne, there) ↦ v.init_lives k c there one
      ];
    }

-- A zombie has no children, so its slot can be emptied.
pub remove-TableValid :
    (t : ProcTable) (j : ℕ) (z : Process)
    → TableValid t
    → slot t.slots j ≡ some z
    → is_zombie z.state ≡ true
    → TableValid (record t { slots = set t.slots j none })
remove-TableValid t j z v e dead =
    let hj = slot-lt t.slots j z e in
    let was : (k : ℕ) (c : Process)
        → slot (set t.slots j none) k ≡ some c
        → slot t.slots k ≡ some c =
      λ k c ek. elim (slot-set_cases t.slots j k none c hj ek) [
        | inl (same, never) ↦ absurd (cc)
        | inr (ne, there) ↦ there
      ] in
    record {
      size = length-set t.slots j none ∙ v.size;
      last_run_lt = v.last_run_lt;
      family = λ k q c ek eq.
          let (pp, there, lives) = v.family k q c (was k c ek) eq in
          (pp, slot-set_ne t.slots j q none (λ same. absurd (ground arith)) ∙ there, lives);
      fresh_pids = λ k c ek. v.fresh_pids k c (was k c ek);
      distinct_pids = λ i k a b ei ek eq. v.distinct_pids i k a b (was i a ei) (was k b ek) eq;
      init_lives = λ k c ek one. v.init_lives k c (was k c ek) one;
    }
