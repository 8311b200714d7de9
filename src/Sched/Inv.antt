-- ===== src/Sched/Inv.antt =====
-- The invariant of the process table (kernel/sched) and the operations that keep every process
-- where it is.
use light_os_orion_risc_v.Prelude.{
  ℕ, ◌<◌, ◌≡◌, inl, inr, ap, sym, ◌∙◌, true, false, Option, some, List, arith, length, set,
  length-set, slot, slot-set_self, slot-set_ne, slot-set_cases, slot-lt, ℕ_discrete,
}
use light_os_orion_risc_v.Sched.{Process, ProcTable, System, max_procs, is_running, is_zombie}

-- The slot holds a process that has not exited.
abbrev pub Alive : List (Option Process) → ℕ → Type 0
Alive slots q = (p : Process) × (slot slots q ≡ some p) × (is_zombie p.state ≡ false)

-- The table has its 64 slots; every parent is a live process that has not exited; pids are fresh
-- and distinct; init does not exit.
pub record TableValid (t : ProcTable) : Type 0 where
  pub size : length t.slots ≡ max_procs
  pub last_run_lt : t.last_run < max_procs
  pub family :
      (j q : ℕ) (p : Process) → slot t.slots j ≡ some p → p.parent ≡ some q → Alive t.slots q
  pub fresh_pids : (j : ℕ) (p : Process) → slot t.slots j ≡ some p → p.pid < t.next_pid
  pub distinct_pids :
      (i j : ℕ) (p q : Process)
      → slot t.slots i ≡ some p
      → slot t.slots j ≡ some q
      → p.pid ≡ q.pid
      → i ≡ j
  pub init_lives :
      (j : ℕ) (p : Process) → slot t.slots j ≡ some p → p.pid ≡ 1 → is_zombie p.state ≡ false

-- The current process is running, and no other is.
pub record OnlyRunning (slots : List (Option Process)) (current : Option ℕ) : Type 0 where
  pub runs :
      (j : ℕ)
      → current ≡ some j
      → (p : Process) × (slot slots j ≡ some p) × (is_running p.state ≡ true)
  pub only :
      (j : ℕ) (p : Process) → slot slots j ≡ some p → is_running p.state ≡ true → current ≡ some j

pub record SysValid (s : System) : Type 0 where
  pub table : TableValid s.procs
  pub one : OnlyRunning s.procs.slots s.current
  pub frames : length s.frames ≡ max_procs

pub patch-Alive :
    (slots : List (Option Process)) (j q : ℕ) (p p' : Process)
    → slot slots j ≡ some p
    → (is_zombie p.state ≡ false → is_zombie p'.state ≡ false)
    → Alive slots q
    → Alive (set slots j (some p')) q
patch-Alive slots j q p p' e alive (pp, there, lives) = elim (ℕ_discrete j q) [
  | yes same ↦ (
    p',
    ap (λ n. slot (set slots j (some p')) n) (sym same)
        ∙ slot-set_self slots j (some p') (slot-lt slots j p e),
    alive (ground arith),
  )
  | no ne ↦ (pp, slot-set_ne slots j q (some p') ne ∙ there, lives)
]

-- A write to a live process that keeps its pid and its parent and does not end it.
pub patch-TableValid :
    (t : ProcTable) (j : ℕ) (p p' : Process)
    → TableValid t
    → slot t.slots j ≡ some p
    → p'.pid ≡ p.pid
    → p'.parent ≡ p.parent
    → (is_zombie p.state ≡ false → is_zombie p'.state ≡ false)
    → TableValid (record t { slots = set t.slots j (some p') })
patch-TableValid t j p p' v e pid parent alive =
    let hj = slot-lt t.slots j p e in
    record {
      size = length-set t.slots j (some p') ∙ v.size;
      last_run_lt = v.last_run_lt;
      family = λ k q c ek eq. elim (slot-set_cases t.slots j k (some p') c hj ek) [
        | inl (same, is) ↦ patch-Alive t.slots j q p p' e alive (v.family j q p e (ground arith))
        | inr (ne, there) ↦ patch-Alive t.slots j q p p' e alive (v.family k q c there eq)
      ];
      fresh_pids = λ k c ek. elim (slot-set_cases t.slots j k (some p') c hj ek) [
        | inl (same, is) ↦ let old = v.fresh_pids j p e in ground arith
        | inr (ne, there) ↦ v.fresh_pids k c there
      ];
      distinct_pids = λ i k a b ei ek eq. elim (slot-set_cases t.slots j i (some p') a hj ei) [
        | inl (same, is) ↦ elim (slot-set_cases t.slots j k (some p') b hj ek) [
          | inl (same', is') ↦ ground arith
          | inr (ne, there) ↦ sym same ∙ v.distinct_pids j k p b e there (ground arith)
        ]
        | inr (ne, there) ↦ elim (slot-set_cases t.slots j k (some p') b hj ek) [
          | inl (same', is') ↦ v.distinct_pids i j a p there e (ground arith) ∙ same'
          | inr (ne', there') ↦ v.distinct_pids i k a b there there' eq
        ]
      ];
      init_lives = λ k c ek one. elim (slot-set_cases t.slots j k (some p') c hj ek) [
        | inl (same, is) ↦ let old = alive (v.init_lives j p e (ground arith)) in ground arith
        | inr (ne, there) ↦ v.init_lives k c there one
      ];
    }
