-- ===== src/Sched/Orphans.antt =====
-- The handing on of children to init when a process exits (kernel/sched/process.rs,
-- `exit_current`).
use light_os_orion_risc_v.Prelude.{
  ℕ, zero, suc, ◌≡◌, ◌≢◌, inl, inr, refl, ap, ◌∙◌, Bool, true, false, Option, none, some, List, [],
  ◌∷◌, arith, ◌==◌, if◌then◌else◌, length, slot, Bool-cases, Option-cases, ℕ_discrete, ==_iff,
}
use light_os_orion_risc_v.Sched.{Process, ProcTable, is_child, position}
use light_os_orion_risc_v.Sched.Inv.{Alive, TableValid}
use light_os_orion_risc_v.Sched.Ending.{reparent, init_slot, handed_on}

-- What `reparent` makes of one process.
abbrev pub adopted : ℕ → Option ℕ → Process → Process
adopted cur init p = if is_child p cur then record p { parent = init } else p

pub slot-reparent :
    (l : List (Option Process)) (cur : ℕ) (init : Option ℕ) (k : ℕ)
    → slot (reparent l cur init) k
      ≡ elim (slot l k) [ none ↦ none | some p ↦ some (adopted cur init p) ]
unfolding reparent
slot-reparent [] cur init k = refl
slot-reparent (none ∷ r) cur init zero = refl
slot-reparent (none ∷ r) cur init (suc k) = slot-reparent r cur init k
slot-reparent (some p ∷ r) cur init zero = ground arith
slot-reparent (some p ∷ r) cur init (suc k) = slot-reparent r cur init k

pub length-reparent :
    (l : List (Option Process)) (cur : ℕ) (init : Option ℕ)
    → length (reparent l cur init) ≡ length l
unfolding reparent
length-reparent [] cur init = refl
length-reparent (none ∷ r) cur init = ap suc (length-reparent r cur init)
length-reparent (some p ∷ r) cur init = ap suc (length-reparent r cur init)

pub position_lem :
    (test : Process → Bool) (l : List (Option Process)) (j : ℕ)
    → position test l ≡ some j
    → (p : Process) × (slot l j ≡ some p) × (test p ≡ true)
unfolding position
position_lem test [] j e = cc
position_lem test (none ∷ r) zero e = elim (Option-cases (position test r)) [
  | inl nowhere ↦ absurd (ground arith)
  | inr (k, found) ↦ absurd (ground arith)
]
position_lem test (none ∷ r) (suc j) e = elim (Option-cases (position test r)) [
  | inl nowhere ↦ absurd (ground arith)
  | inr (k, found) ↦ position_lem test r j (ground arith)
]
position_lem test (some p ∷ r) zero e = elim (Bool-cases (test p)) [
  | inl here ↦ (p, refl, here)
  | inr not_here ↦ elim (Option-cases (position test r)) [
    | inl nowhere ↦ absurd (ground arith)
    | inr (k, found) ↦ absurd (ground arith)
  ]
]
position_lem test (some p ∷ r) (suc j) e = elim (Bool-cases (test p)) [
  | inl here ↦ absurd (ground arith)
  | inr not_here ↦ elim (Option-cases (position test r)) [
    | inl nowhere ↦ absurd (ground arith)
    | inr (k, found) ↦ position_lem test r j (ground arith)
  ]
]

-- A process of the table after `reparent` is one of the table before, with the parent exchanged
-- where that was `cur`.
pub slot-reparent_cases :
    (l : List (Option Process)) (cur : ℕ) (init : Option ℕ) (k : ℕ) (c : Process)
    → slot (reparent l cur init) k ≡ some c
    → (p : Process) × (slot l k ≡ some p) × (c ≡ adopted cur init p)
slot-reparent_cases l cur init k c e = elim (Option-cases (slot l k)) [
  | inl empty ↦ absurd (ground (arith, slot-reparent l cur init k))
  | inr (p, there) ↦ (p, there, ground (arith, slot-reparent l cur init k))
]

reparent-Alive :
    (l : List (Option Process)) (cur : ℕ) (init : Option ℕ) (q : ℕ)
    → Alive l q
    → Alive (reparent l cur init) q
reparent-Alive l cur init q (p, there, lives) =
    (adopted cur init p, ground (arith, slot-reparent l cur init q), ground arith)

-- The parent of a process that was handed on lives: it is init, or the parent that it had.
adopted-parent :
    (t : ProcTable) (cur j q : ℕ) (p : Process)
    → TableValid t
    → slot t.slots j ≡ some p
    → (adopted cur (init_slot t.slots) p).parent ≡ some q
    → Alive t.slots q
adopted-parent t cur j q p v there e = elim (Bool-cases (is_child p cur)) [
  | inl orphan ↦
      let (pp, at, one) = position_lem (λ (c : Process). c.pid == 1) t.slots q (ground arith) in
      (pp, at, v.init_lives q pp at ((==_iff pp.pid 1).0 one))
  | inr other ↦ v.family j q p there (ground arith)
]

pub handed_on-TableValid :
    (t : ProcTable) (cur : ℕ)
    → TableValid t
    → TableValid (record t { slots = handed_on t.slots cur })
handed_on-TableValid t cur v =
    let init = init_slot t.slots in
    record {
      size = length-reparent t.slots cur init ∙ v.size;
      last_run_lt = v.last_run_lt;
      family = λ k q c ek eq.
          let (p, there, is) = slot-reparent_cases t.slots cur init k c ek in
          reparent-Alive t.slots cur init q (adopted-parent t cur k q p v there (ground arith));
      fresh_pids = λ k c ek.
          let (p, there, is) = slot-reparent_cases t.slots cur init k c ek in
          let old = v.fresh_pids k p there in ground arith;
      distinct_pids = λ i k a b ei ek eq.
          let (p, at, is) = slot-reparent_cases t.slots cur init i a ei in
          let (q, at', is') = slot-reparent_cases t.slots cur init k b ek in
          v.distinct_pids i k p q at at' (ground arith);
      init_lives = λ k c ek one.
          let (p, there, is) = slot-reparent_cases t.slots cur init k c ek in
          let old = v.init_lives k p there (ground arith) in ground arith;
    }

-- Nobody is a child of a slot that is not init's, once its children were handed on.
pub handed_on-childless :
    (t : ProcTable) (cur : ℕ) (p : Process)
    → slot t.slots cur ≡ some p
    → p.pid ≢ 1
    → (k : ℕ) (c : Process) → slot (handed_on t.slots cur) k ≡ some c
    → is_child c cur ≡ false
handed_on-childless t cur p here ne k c ek =
    let (q, there, is) = slot-reparent_cases t.slots cur (init_slot t.slots) k c ek in
    elim (Bool-cases (is_child q cur)) [
      | inl orphan ↦ elim (Option-cases (init_slot t.slots)) [
        | inl nobody ↦ ground arith
        | inr (i, found) ↦ elim (ℕ_discrete i cur) [
          | yes same ↦
              let (pp, at, one) = position_lem (λ (c : Process). c.pid == 1) t.slots i found in
              let pid : pp.pid ≡ 1 = (==_iff pp.pid 1).0 one in absurd (ground arith)
          | no other ↦ ground arith
        ]
      ]
      | inr other ↦ ground arith
    ]
