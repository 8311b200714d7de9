-- ===== src/Sched/Children.antt =====
-- The loop over the children in `wait_current` (kernel/sched/process.rs).
use light_os_orion_risc_v.Prelude.{
  ℕ, zero, suc, ◌≡◌, inl, inr, refl, true, false, Option, none, some, List, [], ◌∷◌, arith, slot,
  Bool-cases, Option-cases,
}
use light_os_orion_risc_v.Sched.{Process, is_zombie, is_child}
use light_os_orion_risc_v.Sched.Ending.{find_child}

pub found_zombie :
    (l : List (Option Process)) (cur j : ℕ)
    → (find_child l cur).1 ≡ some j
    → (c : Process) × (slot l j ≡ some c)
      × (is_child c cur ≡ true)
      × (is_zombie c.state ≡ true)
      × ((find_child l cur).0 ≡ true)
unfolding find_child
found_zombie [] cur j e = absurd (cc)
found_zombie (none ∷ r) cur zero e = elim (Option-cases (find_child r cur).1) [
  | inl nowhere ↦ absurd (ground arith)
  | inr (k, found) ↦ absurd (ground arith)
]
found_zombie (none ∷ r) cur (suc j) e = elim (Option-cases (find_child r cur).1) [
  | inl nowhere ↦ absurd (ground arith)
  | inr (k, found) ↦ found_zombie r cur j (ground arith)
]
found_zombie (some p ∷ r) cur zero e = elim (Option-cases (find_child r cur).1) [
  | inl nowhere ↦ (p, refl, ground arith, ground arith, ground arith)
  | inr (k, found) ↦ (p, refl, ground arith, ground arith, ground arith)
]
found_zombie (some p ∷ r) cur (suc j) e = elim (Option-cases (find_child r cur).1) [
  | inl nowhere ↦ absurd (ground arith)
  | inr (k, found) ↦
      let (c, at, of, dead, there) = found_zombie r cur j (ground arith) in
      (c, at, of, dead, ground arith)
]

pub no_zombie :
    (l : List (Option Process)) (cur k : ℕ) (c : Process)
    → (find_child l cur).1 ≡ none
    → slot l k ≡ some c
    → is_child c cur ≡ true
    → is_zombie c.state ≡ false
unfolding find_child
no_zombie [] cur k c e at of = cc
no_zombie (none ∷ r) cur zero c e at of = cc
no_zombie (none ∷ r) cur (suc k) c e at of = elim (Option-cases (find_child r cur).1) [
  | inl nowhere ↦ no_zombie r cur k c nowhere at of
  | inr (j, found) ↦ absurd (ground arith)
]
no_zombie (some p ∷ r) cur zero c e at of = elim (Bool-cases (is_zombie p.state)) [
  | inl dead ↦ absurd (ground arith)
  | inr lives ↦ ground arith
]
no_zombie (some p ∷ r) cur (suc k) c e at of = elim (Option-cases (find_child r cur).1) [
  | inl nowhere ↦ no_zombie r cur k c nowhere at of
  | inr (j, found) ↦ absurd (ground arith)
]

pub has_child :
    (l : List (Option Process)) (cur : ℕ)
    → (find_child l cur).0 ≡ true
    → (k : ℕ) × (c : Process) × (slot l k ≡ some c) × (is_child c cur ≡ true)
unfolding find_child
has_child [] cur e = absurd (cc)
has_child (none ∷ r) cur e = let (k, c, at, of) = has_child r cur e in (suc k, c, at, of)
has_child (some p ∷ r) cur e = elim (Bool-cases (is_child p cur)) [
  | inl here ↦ (0, p, refl, here)
  | inr not_here ↦ let (k, c, at, of) = has_child r cur (ground arith) in (suc k, c, at, of)
]

pub no_child :
    (l : List (Option Process)) (cur k : ℕ) (c : Process)
    → (find_child l cur).0 ≡ false
    → slot l k ≡ some c
    → is_child c cur ≡ false
unfolding find_child
no_child [] cur k c e at = cc
no_child (none ∷ r) cur zero c e at = cc
no_child (none ∷ r) cur (suc k) c e at = no_child r cur k c e at
no_child (some p ∷ r) cur zero c e at = ground arith
no_child (some p ∷ r) cur (suc k) c e at = no_child r cur k c (ground arith) at
