-- ===== src/Mem/Mmu/Translate.antt =====
-- `virt_to_phys` of kernel/mem/mmu.rs in terms of the leaf entries of the tree.
use Prim.Native.Nat.{bit_and}
use light_os_orion_risc_v.Prelude.{
  ℕ, ◌+◌, ◌/◌, ◌%◌, ◌^◌, ◌≡◌, ◌≢◌, refl, sym, ◌∙◌, true, false, Option, none, some, arith,
  Bool-cases, Option-cases, ◌⊎◌, inl, inr, if◌then◌else◌,
}
use light_os_orion_risc_v.Prelude.Bits.{bit_and-ones}
use light_os_orion_risc_v.Mem.Memory.{Memory}
use light_os_orion_risc_v.Mem.Mmu.{
  valid, pte_pa, Walk, found, missing, superpage, walk, virt_to_phys,
}
use light_os_orion_risc_v.Mem.Mmu.Pte.{valid-zero}
use light_os_orion_risc_v.Mem.Mmu.Tree.{Owner, IsTree, find, leaf}
use light_os_orion_risc_v.Mem.Mmu.Descend.{walk_from-find}

-- The address that a walk found.
abbrev pub address : Walk → Option ℕ
address (found a m) = some a
address (missing m) = none
address superpage = none

-- What the software walk translates an address to.
pub translation : Memory → ℕ → ℕ → Option ℕ
translation m root va = address (virt_to_phys m root va)

-- Two addresses in the same page of the 39-bit address space.
abbrev pub page_of : ℕ → ℕ
page_of va = va / 4096 % 2 ^ 27

-- The answer of a leaf entry.
abbrev pub answer : ℕ → ℕ → Memory → Walk
answer pte va m = if valid pte then found (pte_pa pte + va % 4096) m else missing m

pub walk-find :
    (m : Memory) (root : ℕ) (owner : Owner) (va : ℕ)
    → IsTree m root owner
    → walk m root va false
      ≡ elim (find m.words 2 root va) [ none ↦ missing m | some at ↦ found at m ]
unfolding walk
walk-find m root owner va tree = walk_from-find 2 m root owner root 0 va tree tree.at_root

pub virt_to_phys-leaf :
    (m : Memory) (root : ℕ) (owner : Owner) (va : ℕ)
    → IsTree m root owner
    → virt_to_phys m root va ≡ answer (leaf m.words 2 root va) va m
unfolding virt_to_phys leaf
virt_to_phys-leaf m root owner va tree = elim (Option-cases (find m.words 2 root va)) [
  | inl end ↦ rw (walk-find m root owner va tree, end, valid-zero, virt_to_phys, leaf) refl
  | inr (at, e) ↦
      let low : bit_and va 4095 ≡ va % 4096 = omega (arith, bit_and-ones 12 va) in
      rw (walk-find m root owner va tree, e, low, virt_to_phys, leaf) refl
]

pub translation-leaf :
    (m : Memory) (root : ℕ) (owner : Owner) (va : ℕ)
    → IsTree m root owner
    → translation m root va ≡ (
        if valid (leaf m.words 2 root va)
        then some (pte_pa (leaf m.words 2 root va) + va % 4096)
        else none)
unfolding translation
translation-leaf m root owner va tree = elim (Bool-cases (valid (leaf m.words 2 root va))) [
  | inl v ↦ rw (virt_to_phys-leaf m root owner va tree, v) refl
  | inr v ↦ rw (virt_to_phys-leaf m root owner va tree, v) refl
]

pub translation_congr :
    (m m' : Memory) (root : ℕ) (owner owner' : Owner) (va : ℕ)
    → IsTree m root owner
    → IsTree m' root owner'
    → leaf m'.words 2 root va ≡ leaf m.words 2 root va
    → translation m' root va ≡ translation m root va
translation_congr m m' root owner owner' va tree tree' e =
    translation-leaf m' root owner' va tree' ∙ rw e (sym (translation-leaf m root owner va tree))

-- A page is translated exactly when its leaf entry is valid.
pub mapped-valid :
    (m : Memory) (root : ℕ) (owner : Owner) (va : ℕ)
    → IsTree m root owner
    → translation m root va ≢ none
    → valid (leaf m.words 2 root va) ≡ true
mapped-valid m root owner va tree ne = elim (Bool-cases (valid (leaf m.words 2 root va))) [
  | inl v ↦ v
  | inr v ↦ absurd (ne (rw (translation-leaf m root owner va tree, v) refl))
]

pub translated :
    (m : Memory) (root va pa : ℕ)
    → virt_to_phys m root va ≡ found pa m
    → translation m root va ≡ some pa
unfolding translation
translated m root va pa e = rw e refl

-- The software walk changes nothing, and finds the translation.
pub virt_to_phys_cases :
    (m : Memory) (root : ℕ) (owner : Owner) (va : ℕ)
    → IsTree m root owner
    → ((translation m root va ≡ none) × (virt_to_phys m root va ≡ missing m))
      ⊎ ((pa : ℕ) × (translation m root va ≡ some pa) × (virt_to_phys m root va ≡ found pa m))
virt_to_phys_cases m root owner va tree = elim (Bool-cases (valid (leaf m.words 2 root va))) [
  | inr v ↦ inl (
    rw (translation-leaf m root owner va tree, v) refl,
    rw (virt_to_phys-leaf m root owner va tree, v) refl,
  )
  | inl v ↦ inr (
    pte_pa (leaf m.words 2 root va) + va % 4096,
    rw (translation-leaf m root owner va tree, v) refl,
    rw (virt_to_phys-leaf m root owner va tree, v) refl,
  )
]
