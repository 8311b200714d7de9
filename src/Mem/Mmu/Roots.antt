-- ===== src/Mem/Mmu/Roots.antt =====
-- `new_user_root` of kernel/mem/mmu.rs: the kernel's tables shared by reference, the user slot empty.
use light_os_orion_risc_v.Prelude.{
  ℕ, zero, suc, ◌+◌, ◌%◌, ◌<◌, ◌≤◌, ◌≡◌, ◌≢◌, refl, sym, ap, ap₂, ◌∙◌, none, some, arith, inl, inr,
  Bool-cases, ℕ_discrete, ◌==◌, if◌then◌else◌, ==_refl, ne→==,
}
use light_os_orion_risc_v.Mem.Memory.{
  Memory, read_word, page_alloc, read-write_word_self, read-write_word_ne,
}
use light_os_orion_risc_v.Mem.Page.Inv.{IsValid}
use light_os_orion_risc_v.Mem.Mmu.{entry, valid, user_root_slot, share_entry, share_entries}
use light_os_orion_risc_v.Mem.Mmu.Pte.{entry_eq, valid-zero}
use light_os_orion_risc_v.Mem.Mmu.Tree.{Owner, IsTree, aligned, zero_entry, leaf, leaf-empty}
use light_os_orion_risc_v.Mem.Mmu.Grow.{page_alloc-NewFrame}
use light_os_orion_risc_v.Mem.Mmu.Translate.{translation, translation-leaf}

-- A new table alone is a tree.
pub alone : ℕ → Owner
alone root = λ t. if t == root then some (2, 0) else none

alone_self : (root : ℕ) → alone root root ≡ some (2, 0)
unfolding alone
alone_self root = rw (==_refl root) refl

alone_only : (root t : ℕ) (o : ℕ × ℕ) → alone root t ≡ some o → t ≡ root
unfolding alone
alone_only root t o e = elim (ℕ_discrete t root) [
  | yes same ↦ same
  | no ne ↦ let f = ne→== t root ne in absurd (ground arith)
]

pub page_alloc-IsTree :
    (m m' : Memory) (root : ℕ)
    → IsValid m.frames
    → page_alloc m 1 ≡ some (root, m')
    → IsTree m' root (alone root)
page_alloc-IsTree m m' root v ok =
    let r = page_alloc-NewFrame m m' root v ok in
    let empty : (t j : ℕ) → t ≡ root → j < 512 → read_word m'.words (entry t j) ≡ 0 = (λ t j e lt.
      rw (e, r.words) (zero_entry m.words root j (aligned m'.frames root r.frame) lt)) in
    record {
      at_root = alone_self root;
      frame = λ t o h. rw (alone_only root t o h) r.frame;
      child = λ t l p j h lt v'.
          let z = ap valid (empty t j (alone_only root t (suc l, p) h) lt) in
          let z' = valid-zero in absurd cc;
      inner = λ t l p j h lt v'.
          let z = ap valid (empty t j (alone_only root t (suc l, p) h) lt) in
          let z' = valid-zero in absurd cc;
      allocator = r.allocator;
    }

-- The words after the entries from `i` on were shared.
module _ (kernel root : ℕ) (ak : kernel % 4096 ≡ 0) (ar : root % 4096 ≡ 0)
    (apart : kernel ≢ root) where
  once-others :
      (i : ℕ) (words : ℕ → ℕ) (t j : ℕ)
      → i < 512
      → t % 4096 ≡ 0
      → j < 512
      → ((t ≡ root) → j ≢ i)
      → read_word (share_entry words i kernel root) (entry t j) ≡ read_word words (entry t j)
  unfolding share_entry
  once-others i words t j hi at lt other = elim (Bool-cases (i == user_root_slot)) [
    | inl skip ↦ rw (skip, share_entry) refl
    | inr write ↦
        rw (write, share_entry)
          (read-write_word_ne words (entry root i) (read_word words (entry kernel i)) (entry t j)
            (λ e.
              let both = entry_eq root t i j ar at hi lt e in other (sym (both.0)) (sym (both.1))))
  ]

  abbrev pub shared : (ℕ → ℕ) → ℕ → ℕ
  shared words j =
      if j == user_root_slot
      then read_word words (entry root j)
      else read_word words (entry kernel j)

  once-root :
      (i : ℕ) (words : ℕ → ℕ)
      → read_word (share_entry words i kernel root) (entry root i) ≡ shared words i
  unfolding share_entry
  once-root i words = elim (Bool-cases (i == user_root_slot)) [
    | inl skip ↦ rw (skip, share_entry) refl
    | inr write ↦
        rw (write, share_entry)
          (read-write_word_self words (entry root i) (read_word words (entry kernel i))
            (entry root i) refl)
  ]

  pub share-others :
      (left i : ℕ) (words : ℕ → ℕ) (t j : ℕ)
      → i + left ≤ 512
      → t % 4096 ≡ 0
      → j < 512
      → ((t ≡ root) → j < i)
      → read_word (share_entries left i words kernel root) (entry t j) ≡ read_word words (entry t j)
  unfolding share_entries
  share-others zero i words t j fit at lt other = refl
  share-others (suc left) i words t j fit at lt other =
      share-others left (i + 1) (share_entry words i kernel root) t j (omega arith) at lt
        (λ e. omega (arith, other e))
      ∙ once-others i words t j (omega arith) at lt (λ e. omega (arith, other e))

  pub share-root :
      (left i : ℕ) (words : ℕ → ℕ) (j : ℕ)
      → i + left ≤ 512
      → i ≤ j
      → j < i + left
      → read_word (share_entries left i words kernel root) (entry root j) ≡ shared words j
  unfolding share_entries
  share-root zero i words j fit lo hi = absurd (omega arith)
  share-root (suc left) i words j fit lo hi = elim (ℕ_discrete j i) [
    | yes now ↦
        share-others left (i + 1) (share_entry words i kernel root) root j (omega arith) ar
          (omega arith) (λ e. omega arith)
        ∙ ap (λ k. read_word (share_entry words i kernel root) (entry root k)) now
        ∙ once-root i words
        ∙ ap (shared words) (sym now)
    | no later ↦
        share-root left (i + 1) (share_entry words i kernel root) j (omega arith) (omega arith)
          (omega arith)
        ∙ ap₂ (λ a b. if j == user_root_slot then a else b)
            (once-others i words root j (omega arith) ar (omega arith) (λ e. later))
            (once-others i words kernel j (omega arith) ak (omega arith) (λ e. absurd (apart e)))
  ]

-- A new table translates nothing.
pub page_alloc-unmapped :
    (m m' : Memory) (root va : ℕ)
    → IsValid m.frames
    → page_alloc m 1 ≡ some (root, m')
    → translation m' root va ≡ none
page_alloc-unmapped m m' root va v ok =
    let r = page_alloc-NewFrame m m' root v ok in
    let empty : leaf m'.words 2 root va ≡ 0 =
      leaf-empty m'.words root va
        (λ j lt. rw r.words (zero_entry m.words root j (aligned m'.frames root r.frame) lt)) 2 in
    rw
      (
        translation-leaf m' root (alone root) va (page_alloc-IsTree m m' root v ok),
        empty,
        valid-zero,
      )
      refl
