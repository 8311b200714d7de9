-- ===== src/Mem/Mmu/Data.antt =====
-- A frame that is taken for the data of a process (kernel/mem/page.rs) next to the tables of
-- kernel/mem/mmu.rs.
use Prim.Native.Nat.{bit_and}
use light_os_orion_risc_v.Prelude.{
  ℕ, suc, ◌+◌, ◌%◌, ◌<◌, ◌≡◌, ◌≢◌, refl, sym, ap, ◌∙◌, none, some, arith, Option-cases, inl, inr,
}
use light_os_orion_risc_v.Mem.Layout.{usize_mod}
use light_os_orion_risc_v.Mem.Memory.{Memory, read_word, page_alloc}
use light_os_orion_risc_v.Mem.Mmu.{entry, valid, pte_pa, pte_r, pte_w, pte_x}
use light_os_orion_risc_v.Mem.Mmu.Tree.{Owner, IsFrame, IsTree, aligned, untouched, leaf_same}
use light_os_orion_risc_v.Mem.Mmu.Grow.{page_alloc-NewFrame}
use light_os_orion_risc_v.Mem.Mmu.Translate.{translation, translation_congr}

-- What the tables of a root keep when a frame is taken.
pub record Beside (m m' : Memory) (root n : ℕ) (owner : Owner) : Type 0 where
  pub tree : IsTree m' root owner
  pub same : (va : ℕ) → translation m' root va ≡ translation m root va
  pub kept : (t : ℕ) → IsFrame m.frames t → IsFrame m'.frames t × (t ≢ n)
  pub frame : IsFrame m'.frames n
  pub unowned : owner n ≡ none
  pub page : n % 4096 ≡ 0
  pub word : n < usize_mod

-- A frame that the allocator gives is no table, so the tables stay as they are.
pub page_alloc-Beside :
    (m m' : Memory) (root n : ℕ) (owner : Owner)
    → IsTree m root owner
    → page_alloc m 1 ≡ some (n, m')
    → Beside m m' root n owner
page_alloc-Beside m m' root n owner tree ok =
    let r = page_alloc-NewFrame m m' n tree.allocator ok in
    let entries : (t j : ℕ) (o : ℕ × ℕ)
        → owner t ≡ some o
        → j < 512
        → read_word m'.words (entry t j) ≡ read_word m.words (entry t j) =
      (λ t j o h lt.
        let kept = r.kept t (tree.frame t o h) in
        ap (λ w. read_word w (entry t j)) r.words
        ∙ untouched m.words n t j (aligned m'.frames n r.frame) (aligned m'.frames t (kept.0)) lt
            kept.1) in
    let new_tree : IsTree m' root owner = record {
      at_root = tree.at_root;
      frame = λ t o h. (r.kept t (tree.frame t o h)).0;
      child = λ t l p i h lt v.
          let e = entries t i (suc l, p) h lt in
          ap owner (ap pte_pa e) ∙ tree.child t l p i h lt (sym (ap valid e) ∙ v);
      inner = λ t l p i h lt v.
          let e = entries t i (suc l, p) h lt in
          ap (λ w. bit_and w (pte_r + pte_w + pte_x)) e
          ∙ tree.inner t l p i h lt (sym (ap valid e) ∙ v);
      allocator = r.allocator;
    } in
    record {
      tree = new_tree;
      same = λ va.
          translation_congr m m' root owner owner va tree new_tree
            (leaf_same m root owner m'.words tree entries 2 root 0 va tree.at_root);
      kept = r.kept;
      frame = r.frame;
      unowned = elim (Option-cases (owner n)) [
        | inl free ↦ free
        | inr (o, taken) ↦ absurd ((r.kept n (tree.frame n o taken)).1 refl)
      ];
      page = aligned m'.frames n r.frame;
      word = omega (arith, r.frame.address, r.frame.in_ram);
    }
