-- ===== src/Mem/Mmu/Process.antt =====
-- `new_user_root` of kernel/mem/mmu.rs: what a fresh process root translates.
use Prim.Native.Nat.{bit_and}
use light_os_orion_risc_v.Prelude.{
  ℕ, suc, ◌+◌, ◌*◌, ◌/◌, ◌%◌, ◌^◌, ◌<◌, ◌≡◌, ◌≢◌, refl, sym, ap, ◌∙◌, true, false, Option, none,
  some, arith, ◌⊎◌, inl, inr, Bool-cases, Option-cases, ℕ_discrete, ◌==◌, ltb, lt→ltb,
  if◌then◌else◌, ==_refl, ne→==,
}
use light_os_orion_risc_v.Mem.Memory.{Memory, read_word, page_alloc}
use light_os_orion_risc_v.Mem.Mmu.{
  entry, valid, pte_pa, vpn, user_root_slot, share_entries, new_user_root, pte_r, pte_w, pte_x,
}
use light_os_orion_risc_v.Mem.Mmu.Pte.{vpn-lt, vpn_lem, valid-zero}
use light_os_orion_risc_v.Mem.Mmu.Tree.{
  Owner, IsTree, aligned, zero_entry, untouched, leaf, leaf-step, leaf-end, leaf_same,
}
use light_os_orion_risc_v.Mem.Mmu.Grow.{NewFrame, page_alloc-NewFrame}
use light_os_orion_risc_v.Mem.Mmu.Translate.{translation, translation-leaf, page_of}
use light_os_orion_risc_v.Mem.Mmu.Roots.{share-others, share-root}

-- The owners of the tables under the new root: the kernel's tables below its root.
adopted : Owner → ℕ → Owner
adopted owner root = λ t.
    if t == root
    then some (2, 0)
    else elim (owner t) [ none ↦ none | some (l, p) ↦ if ltb l 2 then some (l, p) else none ]

adopted_root : (owner : Owner) (root : ℕ) → adopted owner root root ≡ some (2, 0)
unfolding adopted
adopted_root owner root = rw (==_refl root) refl

adopted_other :
    (owner : Owner) (root t l p : ℕ)
    → t ≢ root
    → l < 2
    → owner t ≡ some (l, p)
    → adopted owner root t ≡ some (l, p)
unfolding adopted
adopted_other owner root t l p nr lt h = rw (ne→== t root nr, h, lt→ltb l 2 lt) refl

adopted_cases :
    (owner : Owner) (root t l p : ℕ)
    → adopted owner root t ≡ some (l, p)
    → ((t ≡ root) × (l ≡ 2) × (p ≡ 0)) ⊎ ((t ≢ root) × (l < 2) × (owner t ≡ some (l, p)))
unfolding adopted
adopted_cases owner root t l p h = elim (ℕ_discrete t root) [
  | yes same ↦
      let b : (t == root) ≡ true = rw same (==_refl root) in
      let e : ◌≡◌ {A = Option (ℕ × ℕ)} (some (2, 0)) (some (l, p)) = ground arith in
      inl (same, cc, cc)
  | no nr ↦
      let f = ne→== t root nr in
      elim (Option-cases (owner t)) [
        | inl free ↦ absurd (ground arith)
        | inr ((l', p'), o) ↦
            let small : l' < 2 = ground arith in
            let e : ◌≡◌ {A = Option (ℕ × ℕ)} (some (l', p')) (some (l, p)) = ground arith in
            let level : l' ≡ l = cc in inr (nr, omega arith, o ∙ e)
      ]
]

module _ (m : Memory) (kernel root : ℕ) (owner : Owner) (tree : IsTree m kernel owner) (m1 : Memory)
    (r : NewFrame m root m1) where
  new : Memory
  new = record m1 { words = share_entries 512 0 m1.words kernel root }

  owned_ne : (t : ℕ) (o : ℕ × ℕ) → owner t ≡ some o → t ≢ root
  owned_ne t o h = (r.kept t (tree.frame t o h)).1

  ar : root % 4096 ≡ 0
  ar = aligned m1.frames root r.frame

  at : (t : ℕ) (o : ℕ × ℕ) → owner t ≡ some o → t % 4096 ≡ 0
  at t o h = aligned m.frames t (tree.frame t o h)

  ak : kernel % 4096 ≡ 0
  ak = at kernel (2, 0) tree.at_root

  apart : kernel ≢ root
  apart = owned_ne kernel (2, 0) tree.at_root

  owned_same :
      (t j : ℕ) (o : ℕ × ℕ)
      → owner t ≡ some o
      → j < 512
      → read_word new.words (entry t j) ≡ read_word m.words (entry t j)
  unfolding new
  owned_same t j o h lt =
      share-others kernel root ak ar apart 512 0 m1.words t j (omega arith) (at t o h) lt
        (λ e. absurd (owned_ne t o h e))
      ∙ rw r.words (untouched m.words root t j ar (at t o h) lt (owned_ne t o h))

  root_user : read_word new.words (entry root user_root_slot) ≡ 0
  unfolding new
  root_user =
      share-root kernel root ak ar apart 512 0 m1.words 1 (omega arith) (omega arith) (omega arith)
      ∙ rw r.words (zero_entry m.words root 1 ar (omega arith))

  root_shared :
      (j : ℕ)
      → j < 512
      → j ≢ user_root_slot
      → read_word new.words (entry root j) ≡ read_word m.words (entry kernel j)
  unfolding new
  root_shared j lt ne =
      share-root kernel root ak ar apart 512 0 m1.words j (omega arith) (omega arith) (omega arith)
      ∙ rw (ne→== j user_root_slot ne, r.words) (untouched m.words root kernel j ar ak lt apart)

  kernel-IsTree : IsTree new kernel owner
  unfolding new
  kernel-IsTree = record {
    at_root = tree.at_root;
    frame = λ t o h. (r.kept t (tree.frame t o h)).0;
    child = λ t l p j h lt v.
        let e = owned_same t j (suc l, p) h lt in
        ap owner (ap pte_pa e) ∙ tree.child t l p j h lt (sym (ap valid e) ∙ v);
    inner = λ t l p j h lt v.
        let e = owned_same t j (suc l, p) h lt in
        ap (λ y. bit_and y (pte_r + pte_w + pte_x)) e
        ∙ tree.inner t l p j h lt (sym (ap valid e) ∙ v);
    allocator = r.allocator;
  }

  -- A table below the kernel's root is a table below the new one.
  adopted_below : (t l p : ℕ) → l < 2 → owner t ≡ some (l, p) → adopted owner root t ≡ some (l, p)
  adopted_below t l p lt h = adopted_other owner root t l p (owned_ne t (l, p) h) lt h

  -- The entries of the tables below the new root.
  process_child :
      (t l p j : ℕ)
      → adopted owner root t ≡ some (suc l, p)
      → j < 512
      → valid (read_word new.words (entry t j)) ≡ true
      → (adopted owner root (pte_pa (read_word new.words (entry t j))) ≡ some (l, p * 512 + j))
        × (bit_and (read_word new.words (entry t j)) (pte_r + pte_w + pte_x) ≡ 0)
  process_child t l p j h lt v = elim (adopted_cases owner root t (suc l) p h) [
    | inl (e, above, prefix) ↦ elim (ℕ_discrete j user_root_slot) [
      | yes user ↦
          let z : read_word new.words (entry t j) ≡ 0 = rw (e, user) root_user in
          let z' = valid-zero in absurd cc
      | no ne ↦
          let w : read_word new.words (entry t j) ≡ read_word m.words (entry kernel j) =
            rw e (root_shared j lt ne) in
          let level : l ≡ 1 = omega arith in
          let v' = sym (ap valid w) ∙ v in
          rw (level, prefix, w)
            (
              adopted_below (pte_pa (read_word m.words (entry kernel j))) 1 (0 * 512 + j)
                  (omega arith) (tree.child kernel 1 0 j tree.at_root lt v'),
              tree.inner kernel 1 0 j tree.at_root lt v',
            )
    ]
    | inr (nr, small, o) ↦
        let w = owned_same t j (suc l, p) o lt in
        let v' = sym (ap valid w) ∙ v in
        rw w (
          adopted_below (pte_pa (read_word m.words (entry t j))) l (p * 512 + j) (omega arith)
              (tree.child t l p j o lt v'),
          tree.inner t l p j o lt v',
        )
  ]

  process-IsTree : IsTree new root (adopted owner root)
  unfolding new
  process-IsTree = record {
    at_root = adopted_root owner root;
    frame = λ t o h. elim (adopted_cases owner root t o.0 o.1 h) [
      | inl (e, above, prefix) ↦ rw e r.frame
      | inr (nr, small, h') ↦ (r.kept t (tree.frame t o h')).0
    ];
    child = λ t l p j h lt v. (process_child t l p j h lt v).0;
    inner = λ t l p j h lt v. (process_child t l p j h lt v).1;
    allocator = r.allocator;
  }

  slot_of : (va : ℕ) → vpn va 2 ≡ page_of va / 2 ^ 18
  slot_of va = omega (arith, vpn_lem va 2)

  user_unmapped : (va : ℕ) → page_of va / 2 ^ 18 ≡ user_root_slot → translation new root va ≡ none
  user_unmapped va e =
      let i : vpn va 2 ≡ 1 = slot_of va ∙ e in
      let z : valid (read_word new.words (entry root (vpn va 2))) ≡ false =
        rw (i, root_user, valid-zero) refl in
      rw
        (
          translation-leaf new root (adopted owner root) va process-IsTree,
          leaf-end new.words 1 root va z,
          valid-zero,
        )
        refl

  kernel_shared :
      (va : ℕ)
      → page_of va / 2 ^ 18 ≢ user_root_slot
      → translation new root va ≡ translation m kernel va
  kernel_shared va ne =
      let i : vpn va 2 ≢ user_root_slot = (λ e. ne (sym (slot_of va) ∙ e)) in
      let w = root_shared (vpn va 2) (vpn-lt va 2) i in
      let same : leaf new.words 2 root va ≡ leaf m.words 2 kernel va =
        (elim (Bool-cases (valid (read_word m.words (entry kernel (vpn va 2))))) [
          | inr v ↦
              leaf-end new.words 1 root va (ap valid w ∙ v) ∙ sym (leaf-end m.words 1 kernel va v)
          | inl v ↦
              leaf-step new.words 1 root va (ap valid w ∙ v)
              ∙ ap (λ x. leaf new.words 1 x va) (ap pte_pa w)
              ∙ leaf_same m kernel owner new.words tree owned_same 1
                  (pte_pa (read_word m.words (entry kernel (vpn va 2)))) (0 * 512 + vpn va 2) va
                  (tree.child kernel 1 0 (vpn va 2) tree.at_root (vpn-lt va 2) v)
              ∙ sym (leaf-step m.words 1 kernel va v)
        ]) in
      translation-leaf new root (adopted owner root) va process-IsTree
      ∙ rw same (sym (translation-leaf m kernel owner va tree))

-- A fresh process root translates no address of the user slot and every other address as the
-- kernel's root does; its tables are a tree, and the kernel's still are.
pub new_user_root-shares :
    (m m' : Memory) (kernel root : ℕ) (owner : Owner)
    → IsTree m kernel owner
    → new_user_root m kernel ≡ some (root, m')
    → ((va : ℕ) → page_of va / 2 ^ 18 ≡ user_root_slot → translation m' root va ≡ none)
      × ((va : ℕ)
          → page_of va / 2 ^ 18 ≢ user_root_slot
          → translation m' root va ≡ translation m kernel va)
      × ((owner' : Owner) × IsTree m' root owner')
      × IsTree m' kernel owner
unfolding new_user_root new
new_user_root-shares m m' kernel root owner tree e = elim (Option-cases (page_alloc m 1)) [
  | inl failed ↦ absurd (ground arith)
  | inr ((n, m1), ok) ↦
      let r = page_alloc-NewFrame m m1 n tree.allocator ok in
      let same_root : n ≡ root = ground arith in
      let same : new m kernel n owner tree m1 r ≡ m' = ground arith in
      rw (← same_root, ← same)
        (
          user_unmapped m kernel n owner tree m1 r,
          kernel_shared m kernel n owner tree m1 r,
          (adopted owner n, process-IsTree m kernel n owner tree m1 r),
          kernel-IsTree m kernel n owner tree m1 r,
        )
]
