-- ===== src/Mem/Mmu/Store.antt =====
-- Leaf entries of the tree of kernel/mem/mmu.rs: each belongs to one page number, and a write of
-- one changes what its own page leads to and nothing else.
use Prim.Native.Nat.{bit_and}
use light_os_orion_risc_v.Prelude.{
  ℕ, zero, suc, ◌+◌, ◌*◌, ◌/◌, ◌%◌, ◌^◌, ◌<◌, ◌≡◌, ◌≢◌, refl, sym, ap, ◌∙◌, some, arith, Bool-cases,
  Option-cases, inl, inr,
}
use light_os_orion_risc_v.Mem.Memory.{
  Memory, read_word, write_word, read-write_word_self, read-write_word_ne,
}
use light_os_orion_risc_v.Mem.Mmu.{entry, valid, pte_pa, vpn, pte_r, pte_w, pte_x}
use light_os_orion_risc_v.Mem.Mmu.Pte.{entry_eq, vpn_lem, vpn-lt}
use light_os_orion_risc_v.Mem.Mmu.Tree.{Owner, IsTree, aligned, find, find-step, find-end, leaf}

-- The page number that a table at a level, with the upper bits `p`, has for `va`.
pub page_number : ℕ → ℕ → ℕ → ℕ
page_number zero p va = p * 512 + vpn va 0
page_number (suc l) p va = page_number l (p * 512 + vpn va (suc l)) va

-- From the root it is the number of the page in the 39-bit address space.
pub page_number_lem : (va : ℕ) → page_number 2 0 va ≡ va / 4096 % 2 ^ 27
unfolding page_number
page_number_lem va = omega (arith, vpn_lem va 0, vpn_lem va 1, vpn_lem va 2)

module _ (m : Memory) (root : ℕ) (owner : Owner) (tree : IsTree m root owner) where
  -- A leaf entry that a walk finds is in a table of the last level, at the page number's place.
  record Leaf (p l va at : ℕ) : Type 0 where
    table : ℕ
    bits : ℕ
    place : at ≡ entry table (vpn va 0)
    owned : owner table ≡ some (0, bits)
    number : bits * 512 + vpn va 0 ≡ page_number l p va

  find-Leaf :
      (l t p va at : ℕ) → owner t ≡ some (l, p) → find m.words l t va ≡ some at → Leaf p l va at
  unfolding find page_number
  find-Leaf zero t p va at h e = record {
    table = t;
    bits = p;
    place = cc;
    owned = h;
    number = refl;
  }
  find-Leaf (suc l) t p va at h e =
      elim (Bool-cases (valid (read_word m.words (entry t (vpn va (suc l)))))) [
        | inr v ↦ let no_way = find-end m.words l t va v in absurd cc
        | inl v ↦
            let c = tree.child t l p (vpn va (suc l)) h (vpn-lt va (suc l)) v in
            let r =
              find-Leaf l (pte_pa (read_word m.words (entry t (vpn va (suc l)))))
                (p * 512 + vpn va (suc l)) va at c (sym (find-step m.words l t va v) ∙ e) in
            record {
              table = r.table;
              bits = r.bits;
              place = r.place;
              owned = r.owned;
              number = r.number;
            }
      ]

  module _ (at value p l va : ℕ) (leaf_at : Leaf p l va at) where
    new : ℕ → ℕ
    new = write_word m.words at value

    -- The other entries of the tables are what they were.
    entry_same :
        (s j : ℕ) (o : ℕ × ℕ)
        → owner s ≡ some o
        → j < 512
        → ((s ≡ leaf_at.table) → j ≢ vpn va 0)
        → read_word new (entry s j) ≡ read_word m.words (entry s j)
    unfolding new
    entry_same s j o h lt ne = read-write_word_ne m.words at value (entry s j) (λ e.
        let both =
          entry_eq leaf_at.table s (vpn va 0) j
            (aligned m.frames leaf_at.table
              (tree.frame leaf_at.table (0, leaf_at.bits) leaf_at.owned))
            (aligned m.frames s (tree.frame s o h)) (vpn-lt va 0) lt
            (ap (λ x. x / 8) (sym leaf_at.place) ∙ e) in
        ne (sym (both.0)) (sym (both.1)))

    inner_same :
        (s j l' p' : ℕ)
        → owner s ≡ some (suc l', p')
        → j < 512
        → read_word new (entry s j) ≡ read_word m.words (entry s j)
    inner_same s j l' p' h lt =
        entry_same s j (suc l', p') h lt
          (λ e. let o = ap owner e in let low = leaf_at.owned in absurd cc)

    find_same :
        (l' s p' va' : ℕ) → owner s ≡ some (l', p') → find new l' s va' ≡ find m.words l' s va'
    unfolding find
    find_same zero s p' va' h = refl
    find_same (suc l') s p' va' h =
        let i : ℕ = vpn va' (suc l') in
        let same = inner_same s i l' p' h (vpn-lt va' (suc l')) in
        elim (Bool-cases (valid (read_word m.words (entry s i)))) [
          | inl v ↦
              let c = tree.child s l' p' i h (vpn-lt va' (suc l')) v in
              find-step new l' s va' (ap valid same ∙ v)
              ∙ ap (λ y. find new l' y va') (ap pte_pa same)
              ∙ find_same l' (pte_pa (read_word m.words (entry s i))) (p' * 512 + i) va' c
              ∙ sym (find-step m.words l' s va' v)
          | inr v ↦ find-end new l' s va' (ap valid same ∙ v) ∙ sym (find-end m.words l' s va' v)
        ]

    leaf_here :
        (t : ℕ) → owner t ≡ some (l, p) → find m.words l t va ≡ some at → leaf new l t va ≡ value
    unfolding leaf new
    leaf_here t h e =
        let e' : find new l t va ≡ some at = find_same l t p va h ∙ e in
        rw (e', leaf) (read-write_word_self m.words at value at refl)

    leaf_elsewhere :
        (t va' : ℕ)
        → owner t ≡ some (l, p)
        → page_number l p va' ≢ page_number l p va
        → leaf new l t va' ≡ leaf m.words l t va'
    unfolding leaf
    leaf_elsewhere t va' h ne = elim (Option-cases (find m.words l t va')) [
      | inl end ↦ let e = find_same l t p va' h ∙ end in rw (e, end, leaf) refl
      | inr (at', e') ↦
          let e = find_same l t p va' h ∙ e' in
          let r = find-Leaf l t p va' at' h e' in
          let same =
            entry_same r.table (vpn va' 0) (0, r.bits) r.owned (vpn-lt va' 0)
              (λ tables vpns.
                let o = ap owner tables in
                let mine = leaf_at.owned in
                let theirs = r.owned in
                let bits : r.bits ≡ leaf_at.bits = cc in
                ne (omega (arith, r.number, leaf_at.number))) in
          rw (e, e', leaf)
            (ap (read_word new) r.place ∙ same ∙ ap (read_word m.words) (sym r.place))
    ]

    stored-IsTree : IsTree (record m { words = new }) root owner
    stored-IsTree = record {
      at_root = tree.at_root;
      frame = tree.frame;
      child = λ s l' p' j h lt v.
          let same = inner_same s j l' p' h lt in
          ap owner (ap pte_pa same) ∙ tree.child s l' p' j h lt (sym (ap valid same) ∙ v);
      inner = λ s l' p' j h lt v.
          let same = inner_same s j l' p' h lt in
          ap (λ y. bit_and y (pte_r + pte_w + pte_x)) same
          ∙ tree.inner s l' p' j h lt (sym (ap valid same) ∙ v);
      allocator = tree.allocator;
    }

-- What the write of the leaf entry for `va` does.
pub record Stored (m : Memory) (root : ℕ) (owner : Owner) (va value : ℕ) (m' : Memory)
    : Type 0 where
  pub tree : IsTree m' root owner
  pub here : leaf m'.words 2 root va ≡ value
  pub others :
      (va' : ℕ)
      → va' / 4096 % 2 ^ 27 ≢ va / 4096 % 2 ^ 27
      → leaf m'.words 2 root va' ≡ leaf m.words 2 root va'
  pub frames : m'.frames ≡ m.frames

pub write-Stored :
    (m : Memory) (root : ℕ) (owner : Owner) (va value at : ℕ)
    → IsTree m root owner
    → find m.words 2 root va ≡ some at
    → Stored m root owner va value (record m { words = write_word m.words at value })
unfolding new
write-Stored m root owner va value at tree e =
    let r = find-Leaf m root owner tree 2 root 0 va at tree.at_root e in
    record {
      tree = stored-IsTree m root owner tree at value 0 2 va r;
      here = leaf_here m root owner tree at value 0 2 va r root tree.at_root e;
      others = λ va' ne.
          leaf_elsewhere m root owner tree at value 0 2 va r root va' tree.at_root
            (λ e'. ne (omega (arith, page_number_lem va, page_number_lem va')));
      frames = refl;
    }
