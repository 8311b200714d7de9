-- ===== src/Mem/Mmu/Descend.antt =====
-- `walk` of kernel/mem/mmu.rs: without `create` it finds the leaf entry that the tree has; with it,
-- it gives one in a tree that leads every address where it led before.
use light_os_orion_risc_v.Prelude.{
  ℕ, zero, suc, ◌+◌, ◌*◌, ◌%◌, ◌<◌, ◌≡◌, refl, sym, ap, ◌∙◌, Bool, true, false, none, some, arith,
  Bool-cases, Option-cases, ◌⊎◌, inl, inr,
}
use light_os_orion_risc_v.Mem.Memory.{Memory, read_word, write_word, page_alloc}
use light_os_orion_risc_v.Mem.Mmu.{
  entry, valid, pte_pa, table_pte, vpn, Walk, found, missing, next_table, walk_from,
}
use light_os_orion_risc_v.Mem.Mmu.Pte.{valid-table_pte, pte_pa-table_pte, vpn-lt}
use light_os_orion_risc_v.Mem.Mmu.Tree.{
  Owner, IsTree, aligned, find, find-step, find-end, Linked, link-Linked,
}
use light_os_orion_risc_v.Mem.Mmu.Grow.{
  NewFrame, page_alloc-NewFrame, Extends, Extends-refl, Extends-trans, grown, grown_self,
  grow-Extends, grow-IsTree,
}

-- A step through an entry that is there.
next_table-valid :
    (m : Memory) (root : ℕ) (owner : Owner) (t l p va : ℕ) (create : Bool)
    → IsTree m root owner
    → owner t ≡ some (suc l, p)
    → valid (read_word m.words (entry t (vpn va (suc l)))) ≡ true
    → next_table m t va (suc l) create
      ≡ found (pte_pa (read_word m.words (entry t (vpn va (suc l))))) m
unfolding next_table
next_table-valid m root owner t l p va create tree h v =
    let inner = tree.inner t l p (vpn va (suc l)) h (vpn-lt va (suc l)) v in rw (v, inner) refl

-- Without `create` a walk changes nothing and gives the leaf entry, if the tables are there.
pub walk_from-find :
    (l : ℕ) (m : Memory) (root : ℕ) (owner : Owner) (t p va : ℕ)
    → IsTree m root owner
    → owner t ≡ some (l, p)
    → walk_from l m t va false
      ≡ elim (find m.words l t va) [ none ↦ missing m | some at ↦ found at m ]
unfolding walk_from find next_table
walk_from-find zero m root owner t p va tree h = refl
walk_from-find (suc l) m root owner t p va tree h =
    elim (Bool-cases (valid (read_word m.words (entry t (vpn va (suc l)))))) [
      | inl v ↦
          let c = tree.child t l p (vpn va (suc l)) h (vpn-lt va (suc l)) v in
          let pte : ℕ = read_word m.words (entry t (vpn va (suc l))) in
          rw (next_table-valid m root owner t l p va false tree h v, v, walk_from, find)
            (walk_from-find l m root owner (pte_pa pte) (p * 512 + vpn va (suc l)) va tree c)
      | inr v ↦ rw (v, next_table, walk_from, find) refl
    ]

-- What a step with `create` gives: the next table, in a tree that extends the one before, or the
-- tree as it was.
record Stepped (m : Memory) (root : ℕ) (owner : Owner) (t i l q next : ℕ) (m' : Memory)
    : Type 0 where
  owner' : Owner
  tree : IsTree m' root owner'
  extends : Extends m owner m' owner'
  owned : owner' next ≡ some (l, q)
  linked : valid (read_word m'.words (entry t i)) ≡ true
  to_next : pte_pa (read_word m'.words (entry t i)) ≡ next

-- The memory after the new table `n` was linked.
linked_at : Memory → ℕ → ℕ → Memory
linked_at m at n = record m { words = write_word m.words at (table_pte n) }

link_Stepped :
    (m : Memory) (root : ℕ) (owner : Owner) (t l p i n : ℕ) (m1 : Memory)
    → IsTree m root owner
    → owner t ≡ some (suc l, p)
    → i < 512
    → valid (read_word m.words (entry t i)) ≡ false
    → page_alloc m 1 ≡ some (n, m1)
    → Stepped m root owner t i l (p * 512 + i) (pte_pa (table_pte n)) (linked_at m1 (entry t i) n)
unfolding linked_at
link_Stepped m root owner t l p i n m1 tree h lt v ok = record {
  owner' = grown owner n l (p * 512 + i);
  tree =
      grow-IsTree m root owner tree t l p i n m2 h lt v unowned r.frame new (λ x f. (r.kept x f).0)
        r.allocator;
  extends = grow-Extends m root owner tree t l p i n m2 h lt v unowned r.frame new r.kept;
  owned = ap (grown owner n l (p * 512 + i)) at_n ∙ grown_self owner n l (p * 512 + i);
  linked = ap valid new.link ∙ valid-table_pte n;
  to_next = ap pte_pa new.link;
}
  where
    m2 : Memory
    m2 = linked_at m1 (entry t i) n

    r : NewFrame m n m1
    r = page_alloc-NewFrame m m1 n tree.allocator ok

    unowned : owner n ≡ none
    unowned = elim (Option-cases (owner n)) [
      | inl free ↦ free
      | inr (o, taken) ↦ absurd ((r.kept n (tree.frame n o taken)).1 refl)
    ]

    al : n % 4096 ≡ 0
    al = aligned m1.frames n r.frame

    at_n : pte_pa (table_pte n) ≡ n
    at_n = pte_pa-table_pte n al (omega (arith, r.frame.address, r.frame.in_ram))

    new : Linked m.words t i n m2.words
    new = rw r.words (
        link-Linked m.words t i n (aligned m.frames t (tree.frame t (suc l, p) h)) al lt
          (r.kept t (tree.frame t (suc l, p) h)).1)

next_table-create :
    (m : Memory) (root : ℕ) (owner : Owner) (t l p va : ℕ)
    → IsTree m root owner
    → owner t ≡ some (suc l, p)
    → (next_table m t va (suc l) true ≡ missing m)
      ⊎ ((next : ℕ) × (m' : Memory) × (next_table m t va (suc l) true ≡ found next m')
          × Stepped m root owner t (vpn va (suc l)) l (p * 512 + vpn va (suc l)) next m')
unfolding next_table linked_at
next_table-create m root owner t l p va tree h =
    elim (Bool-cases (valid (read_word m.words (entry t (vpn va (suc l)))))) [
      | inl v ↦
          let c = tree.child t l p (vpn va (suc l)) h (vpn-lt va (suc l)) v in
          inr (
            pte_pa (read_word m.words (entry t (vpn va (suc l)))),
            m,
            next_table-valid m root owner t l p va true tree h v,
            record {
              owner' = owner;
              tree = tree;
              extends = Extends-refl m owner;
              owned = c;
              linked = v;
              to_next = refl;
            },
          )
      | inr v ↦ elim (Option-cases (page_alloc m 1)) [
        | inl failed ↦ inl (rw (v, failed) refl)
        | inr ((n, m1), ok) ↦ inr (
          pte_pa (table_pte n),
          linked_at m1 (entry t (vpn va (suc l))) n,
          rw (v, ok, linked_at) refl,
          link_Stepped m root owner t l p (vpn va (suc l)) n m1 tree h (vpn-lt va (suc l)) v ok,
        )
      ]
    ]

-- The tree after a walk with `create`: every address leads where it led.
pub record Kept (m : Memory) (root : ℕ) (owner : Owner) (m' : Memory) : Type 0 where
  pub owner' : Owner
  pub tree : IsTree m' root owner'
  pub extends : Extends m owner m' owner'

-- What a walk with `create` gives: no table left for the way, or the leaf entry.
abbrev pub Created : Memory → ℕ → Owner → ℕ → ℕ → ℕ → Walk → Type 0
Created m root owner l t va w =
    ((m' : Memory) × (w ≡ missing m') × Kept m root owner m')
    ⊎ ((at : ℕ) × (m' : Memory) × (w ≡ found at m')
        × Kept m root owner m'
        × (find m'.words l t va ≡ some at))

walk_from-suc :
    (l : ℕ) (m : Memory) (t va next : ℕ) (m' : Memory)
    → next_table m t va (suc l) true ≡ found next m'
    → walk_from (suc l) m t va true ≡ walk_from l m' next va true
unfolding walk_from
walk_from-suc l m t va next m' e = rw (e, walk_from) refl

pub walk_from-create :
    (l : ℕ) (m : Memory) (root : ℕ) (owner : Owner) (t p va : ℕ)
    → IsTree m root owner
    → owner t ≡ some (l, p)
    → Created m root owner l t va (walk_from l m t va true)
unfolding walk_from find
walk_from-create zero m root owner t p va tree h = inr (
  entry t (vpn va 0),
  m,
  refl,
  record { owner' = owner; tree = tree; extends = Extends-refl m owner },
  refl,
)
walk_from-create (suc l) m root owner t p va tree h =
    elim (next_table-create m root owner t l p va tree h) [
      | inl full ↦ inl (
        m,
        rw (full, walk_from) refl,
        record { owner' = owner; tree = tree; extends = Extends-refl m owner },
      )
      | inr (next, m1, e, s) ↦
          let i : ℕ = vpn va (suc l) in
          let first = walk_from-suc l m t va next m1 e in
          elim (walk_from-create l m1 root s.owner' next (p * 512 + i) va s.tree s.owned) [
            | inl (m2, e', k) ↦ inl (
              m2,
              first ∙ e',
              record {
                owner' = k.owner';
                tree = k.tree;
                extends = Extends-trans m m1 m2 owner s.owner' k.owner' s.extends k.extends;
              },
            )
            | inr (at, m2, e', k, reached) ↦
                let same =
                  k.extends.same_entry t i (suc l, p) (s.extends.same_owner t (suc l, p) h)
                    (vpn-lt va (suc l)) s.linked in
                inr (
                  at,
                  m2,
                  first ∙ e',
                  record {
                    owner' = k.owner';
                    tree = k.tree;
                    extends = Extends-trans m m1 m2 owner s.owner' k.owner' s.extends k.extends;
                  },
                  find-step m2.words l t va (ap valid same ∙ s.linked)
                      ∙ ap (λ x. find m2.words l x va) (ap pte_pa same ∙ s.to_next)
                      ∙ reached,
                )
          ]
    ]

-- A leaf entry that is there is found without a new table.
pub walk_from-reached :
    (l : ℕ) (m : Memory) (root : ℕ) (owner : Owner) (t p va at : ℕ) (create : Bool)
    → IsTree m root owner
    → owner t ≡ some (l, p)
    → find m.words l t va ≡ some at
    → walk_from l m t va create ≡ found at m
unfolding walk_from find
walk_from-reached zero m root owner t p va at create tree h e =
    let e' : entry t (vpn va 0) ≡ at = cc in rw e' refl
walk_from-reached (suc l) m root owner t p va at create tree h e =
    elim (Bool-cases (valid (read_word m.words (entry t (vpn va (suc l)))))) [
      | inr v ↦ let no_way = find-end m.words l t va v in absurd cc
      | inl v ↦
          let c = tree.child t l p (vpn va (suc l)) h (vpn-lt va (suc l)) v in
          let pte : ℕ = read_word m.words (entry t (vpn va (suc l))) in
          rw (next_table-valid m root owner t l p va create tree h v, walk_from)
            (walk_from-reached l m root owner (pte_pa pte) (p * 512 + vpn va (suc l)) va at create
              tree c (sym (find-step m.words l t va v) ∙ e))
    ]
