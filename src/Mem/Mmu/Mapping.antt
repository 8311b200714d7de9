-- ===== src/Mem/Mmu/Mapping.antt =====
-- `map` and `unmap` of kernel/mem/mmu.rs against `virt_to_phys`: what every address is translated
-- to after a page was mapped or unmapped.
use light_os_orion_risc_v.Prelude.{
  ℕ, ◌+◌, ◌%◌, ◌<◌, ◌≡◌, ◌≢◌, refl, sym, ap, ◌∙◌, true, false, none, some, arith, Bool-cases,
  Option-cases, inl, inr,
}
use light_os_orion_risc_v.Mem.Layout.{usize_mod}
use light_os_orion_risc_v.Mem.Memory.{Memory, read_word, write_word}
use light_os_orion_risc_v.Mem.Mmu.{
  valid, leaf_pte, vpn, found, walk, Outcome, done, failed, panics, Fault, already_mapped, no_table,
  map, virt_to_phys,
}
use light_os_orion_risc_v.Mem.Mmu.Pte.{valid-leaf_pte, pte_pa-leaf_pte, valid-zero, vpn_lem}
use light_os_orion_risc_v.Mem.Mmu.Tree.{Owner, IsFrame, IsTree, find, leaf}
use light_os_orion_risc_v.Mem.Mmu.Descend.{Kept, Created, walk_from-create, walk_from-reached}
use light_os_orion_risc_v.Mem.Mmu.Store.{Stored, write-Stored}
use light_os_orion_risc_v.Mem.Mmu.Translate.{
  translation, page_of, virt_to_phys-leaf, translation_congr, mapped-valid, translation-leaf,
}

walk-create :
    (m : Memory) (root : ℕ) (owner : Owner) (va : ℕ)
    → IsTree m root owner
    → Created m root owner 2 root va (walk m root va true)
unfolding walk
walk-create m root owner va tree = walk_from-create 2 m root owner root 0 va tree tree.at_root

pub leaf-find :
    (words : ℕ → ℕ) (l t va at : ℕ)
    → find words l t va ≡ some at
    → leaf words l t va ≡ read_word words at
unfolding leaf
leaf-find words l t va at e = rw (e, leaf) refl

-- What a call of `map` gives, in terms of the leaf entries: a new one for its page, or a refusal
-- that leaves them all.
data Mapped (m : Memory) (root : ℕ) (owner : Owner) (va pa flags : ℕ) (r : Outcome) : Type 0 where
  was_mapped :
      (m' : Memory)
      → (r ≡ failed already_mapped m')
      → Kept m root owner m'
      → valid (leaf m.words 2 root va) ≡ true
      → Mapped m root owner va pa flags r
  full :
      (m' : Memory)
      → (r ≡ failed no_table m')
      → Kept m root owner m'
      → Mapped m root owner va pa flags r
  now_mapped :
      (m' m'' : Memory)
      → (r ≡ done m'')
      → (k : Kept m root owner m') → valid (leaf m.words 2 root va) ≡ false
      → Stored m' root k.owner' va (leaf_pte pa flags) m''
      → Mapped m root owner va pa flags r

map-Mapped :
    (m : Memory) (root : ℕ) (owner : Owner) (va pa flags : ℕ)
    → IsTree m root owner
    → Mapped m root owner va pa flags (map m root va pa flags)
unfolding map
map-Mapped m root owner va pa flags tree = elim (walk-create m root owner va tree) [
  | inl (m', e, k) ↦ full m' (rw (e, map) refl) k
  | inr (at, m', e, k, reached) ↦
      let same = k.extends.same_leaf 2 root 0 va tree.at_root in
      let at_leaf = leaf-find m'.words 2 root va at reached in
      elim (Bool-cases (valid (read_word m'.words at))) [
        | inl v ↦ was_mapped m' (rw (e, v, map) refl) k (ap valid (sym same ∙ at_leaf) ∙ v)
        | inr v ↦
            now_mapped m' (record m' { words = write_word m'.words at (leaf_pte pa flags) })
              (rw (e, v, map) refl) k (ap valid (sym same ∙ at_leaf) ∙ v)
              (write-Stored m' root k.owner' va (leaf_pte pa flags) at k.tree reached)
      ]
]

pub not_mapped :
    (m : Memory) (root : ℕ) (owner : Owner) (va : ℕ)
    → IsTree m root owner
    → valid (leaf m.words 2 root va) ≡ false
    → translation m root va ≡ none
not_mapped m root owner va tree v = rw (translation-leaf m root owner va tree, v) refl

-- Addresses of one page have the same leaf entry.
pub same_leaf_entry :
    (words : ℕ → ℕ) (t va va' : ℕ)
    → page_of va ≡ page_of va'
    → leaf words 2 t va ≡ leaf words 2 t va'
unfolding leaf find
same_leaf_entry words t va va' e =
    let v0 : vpn va 0 ≡ vpn va' 0 = omega (arith, vpn_lem va 0, vpn_lem va' 0) in
    let v1 : vpn va 1 ≡ vpn va' 1 = omega (arith, vpn_lem va 1, vpn_lem va' 1) in
    let v2 : vpn va 2 ≡ vpn va' 2 = omega (arith, vpn_lem va 2, vpn_lem va' 2) in
    rw (v2, v1, v0, leaf, find) refl

-- A successful `map` of a page-aligned physical address with flags in the low bits of the entry
-- was of an address without a translation; afterwards the addresses of its page are translated to
-- that physical page, every other address to what it was, and the tables are a tree again.
pub virt_to_phys-map :
    (m m' : Memory) (root : ℕ) (owner : Owner) (va pa flags : ℕ)
    → IsTree m root owner
    → pa % 4096 ≡ 0
    → pa < usize_mod
    → flags < 1024
    → map m root va pa flags ≡ done m'
    → (translation m root va ≡ none)
      × ((va' : ℕ)
          → page_of va' ≡ page_of va
          → virt_to_phys m' root va' ≡ found (pa + va' % 4096) m')
      × ((va' : ℕ) → page_of va' ≢ page_of va → translation m' root va' ≡ translation m root va')
      × ((owner' : Owner) × IsTree m' root owner')
virt_to_phys-map m m' root owner va pa flags tree al h lt ok =
    elim (map-Mapped m root owner va pa flags tree) [
      | was_mapped m1 e k v ↦ absurd cc
      | full m1 e k ↦ absurd cc
      | now_mapped m1 m2 e k v s ↦
          let same : m2 ≡ m' = ground arith in
          rw (← same) (
            not_mapped m root owner va tree v,
            λ va' page.
                rw
                  (
                    virt_to_phys-leaf m2 root k.owner' va' s.tree,
                    same_leaf_entry m2.words root va' va page,
                    s.here,
                    valid-leaf_pte pa flags,
                    pte_pa-leaf_pte pa flags al h lt,
                  )
                  refl,
            λ va' ne.
                translation_congr m m2 root owner k.owner' va' tree s.tree
                  (s.others va' ne ∙ k.extends.same_leaf 2 root 0 va' tree.at_root),
            (k.owner', s.tree),
          )
    ]

-- What a call of `map` does to frames that are in use: they stay so, and none becomes a table.
pub record Spared (m : Memory) (root : ℕ) (owner : Owner) (m' : Memory) : Type 0 where
  pub owner' : Owner
  pub tree : IsTree m' root owner'
  pub same_frame : (x : ℕ) → IsFrame m.frames x → IsFrame m'.frames x
  pub same_use : (x : ℕ) → IsFrame m.frames x → owner' x ≡ owner x

pub map-Spared :
    (m m' : Memory) (root : ℕ) (owner : Owner) (va pa flags : ℕ)
    → IsTree m root owner
    → map m root va pa flags ≡ done m'
    → Spared m root owner m'
map-Spared m m' root owner va pa flags tree ok = elim (map-Mapped m root owner va pa flags tree) [
  | was_mapped m1 e k v ↦ absurd cc
  | full m1 e k ↦ absurd cc
  | now_mapped m1 m2 e k v s ↦
      let same : m2 ≡ m' = ground arith in
      rw (← same) (record {
        owner' = k.owner';
        tree = s.tree;
        same_frame =
            λ x f. let f' : IsFrame m1.frames x = k.extends.same_frame x f in rw s.frames f';
        same_use = k.extends.same_use;
      })
]

pub leaf-reached :
    (m : Memory) (root va : ℕ)
    → valid (leaf m.words 2 root va) ≡ true
    → (at : ℕ) × (find m.words 2 root va ≡ some at)
unfolding leaf
leaf-reached m root va v = elim (Option-cases (find m.words 2 root va)) [
  | inl end ↦
      let e : leaf m.words 2 root va ≡ 0 = rw (end, leaf) refl in let z = valid-zero in absurd cc
  | inr r ↦ r
]

map_twice :
    (m : Memory) (root : ℕ) (owner : Owner) (va pa flags : ℕ)
    → IsTree m root owner
    → translation m root va ≢ none
    → map m root va pa flags ≡ failed already_mapped m
unfolding map walk
map_twice m root owner va pa flags tree there =
    let v = mapped-valid m root owner va tree there in
    let (at, e) = leaf-reached m root va v in
    let w = walk_from-reached 2 m root owner root 0 va at true tree tree.at_root e in
    rw (w, sym (leaf-find m.words 2 root va at e), v, map) refl

-- `map` never panics in a tree. When it fails, every address is translated to what it was and the
-- tables are a tree. On an address with a translation it
-- fails as already mapped and changes nothing.
pub map_refused :
    (m : Memory) (root : ℕ) (owner : Owner) (va pa flags : ℕ)
    → IsTree m root owner
    → (map m root va pa flags ≢ panics)
      × ((e : Fault) (m' : Memory)
          → map m root va pa flags ≡ failed e m'
          → ((va' : ℕ) → translation m' root va' ≡ translation m root va')
            × ((owner' : Owner) × IsTree m' root owner'))
      × (translation m root va ≢ none → map m root va pa flags ≡ failed already_mapped m)
map_refused m root owner va pa flags tree = elim (map-Mapped m root owner va pa flags tree) [
  | was_mapped m1 e k v ↦ (
    λ p. absurd cc,
    λ f m' e'. let same : m1 ≡ m' = ground arith in rw (← same) (kept m1 k),
    map_twice m root owner va pa flags tree,
  )
  | full m1 e k ↦ (
    λ p. absurd cc,
    λ f m' e'. let same : m1 ≡ m' = ground arith in rw (← same) (kept m1 k),
    map_twice m root owner va pa flags tree,
  )
  | now_mapped m1 m2 e k v s ↦
      (λ p. absurd cc, λ f m' e'. absurd cc, map_twice m root owner va pa flags tree)
]
  where
    kept :
        (m1 : Memory)
        → Kept m root owner m1
        → ((va' : ℕ) → translation m1 root va' ≡ translation m root va')
          × ((owner' : Owner) × IsTree m1 root owner')
    kept m1 k = (
      λ va'.
          translation_congr m m1 root owner k.owner' va' tree k.tree
            (k.extends.same_leaf 2 root 0 va' tree.at_root),
      (k.owner', k.tree),
    )
