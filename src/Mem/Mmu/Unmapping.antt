-- ===== src/Mem/Mmu/Unmapping.antt =====
-- `unmap` of kernel/mem/mmu.rs against `virt_to_phys` and `map`.
use light_os_orion_risc_v.Prelude.{
  ℕ, ◌+◌, ◌%◌, ◌<◌, ◌≡◌, ◌≢◌, refl, sym, ap, ◌∙◌, none, some, arith, Bool-cases, Option-cases, ◌⊎◌,
  inl, inr, ℕ_discrete,
}
use light_os_orion_risc_v.Mem.Layout.{usize_mod}
use light_os_orion_risc_v.Mem.Memory.{Memory, write_word}
use light_os_orion_risc_v.Mem.Mmu.{valid, pte_pa, found, missing, done, map, unmap}
use light_os_orion_risc_v.Mem.Mmu.Pte.{valid-zero}
use light_os_orion_risc_v.Mem.Mmu.Tree.{Owner, IsTree, find, leaf}
use light_os_orion_risc_v.Mem.Mmu.Store.{write-Stored}
use light_os_orion_risc_v.Mem.Mmu.Translate.{
  translation, page_of, translation_congr, walk-find, translation-leaf, translated,
}
use light_os_orion_risc_v.Mem.Mmu.Mapping.{
  same_leaf_entry, not_mapped, leaf-reached, leaf-find, virt_to_phys-map,
}

-- In a tree, `unmap` of an address with a translation gives the physical page it stood for;
-- afterwards that address has no translation, every other page has the one it had, and the tables
-- are a tree. Without a translation it changes nothing.
pub virt_to_phys-unmap :
    (m : Memory) (root : ℕ) (owner : Owner) (va : ℕ)
    → IsTree m root owner
    → ((translation m root va ≡ none) × (unmap m root va ≡ missing m))
      ⊎ ((pa : ℕ) × (m' : Memory) × (unmap m root va ≡ found pa m')
          × (translation m root va ≡ some (pa + va % 4096))
          × (translation m' root va ≡ none)
          × ((va' : ℕ)
              → page_of va' ≢ page_of va
              → translation m' root va' ≡ translation m root va')
          × IsTree m' root owner)
unfolding unmap
virt_to_phys-unmap m root owner va tree = elim (Bool-cases (valid (leaf m.words 2 root va))) [
  | inr v ↦ elim (Option-cases (find m.words 2 root va)) [
    | inl end ↦
        inl
          (not_mapped m root owner va tree v, rw (walk-find m root owner va tree, end, unmap) refl)
    | inr (at, e) ↦ inl (
      not_mapped m root owner va tree v,
      rw (walk-find m root owner va tree, e, sym (leaf-find m.words 2 root va at e), v, unmap) refl,
    )
  ]
  | inl v ↦
      let (at, e) = leaf-reached m root va v in
      let s = write-Stored m root owner va 0 at tree e in
      inr (
        pte_pa (leaf m.words 2 root va),
        record m { words = write_word m.words at 0 },
        rw (walk-find m root owner va tree, e, sym (leaf-find m.words 2 root va at e), v, unmap)
            refl,
        rw (translation-leaf m root owner va tree, v) refl,
        not_mapped (record m { words = write_word m.words at 0 }) root owner va s.tree
            (ap valid s.here ∙ valid-zero),
        λ va' ne.
            translation_congr m (record m { words = write_word m.words at 0 }) root owner owner va'
              tree s.tree (s.others va' ne),
        s.tree,
      )
]

unmapped_page :
    (m : Memory) (root : ℕ) (owner : Owner) (va' va : ℕ)
    → IsTree m root owner
    → page_of va' ≡ page_of va
    → translation m root va ≡ none
    → translation m root va' ≡ none
unmapped_page m root owner va' va tree page gone =
    elim (Bool-cases (valid (leaf m.words 2 root va))) [
      | inl v ↦
          let e : translation m root va ≡ some (pte_pa (leaf m.words 2 root va) + va % 4096) =
            rw (translation-leaf m root owner va tree, v) refl in
          absurd cc
      | inr v ↦
          not_mapped m root owner va' tree (ap valid (same_leaf_entry m.words root va' va page) ∙ v)
    ]

-- In a tree, where `map` of a page-aligned physical address below 2^64 with flags in the low ten
-- bits of the entry succeeded, `unmap` of the same address gives that physical address, and every
-- address has the translation that it had before both.
pub unmap-map :
    (m m' : Memory) (root : ℕ) (owner : Owner) (va pa flags : ℕ)
    → IsTree m root owner
    → pa % 4096 ≡ 0
    → pa < usize_mod
    → flags < 1024
    → map m root va pa flags ≡ done m'
    → (m'' : Memory) × (unmap m' root va ≡ found pa m'')
      × ((va' : ℕ) → translation m'' root va' ≡ translation m root va')
unmap-map m m' root owner va pa flags tree al h lt ok =
    let (before, now, others, (owner', tree')) =
      virt_to_phys-map m m' root owner va pa flags tree al h lt ok in
    elim (virt_to_phys-unmap m' root owner' va tree') [
      | inl (gone, e) ↦
          let there = translated m' root va (pa + va % 4096) (now va refl) in absurd cc
      | inr (pa', m'', e, was, gone, rest, tree'') ↦
          let there = translated m' root va (pa + va % 4096) (now va refl) in
          let same : pa' ≡ pa = ground arith in
          (
            m'',
            e ∙ ap (λ x. found x m'') same,
            λ va'. elim (ℕ_discrete (page_of va') (page_of va)) [
              | no ne ↦ rest va' ne ∙ others va' ne
              | yes page ↦
                  unmapped_page m'' root owner' va' va tree'' page gone
                  ∙ sym (unmapped_page m root owner va' va tree page before)
            ],
          )
    ]
