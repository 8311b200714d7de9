-- ===== src/Mem/Mmu/KernelMap.antt =====
-- `kernel_page_table` of kernel/mem/mmu.rs: the kernel sees its image, RAM and devices at their own
-- addresses, and nothing else.
use light_os_orion_risc_v.Prelude.{
  ℕ, ◌+◌, ◌<◌, ◌≤◌, ◌≡◌, ◌^◌, refl, Bool, false, none, some, List, [], ◌∷◌, arith, Option-cases,
  leb, ltb, ◌&&◌, ◌||◌, if◌then◌else◌, inl, inr,
}
use light_os_orion_risc_v.Mem.Layout.{ram_end, page_down, page_up}
use light_os_orion_risc_v.Mem.Page.Inv.{IsValid}
use light_os_orion_risc_v.Mem.Memory.{Memory, page_alloc}
use light_os_orion_risc_v.Mem.Mmu.{Outcome, done, failed, panics, map_range}
use light_os_orion_risc_v.Mem.Mmu.Tree.{Owner, IsTree}
use light_os_orion_risc_v.Mem.Mmu.Roots.{alone, page_alloc-IsTree, page_alloc-unmapped}
use light_os_orion_risc_v.Mem.Mmu.Translate.{translation}
use light_os_orion_risc_v.Mem.Mmu.Range.{Identity, map_range-Identity}
use light_os_orion_risc_v.Mem.Mmu.Kernel.{
  Sections, Range, kernel_ranges, expect_done, map_ranges, kernel_page_table,
}

-- Whether an address is in one of the pages of the ranges.
abbrev pub in_ranges : List Range → ℕ → Bool
in_ranges [] x = false
in_ranges (r ∷ rest) x = (leb (page_down r.start) x && ltb x (page_up r.stop)) || in_ranges rest x

-- Ranges that `map_range` can map one to one.
pub data Mappable : List Range → Type 0 where
  no_range : Mappable []
  and_range :
      {r : Range} {rest : List Range}
      → r.start ≤ r.stop
      → r.stop + 4096 ≤ 2 ^ 39
      → r.flags < 1024
      → Mappable rest
      → Mappable (r ∷ rest)

abbrev pub Ranges : List Range → Memory → Memory → ℕ → Type 0
Ranges rs m m' root =
    (x : ℕ)
    → x < 2 ^ 39
    → translation m' root x ≡ (if in_ranges rs x then some x else translation m root x)

expect_done-done : (r : Outcome) (m : Memory) → expect_done r ≡ some m → r ≡ done m
expect_done-done (done m') m e = cc
expect_done-done (failed f m') m e = absurd cc
expect_done-done panics m e = absurd cc

map_ranges-Ranges :
    (rs : List Range) (m m' : Memory) (root : ℕ) (owner : Owner)
    → IsTree m root owner
    → Mappable rs
    → map_ranges rs m root ≡ some m'
    → Ranges rs m m' root × ((owner' : Owner) × IsTree m' root owner')
unfolding map_ranges Identity
map_ranges-Ranges [] m m' root owner tree ok e =
    let same : m ≡ m' = ground arith in rw (← same) (λ x lt. refl, (owner, tree))
map_ranges-Ranges (r ∷ rest) m m' root owner tree (and_range le fit small ok) e =
    elim (Option-cases (expect_done (map_range m root r.start r.stop r.flags))) [
      | inl stops ↦ absurd (ground arith)
      | inr (m1, now) ↦
          let (first, (owner1, tree1)) =
            map_range-Identity m m1 root owner r.start r.stop r.flags tree le fit small
              (expect_done-done (map_range m root r.start r.stop r.flags) m1 now) in
          let (others, tree') = map_ranges-Ranges rest m1 m' root owner1 tree1 ok (ground arith) in
          (λ x lt. let a = first x lt in let b = others x lt in ground (arith, a, b), tree')
    ]

-- When the kernel's page table can be built, and the sections of the image are ranges that end a
-- page below 2^39, an address below 2^39 is translated to itself if it lies in a page of the image,
-- of RAM or of a device, and has no translation otherwise; the tables are a tree.
pub kernel_page_table-identity :
    (s : Sections) (m m' : Memory) (root : ℕ)
    → IsValid m.frames
    → s.text_start ≤ s.text_end
    → s.text_end + 4096 ≤ 2 ^ 39
    → s.rodata_start ≤ s.rodata_end
    → s.rodata_end + 4096 ≤ 2 ^ 39
    → s.data_start ≤ ram_end
    → kernel_page_table s m ≡ some (root, m')
    → ((x : ℕ)
        → x < 2 ^ 39
        → translation m' root x ≡ (if in_ranges (kernel_ranges s) x then some x else none))
      × ((owner : Owner) × IsTree m' root owner)
unfolding kernel_page_table kernel_ranges
kernel_page_table-identity s m m' root v t t' r r' d e = elim (Option-cases (page_alloc m 1)) [
  | inl no_root ↦ absurd (ground arith)
  | inr ((new, m1), ok) ↦ elim (Option-cases (map_ranges (kernel_ranges s) m1 new)) [
    | inl stops ↦ absurd (ground arith)
    | inr (m2, mapped) ↦
        let same : new ≡ root = ground arith in
        let after : m2 ≡ m' = ground arith in
        let fits : Mappable (kernel_ranges s) = and_range t t' (omega arith) (
          and_range r r' (omega arith) (
            and_range d (omega arith) (omega arith) (
              and_range (omega arith) (omega arith) (omega arith) (
                and_range (omega arith) (omega arith) (omega arith) (
                  and_range (omega arith) (omega arith) (omega arith) (
                    and_range (omega arith) (omega arith) (omega arith)
                      (and_range (omega arith) (omega arith) (omega arith) no_range))))))) in
        let (all, tree) =
          map_ranges-Ranges (kernel_ranges s) m1 m2 new (alone new)
            (page_alloc-IsTree m m1 new v ok) fits mapped in
        rw (← same, ← after) (λ x lt. rw (← page_alloc-unmapped m m1 new x v ok) (all x lt), tree)
  ]
]
