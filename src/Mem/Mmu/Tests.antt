-- ===== src/Mem/Mmu/Tests.antt =====
-- Runs and instances for the page tables (kernel/mem/mmu.rs), with eight frames of RAM behind the
-- kernel image.
use light_os_orion_risc_v.Prelude.{
  ℕ, ◌+◌, ◌%◌, ◌/◌, ◌^◌, ◌≡◌, ◌≢◌, ◌⊎◌, refl, none, some, Option, arith,
}
use light_os_orion_risc_v.Mem.Layout.{page_up, page_down}
use light_os_orion_risc_v.Mem.Page.{
  PageAllocator, allocator, alloc, init, scan, is_used, mark_used, set_used, set_free, mark_free,
  addr_to_frame, frame_to_addr,
}
use light_os_orion_risc_v.Mem.Page.Inv.{IsValid}
use light_os_orion_risc_v.Mem.Page.Init.{init-IsValid}
use light_os_orion_risc_v.Mem.Memory.{Memory, page_alloc, read_word, write_word, zero_pages}
use light_os_orion_risc_v.Mem.Mmu.{
  Outcome, Fault, already_mapped, missing, done, failed, panics, map_range, map_pages,
  new_user_root, user_root_slot, map, unmap, found, virt_to_phys, walk, walk_from, next_table,
  entry, valid, pte_pa, table_pte, leaf_pte, vpn,
}
use light_os_orion_risc_v.Mem.Mmu.Tree.{Owner, IsTree}
use light_os_orion_risc_v.Mem.Mmu.Roots.{alone, page_alloc-IsTree}
use light_os_orion_risc_v.Mem.Mmu.Translate.{translation, page_of}
use light_os_orion_risc_v.Mem.Mmu.Mapping.{virt_to_phys-map, map_refused}
use light_os_orion_risc_v.Mem.Mmu.Unmapping.{virt_to_phys-unmap, unmap-map}
use light_os_orion_risc_v.Mem.Mmu.Range.{Identity, map_range-Identity}
use light_os_orion_risc_v.Mem.Mmu.Process.{new_user_root-shares}

abbrev pub booted : PageAllocator
booted = init allocator 0x87ff_8000

pub booted-IsValid : IsValid booted
booted-IsValid = (init-IsValid 0x87ff_8000 (omega arith) (omega arith)).0

abbrev pub bare : Memory
bare = record { words = λ w. 0; frames = booted }

abbrev pub memory_of : Option (ℕ × Memory) → Memory
memory_of none = bare
memory_of (some (r, m)) = m

abbrev pub after : Outcome → Memory
after (done m) = m
after (failed e m) = m
after panics = bare

abbrev pub root : ℕ
root = 0x87ff_8000

abbrev pub started : Memory
started = memory_of (page_alloc bare 1)

pub root_allocated : page_alloc bare 1 ≡ some (root, started)
unfolding page_alloc alloc init scan allocator is_used set_used set_free mark_free mark_used
    addr_to_frame frame_to_addr page_up
root_allocated = refl

pub started-IsTree : IsTree started root (alone root)
started-IsTree = page_alloc-IsTree bare started root booted-IsValid root_allocated

-- A read and write page at the start of the user window.
abbrev pub mapped : Memory
mapped = after (map started root 0x4000_0000 0x87ff_f000 0x16)

pub page_mapped : map started root 0x4000_0000 0x87ff_f000 0x16 ≡ done mapped
unfolding page_alloc alloc init scan allocator is_used set_used set_free mark_free mark_used
    addr_to_frame frame_to_addr page_up map walk walk_from next_table entry valid pte_pa table_pte
    leaf_pte vpn read_word write_word zero_pages
page_mapped = refl

pub mapped_tree : (owner' : Owner) × IsTree mapped root owner'
mapped_tree =
    (virt_to_phys-map started mapped root (alone root) 0x4000_0000 0x87ff_f000 0x16 started-IsTree
      refl (omega arith) (omega arith) page_mapped).3

virt_to_phys-map_example :
    (translation started root 0x4000_0000 ≡ none)
    × ((va' : ℕ)
        → page_of va' ≡ page_of 0x4000_0000
        → virt_to_phys mapped root va' ≡ found (0x87ff_f000 + va' % 4096) mapped)
    × ((va' : ℕ)
        → page_of va' ≢ page_of 0x4000_0000
        → translation mapped root va' ≡ translation started root va')
    × ((owner' : Owner) × IsTree mapped root owner')
virt_to_phys-map_example =
    virt_to_phys-map started mapped root (alone root) 0x4000_0000 0x87ff_f000 0x16 started-IsTree
      refl (omega arith) (omega arith) page_mapped

map_refused_example :
    (map mapped root 0x4000_0000 0x8000_0000 0x2 ≢ panics)
    × ((e : Fault) (m' : Memory)
        → map mapped root 0x4000_0000 0x8000_0000 0x2 ≡ failed e m'
        → ((va' : ℕ) → translation m' root va' ≡ translation mapped root va')
          × ((owner' : Owner) × IsTree m' root owner'))
    × (translation mapped root 0x4000_0000 ≢ none
        → map mapped root 0x4000_0000 0x8000_0000 0x2 ≡ failed already_mapped mapped)
map_refused_example =
    map_refused mapped root mapped_tree.0 0x4000_0000 0x8000_0000 0x2 mapped_tree.1

virt_to_phys-unmap_example :
    ((translation mapped root 0x4000_0000 ≡ none)
      × (unmap mapped root 0x4000_0000 ≡ missing mapped))
    ⊎ ((pa : ℕ) × (m' : Memory) × (unmap mapped root 0x4000_0000 ≡ found pa m')
        × (translation mapped root 0x4000_0000 ≡ some (pa + 0x4000_0000 % 4096))
        × (translation m' root 0x4000_0000 ≡ none)
        × ((va' : ℕ)
            → page_of va' ≢ page_of 0x4000_0000
            → translation m' root va' ≡ translation mapped root va')
        × IsTree m' root mapped_tree.0)
virt_to_phys-unmap_example = virt_to_phys-unmap mapped root mapped_tree.0 0x4000_0000 mapped_tree.1

unmap-map_example :
    (m'' : Memory) × (unmap mapped root 0x4000_0000 ≡ found 0x87ff_f000 m'')
    × ((va' : ℕ) → translation m'' root va' ≡ translation started root va')
unmap-map_example =
    unmap-map started mapped root (alone root) 0x4000_0000 0x87ff_f000 0x16 started-IsTree refl
      (omega arith) (omega arith) page_mapped

-- The pages that hold [0x1000_0ff8, 0x1000_1001).
abbrev ranged : Memory
ranged = after (map_range started root 0x1000_0ff8 0x1000_1001 0x6)

range_mapped : map_range started root 0x1000_0ff8 0x1000_1001 0x6 ≡ done ranged
unfolding page_alloc alloc init scan allocator is_used set_used set_free mark_free mark_used
    addr_to_frame frame_to_addr page_up map walk walk_from next_table entry valid pte_pa table_pte
    leaf_pte vpn read_word write_word zero_pages map_range map_pages page_down
range_mapped = refl

ranged_tree : (owner' : Owner) × IsTree ranged root owner'
ranged_tree =
    (map_range-Identity started ranged root (alone root) 0x1000_0ff8 0x1000_1001 0x6 started-IsTree
      (omega arith) (omega arith) (omega arith) range_mapped).1

map_range-Identity_example :
    Identity started ranged root (page_down 0x1000_0ff8) (page_up 0x1000_1001)
    × ((owner' : Owner) × IsTree ranged root owner')
map_range-Identity_example =
    map_range-Identity started ranged root (alone root) 0x1000_0ff8 0x1000_1001 0x6 started-IsTree
      (omega arith) (omega arith) (omega arith) range_mapped

abbrev process : Memory
process = memory_of (new_user_root ranged root)

process_made : new_user_root ranged root ≡ some (0x87ff_b000, process)
unfolding page_alloc alloc init scan allocator is_used set_used set_free mark_free mark_used
    addr_to_frame frame_to_addr page_up map walk walk_from next_table entry valid pte_pa table_pte
    leaf_pte vpn read_word write_word zero_pages map_range map_pages page_down new_user_root
process_made = refl

new_user_root-shares_example :
    ((va : ℕ) → page_of va / 2 ^ 18 ≡ user_root_slot → translation process 0x87ff_b000 va ≡ none)
    × ((va : ℕ)
        → page_of va / 2 ^ 18 ≢ user_root_slot
        → translation process 0x87ff_b000 va ≡ translation ranged root va)
    × ((owner' : Owner) × IsTree process 0x87ff_b000 owner')
    × IsTree process root ranged_tree.0
new_user_root-shares_example =
    new_user_root-shares ranged process root 0x87ff_b000 ranged_tree.0 ranged_tree.1 process_made
