-- ===== src/Mem/Kalloc/Tests.antt =====
-- Runs and instances for the kernel heap (kernel/mem/kalloc.rs), with 256 frames of RAM behind the
-- kernel image and an empty free list, which grows by sixteen pages.
use light_os_orion_risc_v.Prelude.{◌-◌, ◌*◌, ◌≡◌, ◌≢◌, refl, none, some, [], ◌∷◌, arith, max}
use light_os_orion_risc_v.Mem.Layout.{page_up}
use light_os_orion_risc_v.Mem.Page.{
  allocator, alloc, init, scan, is_used, mark_used, set_used, set_free, mark_free, addr_to_frame,
  frame_to_addr,
}
use light_os_orion_risc_v.Mem.Page.Init.{init-IsValid}
use light_os_orion_risc_v.Mem.Memory.{page_alloc}
use light_os_orion_risc_v.Mem.Kalloc.{
  block, Heap, insert, insert_after, merge_forward, merge_backward, insert_some, align_down,
  align_up, first_fit, take_block, block_size, min_block, grow_pages, heap_alloc, heap_dealloc,
}
use light_os_orion_risc_v.Mem.Kalloc.Blocks.{alone, before, Added}
use light_os_orion_risc_v.Mem.Kalloc.Insert.{Inserted, insert-Inserted}
use light_os_orion_risc_v.Mem.Kalloc.Owned.{IsHeap}
use light_os_orion_risc_v.Mem.Kalloc.Calls.{
  AllocDone, heap_alloc-Given, heap_dealloc-IsHeap, heap_dealloc-alloc,
}

abbrev empty : Heap
empty = record {
  free = [];
  memory = record { words = λ w. 0; frames = init allocator 0x87f0_0000 };
}

empty-IsHeap : IsHeap empty
empty-IsHeap = record {
  apart = alone;
  in_ram = λ x f. absurd cc;
  owned = λ x f. absurd cc;
  frames = (init-IsValid 0x87f0_0000 (omega arith) (omega arith)).0;
}

-- A hundred bytes at an alignment of 64: the heap grows.
abbrev first : Heap
first = (heap_alloc empty 100 64).1

first_given : heap_alloc empty 100 64 ≡ (some 0x87f0_0000, first)
unfolding heap_alloc take_block first_fit insert insert_after merge_forward merge_backward
    insert_some align_down align_up block_size grow_pages page_alloc alloc init scan allocator
    is_used set_used set_free mark_free mark_used addr_to_frame frame_to_addr page_up
first_given = refl

first_left : first.free ≡ block 0x87f0_0070 (16 * 4096 - 112) ∷ []
unfolding heap_alloc take_block first_fit insert insert_after merge_forward merge_backward
    insert_some align_down align_up block_size grow_pages page_alloc alloc init scan allocator
    is_used set_used set_free mark_free mark_used addr_to_frame frame_to_addr page_up
first_left = refl

first-IsHeap : IsHeap first
first-IsHeap =
    (heap_alloc-Given empty first 100 64 6 (some 0x87f0_0000) empty-IsHeap refl (omega arith)
      first_given).heap

-- Then twenty at an alignment of 128, from the free list.
abbrev second : Heap
second = (heap_alloc first 20 128).1

second_given : heap_alloc first 20 128 ≡ (some 0x87f0_0080, second)
unfolding heap_alloc take_block first_fit insert insert_after merge_forward merge_backward
    insert_some align_down align_up block_size grow_pages page_alloc alloc init scan allocator
    is_used set_used set_free mark_free mark_used addr_to_frame frame_to_addr page_up
second_given = refl

second_fits : take_block first.free (block_size 20) (max 128 min_block) ≢ none
unfolding heap_alloc take_block first_fit insert insert_after merge_forward merge_backward
    insert_some align_down align_up block_size grow_pages page_alloc alloc init scan allocator
    is_used set_used set_free mark_free mark_used addr_to_frame frame_to_addr page_up
second_fits e = absurd cc

insert-Inserted_example :
    Inserted 0
      (block 16 16 ∷ block 64 32 ∷ [])
      32
      32
      (insert (block 16 16 ∷ block 64 32 ∷ []) 32 32)
insert-Inserted_example =
    insert-Inserted 0 32 32 (block 16 16 ∷ block 64 32 ∷ [])
      (before (omega arith) (omega arith) (before (omega arith) (omega arith) alone)) (omega arith)
      (omega arith) (λ x lo hi. ground arith)

heap_alloc-Given_example : AllocDone first second (block_size 20) 7 (some 0x87f0_0080)
heap_alloc-Given_example =
    heap_alloc-Given first second 20 128 7 (some 0x87f0_0080) first-IsHeap refl (omega arith)
      second_given

heap_dealloc-IsHeap_example :
    IsHeap (heap_dealloc second 0x87f0_0080 20)
    × Added second.free 0x87f0_0080 (block_size 20) (heap_dealloc second 0x87f0_0080 20).free
heap_dealloc-IsHeap_example = heap_dealloc-IsHeap second 20 7 0x87f0_0080 (
    (heap_alloc-Given first second 20 128 7 (some 0x87f0_0080) first-IsHeap refl (omega arith)
        second_given).given
      0x87f0_0080 refl)

heap_dealloc-alloc_example : heap_dealloc second 0x87f0_0080 20 ≡ first
heap_dealloc-alloc_example =
    heap_dealloc-alloc first second 20 128 7 0x87f0_0080 first-IsHeap refl (omega arith) second_fits
      second_given
