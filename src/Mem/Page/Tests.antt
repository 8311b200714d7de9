-- ===== src/Mem/Page/Tests.antt =====
-- Runs and instances for the page-frame allocator (kernel/mem/page.rs), with two frames of RAM
-- behind the kernel image.
use light_os_orion_risc_v.Prelude.{ℕ, ◌+◌, ◌*◌, ◌≤◌, ◌≡◌, ◌↔◌, ◌⊎◌, refl, none, some, arith}
use light_os_orion_risc_v.Mem.Layout.{page_size, page_up}
use light_os_orion_risc_v.Mem.Page.{
  PageAllocator, allocator, is_used, mark_used, alloc, free, init, scan, set_used, set_free,
  mark_free, addr_to_frame, frame_to_addr,
}
use light_os_orion_risc_v.Mem.Page.Inv.{
  IsValid, Allocated, alloc-Allocated, NoRun, alloc-eq-none_iff,
}
use light_os_orion_risc_v.Mem.Page.Free.{free-alloc, alloc_twice_disjoint}
use light_os_orion_risc_v.Mem.Page.Init.{init-IsValid}

abbrev heap : ℕ
heap = 0x87ff_d801

abbrev booted : PageAllocator
booted = init allocator heap

booted-IsValid : IsValid booted
booted-IsValid = (init-IsValid heap (omega arith) (omega arith)).0

-- The first of the two frames handed out, then the second.
abbrev one_out : PageAllocator
one_out = record booted { bitmap = mark_used booted.bitmap 32766 1; free_frames = 1 }

abbrev two_out : PageAllocator
two_out = record one_out { bitmap = mark_used one_out.bitmap 32767 1; free_frames = 0 }

alloc_first : alloc booted 1 ≡ some (0x87ff_e000, one_out)
unfolding alloc init scan allocator is_used set_used set_free mark_free mark_used addr_to_frame
    frame_to_addr page_up
alloc_first = refl

alloc_second : alloc one_out 1 ≡ some (0x87ff_f000, two_out)
unfolding alloc init scan allocator is_used set_used set_free mark_free mark_used addr_to_frame
    frame_to_addr page_up
alloc_second = refl

alloc_exhausted : alloc two_out 1 ≡ none
unfolding alloc init allocator addr_to_frame page_up
alloc_exhausted = refl

one_out-IsValid : IsValid one_out
one_out-IsValid = (alloc-Allocated booted one_out 1 0x87ff_e000 booted-IsValid alloc_first).1.valid

two_out-IsValid : IsValid two_out
two_out-IsValid =
    (alloc-Allocated one_out two_out 1 0x87ff_f000 one_out-IsValid alloc_second).1.valid

alloc-Allocated_example : (s : ℕ) × Allocated booted 1 s 0x87ff_e000 one_out
alloc-Allocated_example = alloc-Allocated booted one_out 1 0x87ff_e000 booted-IsValid alloc_first

alloc-eq-none_iff_example : (alloc two_out 1 ≡ none) ↔ (◌≡◌ {A = ℕ} 1 0 ⊎ NoRun two_out 1)
alloc-eq-none_iff_example = alloc-eq-none_iff two_out 1 two_out-IsValid

free-alloc_example :
    (a'' : PageAllocator) × (free one_out 0x87ff_e000 1 ≡ some a'')
    × IsValid a''
    × ((g : ℕ) → is_used a''.bitmap g ≡ is_used booted.bitmap g)
    × (a''.free_frames ≡ booted.free_frames)
free-alloc_example = free-alloc booted one_out 1 0x87ff_e000 booted-IsValid alloc_first

alloc_twice_disjoint_example :
    (0x87ff_e000 + 1 * page_size ≤ 0x87ff_f000) ⊎ (0x87ff_f000 + 1 * page_size ≤ 0x87ff_e000)
alloc_twice_disjoint_example =
    alloc_twice_disjoint booted one_out two_out 1 1 0x87ff_e000 0x87ff_f000 booted-IsValid
      alloc_first alloc_second
