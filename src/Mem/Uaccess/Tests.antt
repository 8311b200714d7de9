-- ===== src/Mem/Uaccess/Tests.antt =====
-- Runs and instances for the user copies (kernel/mem/uaccess.rs), with one page mapped at the start
-- of the user window.
use light_os_orion_risc_v.Prelude.{
  ℕ, zero, suc, ◌+◌, ◌*◌, ◌/◌, ◌%◌, ◌≤◌, ◌≡◌, refl, sym, ap, ◌∙◌, List, [], ◌∷◌, some, arith, true,
  false, Option-cases, ℕ_discrete, inl, inr,
}
use light_os_orion_risc_v.Mem.Page.{
  allocator, alloc, init, scan, is_used, mark_used, set_used, set_free, mark_free, addr_to_frame,
  frame_to_addr,
}
use light_os_orion_risc_v.Mem.Layout.{page_up}
use light_os_orion_risc_v.Mem.Memory.{
  Memory, page_alloc, read_word, write_word, zero_pages, write_bytes, write_byte, with_byte,
}
use light_os_orion_risc_v.Mem.Memory.Bytes.{Bytes}
use light_os_orion_risc_v.Mem.Mmu.{
  map, walk, walk_from, next_table, entry, valid, pte_pa, table_pte, leaf_pte, vpn, virt_to_phys,
}
use light_os_orion_risc_v.Mem.Mmu.Roots.{page_alloc-unmapped, alone}
use light_os_orion_risc_v.Mem.Mmu.Mapping.{virt_to_phys-map}
use light_os_orion_risc_v.Mem.Mmu.Translate.{translation, page_of, translated}
use light_os_orion_risc_v.Mem.Mmu.Tests.{
  bare, booted-IsValid, root, started, root_allocated, started-IsTree, mapped, page_mapped,
  mapped_tree,
}
use light_os_orion_risc_v.Mem.Uaccess.{
  user_va_start, user_va_end, check_range, chunk, Put, put, put_fails, put_panics, got, put_pages,
  copy_out, copy_in,
}
use light_os_orion_risc_v.Mem.Uaccess.Window.{Window}
use light_os_orion_risc_v.Mem.Uaccess.Copies.{PutDone, copy_out-PutDone}
use light_os_orion_risc_v.Mem.Uaccess.RoundTrip.{copy_in-copy_out}

last_free : is_used mapped.frames.bitmap 32767 ≡ false
unfolding page_alloc alloc init scan allocator is_used set_used set_free mark_free mark_used
    addr_to_frame frame_to_addr page_up map walk walk_from next_table entry valid pte_pa table_pte
    leaf_pte vpn read_word write_word zero_pages
last_free = refl

-- The one page of the window.
only_page :
    (va pa : ℕ)
    → translation mapped root va ≡ some pa
    → (page_of va ≡ page_of 0x4000_0000) × (pa / 4096 ≡ 0x87ff_f000 / 4096)
only_page va pa e =
    let (before, now, others, t) =
      virt_to_phys-map started mapped root (alone root) 0x4000_0000 0x87ff_f000 0x16 started-IsTree
        refl (omega arith) (omega arith) page_mapped in
    elim (ℕ_discrete (page_of va) (page_of 0x4000_0000)) [
      | no ne ↦
          let gone = others va ne in
          let empty = page_alloc-unmapped bare started root va booted-IsValid root_allocated in
          absurd cc
      | yes page ↦
          let there = translated mapped root va (0x87ff_f000 + va % 4096) (now va page) in
          let at : 0x87ff_f000 + va % 4096 ≡ pa = ground arith in (page, omega arith)
    ]

window : Window mapped root mapped_tree.0
window = record {
  tree = mapped_tree.1;
  no_table = λ va pa i e.
      let (page, at) = only_page va pa e in
      elim (Option-cases (mapped_tree.0 (pa / 4096 * 4096))) [
        | inl free ↦ free
        | inr (o, owned) ↦
            let f = mapped_tree.1.frame (pa / 4096 * 4096) o owned in
            let number : f.number ≡ 32767 = omega (arith, f.address) in
            let used : is_used mapped.frames.bitmap 32767 ≡ true =
              ap (is_used mapped.frames.bitmap) (sym number) ∙ f.used in
            let free = last_free in absurd cc
      ];
  apart = λ va va' pa pa' i i' e e' same. (only_page va pa e).0 ∙ sym (only_page va' pa' e').0;
}

-- Three bytes near the start of the page, over the boundary of two words.
abbrev pub bytes : List ℕ
bytes = 7 ∷ 0 ∷ 255 ∷ []

bytes-Bytes : Bytes bytes
bytes-Bytes zero lt = omega arith
bytes-Bytes (suc zero) lt = omega arith
bytes-Bytes (suc (suc zero)) lt = omega arith
bytes-Bytes (suc (suc (suc i))) lt = absurd (omega arith)

abbrev memory_after : Put → Memory
memory_after (put m) = m
memory_after (put_fails e m) = m
memory_after put_panics = mapped

abbrev pub written : Memory
written = memory_after (copy_out mapped root 0x4000_0006 bytes)

bytes_written : copy_out mapped root 0x4000_0006 bytes ≡ put written
unfolding page_alloc alloc init scan allocator is_used set_used set_free mark_free mark_used
    addr_to_frame frame_to_addr page_up map walk walk_from next_table entry valid pte_pa table_pte
    leaf_pte vpn read_word write_word zero_pages virt_to_phys copy_out check_range put_pages chunk
    write_bytes write_byte with_byte
bytes_written = refl

-- The process has the bytes at the address that they went to.
pub done : PutDone mapped root mapped_tree.0 0x4000_0006 bytes written
done =
    (copy_out-PutDone mapped written root mapped_tree.0 0x4000_0006 bytes window bytes-Bytes
      bytes_written).2

copy_out-PutDone_example :
    (user_va_start ≤ 0x4000_0006)
    × (0x4000_0006 + 3 ≤ user_va_end)
    × PutDone mapped root mapped_tree.0 0x4000_0006 bytes written
copy_out-PutDone_example =
    copy_out-PutDone mapped written root mapped_tree.0 0x4000_0006 bytes window bytes-Bytes
      bytes_written

copy_in-copy_out_example : copy_in written root 0x4000_0006 3 ≡ got bytes
copy_in-copy_out_example =
    copy_in-copy_out mapped written root mapped_tree.0 0x4000_0006 bytes window bytes-Bytes
      bytes_written
