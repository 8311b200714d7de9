-- ===== src/Syscall/Tests.antt =====
-- Runs of the system call table (kernel/syscall/mod.rs) and of the calls on a kernel with one process.
use light_os_orion_risc_v.Prelude.{
  ℕ, ◌+◌, ◌-◌, ◌<◌, ◌≡◌, refl, none, some, [], ◌∷◌, arith, replicate, get_or,
}
use light_os_orion_risc_v.Mem.Page.{
  allocator, alloc, init, scan, is_used, mark_used, set_used, set_free, mark_free, addr_to_frame,
  frame_to_addr,
}
use light_os_orion_risc_v.Mem.Layout.{page_up}
use light_os_orion_risc_v.Mem.Memory.{page_alloc, read_word, write_word, zero_pages}
use light_os_orion_risc_v.Mem.Mmu.{
  map, walk, walk_from, next_table, entry, valid, pte_pa, table_pte, leaf_pte, vpn,
}
use light_os_orion_risc_v.Syscall.Pages.{map_new, sys_mmap}
use light_os_orion_risc_v.Syscall.Mmap.{Mmapped, sys_mmap-Mmapped}
use light_os_orion_risc_v.Mem.Mmu.Tests.{root, mapped, mapped_tree}
use light_os_orion_risc_v.Mem.Uaccess.Window.{user_byte}
use light_os_orion_risc_v.Mem.Uaccess.Tests.{bytes, written, done}
use light_os_orion_risc_v.Sched.{Process, boot, with_slots, running}
use light_os_orion_risc_v.Sched.Lifecycle.{fresh}
use light_os_orion_risc_v.Uart.{rx_buf}
use light_os_orion_risc_v.Syscall.{handler, sys_wait4, enosys}
use light_os_orion_risc_v.Syscall.State.{Kernel, value, Call, returns, blocks, panic}
use light_os_orion_risc_v.Syscall.Devices.{sys_write}
use light_os_orion_risc_v.Syscall.Output.{printed, sys_write-printed}

wait4_run : handler 260 ≡ sys_wait4
unfolding handler
wait4_run = refl

unknown_run : handler 1 ≡ enosys
unfolding handler
unknown_run = refl

-- One process, with three bytes in its memory.
abbrev only : Process
only = record (fresh 1 none root 0x5000_0000 0x20000 (replicate 16 0)) { state = running }

abbrev kernel : Kernel
kernel = record {
  system = record (with_slots boot (some only ∷ replicate 15 none)) { current = some 0 };
  memory = written;
  net = record {
    iface = none;
    ident = 0;
    sockets = record { slots = replicate 32 none; next_ephemeral = 0 };
  };
  nces = [];
  rx = rx_buf;
  disk = λ n. none;
  root_fs = none;
  ticks = 0;
  console = [];
  doorbells = [];
  wire = [];
}

stored : (i : ℕ) → i < 3 → user_byte written root (0x4000_0006 + i) ≡ some (get_or bytes i 0)
stored i lt =
    let b = done.bytes (0x4000_0006 + i) (omega arith, omega arith) in
    let at : 0x4000_0006 + i - 0x4000_0006 ≡ i = omega arith in
    let v : get_or bytes (0x4000_0006 + i - 0x4000_0006) 0 ≡ get_or bytes i 0 = rw at refl in
    ground (arith, b, v)

sys_write-printed_example :
    sys_write kernel 1 0x4000_0006 3 ≡ returns (value 3) (printed kernel bytes)
sys_write-printed_example =
    sys_write-printed kernel 1 0 only mapped_tree.0 0x4000_0006 bytes (omega arith) (omega arith)
      refl refl done.window (omega arith) (omega arith) stored

-- One page more for the process.
abbrev kernel_after : Call → Kernel
kernel_after (returns a k) = k
kernel_after (blocks k) = k
kernel_after panic = kernel

abbrev unwritten : Kernel
unwritten = record kernel { memory = mapped }

abbrev extended : Kernel
extended = kernel_after (sys_mmap unwritten 100)

extended_run : sys_mmap unwritten 100 ≡ returns (value 0x5000_0000) extended
unfolding page_alloc alloc init scan allocator is_used set_used set_free mark_free mark_used
    addr_to_frame frame_to_addr page_up map walk walk_from next_table entry valid pte_pa table_pte
    leaf_pte vpn read_word write_word zero_pages sys_mmap map_new
extended_run = refl

sys_mmap-Mmapped_example : Mmapped unwritten extended 0 only 0x5000_0000 1
sys_mmap-Mmapped_example =
    sys_mmap-Mmapped unwritten extended 0 100 0x5000_0000 only mapped_tree.0 refl refl mapped_tree.1
      refl (omega arith) extended_run
