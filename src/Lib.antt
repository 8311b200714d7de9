-- ===== src/Lib.antt =====
-- LightOS (Orion, RISC-V): a model of the kernel, and what holds of it.
--
-- The program is a small kernel for one hart. It keeps page frames, page tables, a heap, processes,
-- descriptors, a network stack with UDP sockets, a Minix3 file system, accelerator slots and a
-- console. The kernel is not preempted while it runs, so an operation is a function from the state to
-- the result and the state after it; locks need no model.
--
-- Files and the code that they model (paths from the root of the repository):
--   Prelude, Prelude/: names of the library, lists, tables of optional entries, bit operations; Text
--     has the parts of the Rust text library that the code calls.
--   Mem/Layout: kernel/mem/layout.rs, the memory map and the rounding to pages.
--   Mem/Page, Mem/Page/: kernel/mem/page.rs, the bitmap allocator of page frames. `PageAllocator`
--     is the struct, `alloc`, `free` and `init` are the functions of that name.
--   Mem/Memory, Mem/Memory/: the memory as its words of 64 bits, with the frame allocator;
--     `page_alloc` and `page_free` of kernel/mem/page.rs, and bytes within words.
--   Mem/Mmu, Mem/Mmu/: kernel/mem/mmu.rs, the Sv39 tables in that memory. Process has `new_user_root`,
--     Space `free_user_space` and `clone_user_space`, Kernel `kernel_page_table`. Tree says which
--     frames are tables of a root.
--   Mem/Uaccess, Mem/Uaccess/: kernel/mem/uaccess.rs, the copies between the kernel and a process.
--     Window says when the pages of a process are frames of their own, Space where such
--     windows come from.
--   Mem/Kalloc, Mem/Kalloc/: kernel/mem/kalloc.rs, the free list of the heap.
--   Net/Wire, Ethernet, Arp, Checksum, Ipv4, Icmp, Udp: the frame formats of kernel/net, `build` and
--     `parse` of each file; bytes are numbers below 256.
--   Net/Socket, Net/Socket/: kernel/net/socket.rs, the table of UDP sockets.
--   Net/Iface, Net/Iface/: kernel/net/mod.rs, the frame handler and the senders. A frame to send is a
--     result; what the driver does with it is not modelled.
--   Uart, Uart/: kernel/uart.rs, the receive ring and the interrupt loop.
--   Sched, Sched/: kernel/sched, the process table. RoundRobin has round_robin.rs and the state
--     changes of mod.rs, Lifecycle and Ending have process.rs, Console its part for the console,
--     and Files the descriptor table of kernel/syscall/posix.rs.
--     Listing has the text of `ps`.
--   Nce, Nce/: kernel/nce, the accelerator slots, their power states and the affinity mask; Describe
--     has the text of a slot.
--   Minix3, Minix3/: kernel/fs/minix3.rs, files, directories and paths; Zones has the
--     zones of a file as the on-disk format lists them. The block device is a function from the
--     number of a block to its bytes, and `none` where the driver fails.
--   Vfs: kernel/fs/mod.rs and kernel/fs/ramfs.rs, the mounted root and where programs come from.
--   Syscall, Syscall/: kernel/syscall, the dispatch table and the calls of posix.rs. State has the
--     record `Kernel` of what the calls act on; Console, Pages, Files, Devices, Sockets and Info have
--     the calls, with the arguments that they take from the registers of the trap frame; Output has
--     the lemmas on sys_write, MmapLoop and Mmap those on sys_mmap.
--   Trap, Trap/: kernel/trap/mod.rs, the dispatch of traps and of external interrupts.
--   Shell, Shell/: userspace/shell/src/main.rs, the paths that the shell resolves and its line editor.
--   The files Tests of each part hold runs at concrete inputs.
--
-- How the parts meet: the interface hands UDP payloads to the socket table; sys_close frees sockets
-- of the same table; a sleeping console reader is woken with the bytes of the receive ring; the page
-- tables and the heap take frames of the one allocator; a system call reaches the memory of its
-- process through the user copies, and the state of every other part through `Kernel`.
--
-- Bounds: machine words are natural numbers, and where the code wraps the model has `% 2 ^ w` written
-- out. Process ids are not bounded. The loops over tables are recursions on the table; the search for
-- an ephemeral port has 16383 rounds, and the 32 sockets can occupy at most 32 ports; three rounds
-- fold the carries of a checksum; `read_at` has as many rounds as bytes to read, and each round reads
-- at least one, and so for the loops of the user copies and of sys_write; the busy wait of
-- sys_recvfrom has its 4000 rounds, and what the driver has in each of them is an argument. The memory
-- is a function from the number of a word to its value: an address is divided by 8. `none` is a panic
-- where an operation can panic. The end of a heap block is not wrapped,
-- since the blocks of a heap in order lie in RAM.
--
-- The process table keeps the calls that it makes of the memory as effects, and takes their answers as
-- arguments.
--
-- Not modelled: the ELF loader, the virtio drivers, the device registers, the entry code of traps and
-- the start of the machine, the user programs but for that part of the shell, and their library. Of the system calls, sys_exit,
-- sys_fork, sys_execve and sys_wait4 have no definition of their own: they hand their registers to the
-- operations of Sched.
pub mod Prelude
pub mod Mem
pub mod Net
pub mod Uart
pub mod Sched
pub mod Nce
pub mod Minix3
pub mod Trap
pub mod Vfs
pub mod Syscall
pub mod Shell
