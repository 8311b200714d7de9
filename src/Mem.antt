-- ===== src/Mem.antt =====
-- kernel/mem: physical page frames, page tables and the copies to user memory.
pub mod Layout
pub mod Page
pub mod Memory
pub mod Mmu
pub mod Uaccess
pub mod Kalloc
