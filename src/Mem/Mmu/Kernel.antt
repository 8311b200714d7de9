-- ===== src/Mem/Mmu/Kernel.antt =====
-- kernel/mem/mmu.rs: the kernel's own address space, an identity map of the image, RAM and devices.
use light_os_orion_risc_v.Prelude.{ℕ, ◌+◌, Option, none, some, List, [], ◌∷◌}
use light_os_orion_risc_v.Mem.Layout.{
  ram_end, uart0_base, uart0_size, virtio_base, virtio_size, clint_base, clint_size, plic_base,
  plic_size, test_base, test_size,
}
use light_os_orion_risc_v.Mem.Memory.{Memory, page_alloc}
use light_os_orion_risc_v.Mem.Mmu.{
  Outcome, done, failed, panics, pte_r, pte_w, pte_x, map_range, satp,
}

-- The addresses that the linker provides.
pub record Sections : Type 0 where
  pub text_start : ℕ
  pub text_end : ℕ
  pub rodata_start : ℕ
  pub rodata_end : ℕ
  pub data_start : ℕ

pub record Range : Type 0 where
  pub start : ℕ
  pub stop : ℕ
  pub flags : ℕ

abbrev pub range : ℕ → ℕ → ℕ → Range
range start stop flags = record { start = start; stop = stop; flags = flags }

-- The calls of `map_range` in their order.
unfoldable pub kernel_ranges : Sections → List Range
kernel_ranges s =
    range s.text_start s.text_end (pte_r + pte_x)
    ∷ range s.rodata_start s.rodata_end pte_r
    ∷ range s.data_start ram_end (pte_r + pte_w)
    ∷ range uart0_base (uart0_base + uart0_size) (pte_r + pte_w)
    ∷ range virtio_base (virtio_base + virtio_size) (pte_r + pte_w)
    ∷ range clint_base (clint_base + clint_size) (pte_r + pte_w)
    ∷ range plic_base (plic_base + plic_size) (pte_r + pte_w)
    ∷ range test_base (test_base + test_size) (pte_r + pte_w)
    ∷ []

-- `none` is a failed `expect`.
abbrev pub expect_done : Outcome → Option Memory
expect_done (done m) = some m
expect_done (failed e m) = none
expect_done panics = none

unfoldable pub map_ranges : List Range → Memory → ℕ → Option Memory
map_ranges [] m root = some m
map_ranges (r ∷ rest) m root = elim (expect_done (map_range m root r.start r.stop r.flags)) [
  | none ↦ none
  | some m' ↦ map_ranges rest m' root
]

unfoldable pub kernel_page_table : Sections → Memory → Option (ℕ × Memory)
kernel_page_table s m = elim (page_alloc m 1) [
  | none ↦ none
  | some (root, m') ↦ elim (map_ranges (kernel_ranges s) m' root) [
    | none ↦ none
    | some m'' ↦ some (root, m'')
  ]
]

-- `enable`: the address that `KERNEL_ROOT_PA` keeps, and what goes to `satp`.
pub enable : ℕ → ℕ × ℕ
enable root = (root, satp root)
