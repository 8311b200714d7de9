-- ===== src/Mem/Layout.antt =====
-- kernel/mem/layout.rs: the memory map of the machine, and rounding to page boundaries.
use Prim.Native.Nat.{bit_and}
use light_os_orion_risc_v.Prelude.{ℕ, ◌+◌, ◌-◌, ◌*◌, ◌/◌, ◌%◌, ◌^◌, ◌≤◌, ◌<◌, ◌≡◌, arith}
use light_os_orion_risc_v.Prelude.Bits.{complement, bit_and-complement}

abbrev pub page_size : ℕ
page_size = 4096

abbrev pub ram_start : ℕ
ram_start = 0x8000_0000

abbrev pub ram_size : ℕ
ram_size = 128 * 1024 * 1024

abbrev pub ram_end : ℕ
ram_end = ram_start + ram_size

abbrev pub test_base : ℕ
test_base = 0x0010_0000

abbrev pub test_size : ℕ
test_size = page_size

abbrev pub uart0_base : ℕ
uart0_base = 0x1000_0000

abbrev pub uart0_size : ℕ
uart0_size = page_size

abbrev pub virtio_base : ℕ
virtio_base = 0x1000_1000

abbrev pub virtio_size : ℕ
virtio_size = 8 * page_size

abbrev pub clint_base : ℕ
clint_base = 0x0200_0000

abbrev pub clint_size : ℕ
clint_size = 0x1_0000

abbrev pub plic_base : ℕ
plic_base = 0x0c00_0000

abbrev pub plic_size : ℕ
plic_size = 0x40_0000

-- `usize` arithmetic wraps.
abbrev pub usize_mod : ℕ
usize_mod = 2 ^ 64

unfoldable pub page_down : ℕ → ℕ
page_down addr = bit_and addr (complement 64 (page_size - 1))

unfoldable pub page_up : ℕ → ℕ
page_up addr = bit_and ((addr + page_size - 1) % usize_mod) (complement 64 (page_size - 1))

pub page_down_lem : (addr : ℕ) → addr < usize_mod → page_down addr ≡ addr / 4096 * 4096
unfolding page_down
page_down_lem addr h = omega (arith, bit_and-complement 12 64 addr (omega arith) h)

pub page_up_lem : (addr : ℕ) → addr + 4095 < usize_mod → page_up addr ≡ (addr + 4095) / 4096 * 4096
unfolding page_up
page_up_lem addr h = omega (
  arith,
  bit_and-complement 12 64 ((addr + page_size - 1) % usize_mod) (omega arith) (omega arith),
)

-- The two roundings are the page boundaries next to an address: aligned, on either side of it, and
-- less than a page away, equal to it when it is aligned.
pub page_rounding :
    (addr : ℕ)
    → addr + 4095 < usize_mod
    → (page_down addr % page_size ≡ 0)
      × (page_up addr % page_size ≡ 0)
      × (page_down addr ≤ addr)
      × (addr < page_down addr + page_size)
      × (addr ≤ page_up addr)
      × (page_up addr < addr + page_size)
page_rounding addr h = omega (arith, page_down_lem addr (omega arith), page_up_lem addr h)
