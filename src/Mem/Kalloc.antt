-- ===== src/Mem/Kalloc.antt =====
-- kernel/mem/kalloc.rs: the kernel heap, an address-ordered first-fit free list with coalescing.
-- The blocks that are linked through their headers are a list, each with its address and size, in
-- the order of the links; the headers stand in free memory, whose other bytes nobody reads. The
-- lock around the list makes each operation one step.
pub mod Blocks
pub mod Insert
pub mod Take
pub mod Canonical
pub mod Owned
pub mod Calls
mod Tests
use Prim.Native.Nat.{bit_and}
use light_os_orion_risc_v.Prelude.{
  ℕ, zero, suc, ◌+◌, ◌-◌, ◌*◌, ◌/◌, ◌%◌, Option, none, some, List, [], ◌∷◌, ◌++◌, ltb, leb, ◌==◌,
  if◌then◌else◌, max,
}
use light_os_orion_risc_v.Prelude.Bits.{complement}
use light_os_orion_risc_v.Mem.Layout.{page_size, usize_mod}
use light_os_orion_risc_v.Mem.Memory.{Memory, page_alloc}

abbrev pub min_block : ℕ
min_block = 16

abbrev pub initial_heap_pages : ℕ
initial_heap_pages = 1024

pub record Block : Type 0 where
  pub addr : ℕ
  pub size : ℕ

abbrev pub block : ℕ → ℕ → Block
block addr size = record { addr = addr; size = size }

-- `x & !(align - 1)` of a `usize`
pub align_down : ℕ → ℕ → ℕ
align_down x align = bit_and (x % usize_mod) (complement 64 (align - 1))

pub block_size : ℕ → ℕ
block_size size = max min_block (align_down (size + min_block - 1) min_block)

-- The new block before the blocks of `cur` on, merged with the first of them if it ends there.
pub merge_forward : ℕ → ℕ → List Block → List Block
merge_forward addr size [] = block addr size ∷ []
merge_forward addr size (cur ∷ next) =
    if addr + size == cur.addr
    then block addr (size + cur.size) ∷ next
    else block addr size ∷ cur ∷ next

-- The blocks from the new one on after `prev`, merged with it if it ends at the new one.
pub merge_backward : Block → List Block → List Block
merge_backward prev [] = prev ∷ []
merge_backward prev (new ∷ next) =
    if prev.addr + prev.size == new.addr
    then block prev.addr (prev.size + new.size) ∷ next
    else prev ∷ new ∷ next

-- The loop of `insert`, at `cur` with the block before it.
pub insert_after : Block → List Block → ℕ → ℕ → List Block
insert_after prev [] addr size = merge_backward prev (merge_forward addr size [])
insert_after prev (cur ∷ next) addr size =
    let further = insert_after cur next addr size in
    if ltb cur.addr addr
    then prev ∷ further
    else merge_backward prev (merge_forward addr size (cur ∷ next))

pub insert : List Block → ℕ → ℕ → List Block
insert [] addr size = merge_forward addr size []
insert (cur ∷ next) addr size =
    if ltb cur.addr addr
    then insert_after cur next addr size
    else merge_forward addr size (cur ∷ next)

-- Where a block of this alignment starts at or above an address.
pub align_up : ℕ → ℕ → ℕ
align_up start align = align_down (start + align - 1) align

-- The loop of `take`: the first block that fits, and the list without it.
pub first_fit : List Block → ℕ → ℕ → Option (Block × List Block)
first_fit [] size align = none
first_fit (cur ∷ next) size align =
    let further = first_fit next size align in
    if leb (align_up cur.addr align - cur.addr + size) cur.size
    then some (cur, next)
    else elim further [ none ↦ none | some (found, rest) ↦ some (found, cur ∷ rest) ]

pub insert_some : List Block → ℕ → ℕ → List Block
insert_some l addr zero = l
insert_some l addr (suc size) = insert l addr (suc size)

-- `None` is the null pointer.
pub take_block : List Block → ℕ → ℕ → Option (ℕ × List Block)
take_block l size align = elim (first_fit l size align) [
  | none ↦ none
  | some (cur, rest) ↦
      let aligned = align_up cur.addr align in
      let pad = aligned - cur.addr in
      let padded = insert_some rest cur.addr pad in
      some (aligned, insert_some padded (aligned + size) (cur.size - pad - size))
]

-- The static free list, with the frames it grows from.
pub record Heap : Type 0 where
  pub free : List Block
  pub memory : Memory

pub grow_pages : ℕ → ℕ → ℕ
grow_pages size align = max ((size + align) / page_size + 1) 16

-- `alloc` of a layout; `none` is the null pointer.
pub heap_alloc : Heap → ℕ → ℕ → Option ℕ × Heap
heap_alloc h layout_size layout_align =
    let size = block_size layout_size in
    let align = max layout_align min_block in
    elim (take_block h.free size align) [
      | some (p, rest) ↦ (some p, record h { free = rest })
      | none ↦ elim (page_alloc h.memory (grow_pages size align)) [
        | none ↦ (none, h)
        | some (mem, memory') ↦
            let grown = insert h.free mem (grow_pages size align * page_size) in
            elim (take_block grown size align) [
              | none ↦ (none, record { free = grown; memory = memory' })
              | some (p, rest) ↦ (some p, record { free = rest; memory = memory' })
            ]
      ]
    ]

pub heap_dealloc : Heap → ℕ → ℕ → Heap
heap_dealloc h ptr layout_size = record h { free = insert h.free ptr (block_size layout_size) }

-- `none` is the panic without enough memory.
pub heap_init : Heap → Option Heap
heap_init h = elim (page_alloc h.memory initial_heap_pages) [
  | none ↦ none
  | some (mem, memory') ↦
      some (record { free = insert h.free mem (initial_heap_pages * page_size); memory = memory' })
]
