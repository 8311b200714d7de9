-- ===== src/Mem/Mmu.antt =====
-- kernel/mem/mmu.rs: Sv39 page tables. A table is a page of 512 words, named by its physical
-- address; a reference to one is that address, so the tables of a process that share kernel
-- subtrees share them here too. The address of the kernel's root table, a static that boot sets
-- once, is an argument.
-- `debug_assert!` is compiled out, as in the release build that the image is made from.
pub mod Pte
pub mod Tree
pub mod Grow
pub mod Descend
pub mod Store
pub mod Translate
pub mod Mapping
pub mod Unmapping
pub mod Range
pub mod Roots
pub mod Data
pub mod Process
pub mod Space
pub mod Kernel
pub mod KernelMap
pub mod Tests
use Prim.Native.Nat.{bit_and, bit_or}
use light_os_orion_risc_v.Prelude.{
  ℕ, zero, suc, ◌+◌, ◌-◌, ◌*◌, ◌/◌, ◌%◌, ◌^◌, Bool, true, false, not, Option, none, some, arith,
  ltb, ◌==◌, if◌then◌else◌,
}
use light_os_orion_risc_v.Mem.Layout.{page_size, usize_mod, page_down, page_up}
use light_os_orion_risc_v.Mem.Memory.{
  Memory, read_word, write_word, copy_page, page_alloc, page_free,
}

abbrev pub pte_v : ℕ
pte_v = 1

abbrev pub pte_r : ℕ
pte_r = 2

abbrev pub pte_w : ℕ
pte_w = 4

abbrev pub pte_x : ℕ
pte_x = 8

abbrev pub pte_u : ℕ
pte_u = 16

abbrev pub pte_a : ℕ
pte_a = 64

abbrev pub pte_d : ℕ
pte_d = 128

-- The slot of the root table for user mappings.
abbrev pub user_root_slot : ℕ
user_root_slot = 1

-- The addresses of the entries and the tables they point to.
unfoldable pub entry : ℕ → ℕ → ℕ
entry table i = table + 8 * i

unfoldable pub valid : ℕ → Bool
valid pte = not (bit_and pte pte_v == 0)

-- `((pte >> 10) << 12) as usize`
unfoldable pub pte_pa : ℕ → ℕ
pte_pa pte = pte / 2 ^ 10 * 2 ^ 12 % usize_mod

-- `(next.pa() as u64) >> 12 << 10 | PTE_V`
unfoldable pub table_pte : ℕ → ℕ
table_pte pa = bit_or (pa / 2 ^ 12 * 2 ^ 10) pte_v

unfoldable pub leaf_pte : ℕ → ℕ → ℕ
leaf_pte pa flags = bit_or (bit_or (bit_or (bit_or (pa / 2 ^ 12 * 2 ^ 10) flags) pte_a) pte_d) pte_v

unfoldable pub vpn : ℕ → ℕ → ℕ
vpn va level = bit_and (va / 2 ^ (12 + 9 * level)) 0x1ff

-- `satp`: the mode is in the upper four bits, the page number of the root below.
pub satp : ℕ → ℕ
satp pa = bit_or (8 * 2 ^ 60) (pa / 2 ^ 12)

-- What a walk gives back with the memory after it: the address found, `None`, or the panic at a
-- leaf above the last level.
pub data Walk : Type 0 where
  found : ℕ → Memory → Walk
  missing : Memory → Walk
  superpage : Walk

-- One round of the loop of `walk`: from a table to the table below it.
unfoldable pub next_table : Memory → ℕ → ℕ → ℕ → Bool → Walk
next_table m table va level create =
    let at = entry table (vpn va level) in
    let pte = read_word m.words at in
    if not (valid pte)
    then (if create
        then elim (page_alloc m 1) [
          | none ↦ missing m
          | some (next, m') ↦
              found (pte_pa (table_pte next))
                (record m' { words = write_word m'.words at (table_pte next) })
        ]
        else missing m)
    else if not (bit_and pte (pte_r + pte_w + pte_x) == 0)
    then superpage
    else found (pte_pa pte) m

-- The address of the leaf entry, from a table at `level` on.
unfoldable pub walk_from : ℕ → Memory → ℕ → ℕ → Bool → Walk
walk_from zero m table va create = found (entry table (vpn va 0)) m
walk_from (suc level) m table va create = elim (next_table m table va (suc level) create) [
  | found next m' ↦ walk_from level m' next va create
  | missing m' ↦ missing m'
  | superpage ↦ superpage
]

unfoldable pub walk : Memory → ℕ → ℕ → Bool → Walk
walk m root va create = walk_from 2 m root va create

pub data Fault : Type 0 where
  no_table : Fault
  already_mapped : Fault
  out_of_memory : Fault

-- `Result<(), &str>` with the memory after it, or a panic.
pub data Outcome : Type 0 where
  done : Memory → Outcome
  failed : Fault → Memory → Outcome
  panics : Outcome

-- The rest of the function after `r?`.
abbrev pub and_then : Outcome → (Memory → Outcome) → Outcome
and_then (done m) rest = rest m
and_then (failed e m) rest = failed e m
and_then panics rest = panics

unfoldable pub map : Memory → ℕ → ℕ → ℕ → ℕ → Outcome
map m root va pa flags = elim (walk m root va true) [
  | found at m' ↦
      if valid (read_word m'.words at)
      then failed already_mapped m'
      else done (record m' { words = write_word m'.words at (leaf_pte pa flags) })
  | missing m' ↦ failed no_table m'
  | superpage ↦ panics
]

-- The loop of `map_range`, on the number of pages left.
pub map_pages : ℕ → Memory → ℕ → ℕ → ℕ → Outcome
map_pages zero m root va flags = done m
map_pages (suc left) m root va flags =
    and_then (map m root va va flags) (λ m'. map_pages left m' root (va + page_size) flags)

pub map_range : Memory → ℕ → ℕ → ℕ → ℕ → Outcome
map_range m root start stop flags =
    map_pages ((page_up stop - page_down start + (page_size - 1)) / page_size) m root
      (page_down start) flags

pub unmap : Memory → ℕ → ℕ → Walk
unmap m root va = elim (walk m root va false) [
  | found at m' ↦
      let pte = read_word m'.words at in
      if valid pte
      then found (pte_pa pte) (record m' { words = write_word m'.words at 0 })
      else missing m'
  | missing m' ↦ missing m'
  | superpage ↦ superpage
]

unfoldable pub virt_to_phys : Memory → ℕ → ℕ → Walk
virt_to_phys m root va = elim (walk m root va false) [
  | found at m' ↦
      let pte = read_word m'.words at in
      if valid pte then found (pte_pa pte + bit_and va (page_size - 1)) m' else missing m'
  | missing m' ↦ missing m'
  | superpage ↦ superpage
]

-- The loop of `new_user_root`, with `left` entries to go from `i`.
pub share_entry : (ℕ → ℕ) → ℕ → ℕ → ℕ → ℕ → ℕ
share_entry words i kernel root =
    if i == user_root_slot
    then words
    else write_word words (entry root i) (read_word words (entry kernel i))

pub share_entries : ℕ → ℕ → (ℕ → ℕ) → ℕ → ℕ → ℕ → ℕ
share_entries zero i words kernel root = words
share_entries (suc left) i words kernel root =
    share_entries left (i + 1) (share_entry words i kernel root) kernel root

pub new_user_root : Memory → ℕ → Option (ℕ × Memory)
new_user_root m kernel = elim (page_alloc m 1) [
  | none ↦ none
  | some (root, m') ↦ some (root, record m' { words = share_entries 512 0 m'.words kernel root })
]
