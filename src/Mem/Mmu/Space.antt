-- ===== src/Mem/Mmu/Space.antt =====
-- kernel/mem/mmu.rs: what `fork` and `exit` do with the user slot of a root, a copy of every mapped
-- page and the release of all pages and tables.
use Prim.Native.Nat.{bit_and, bit_or}
use light_os_orion_risc_v.Prelude.{
  ℕ, zero, suc, ◌+◌, ◌*◌, ◌^◌, not, Option, none, some, if◌then◌else◌,
}
use light_os_orion_risc_v.Mem.Memory.{
  Memory, read_word, write_word, copy_page, page_alloc, page_free,
}
use light_os_orion_risc_v.Mem.Mmu.{
  user_root_slot, pte_r, pte_w, pte_x, pte_u, entry, valid, pte_pa, Outcome, done, failed, and_then,
  out_of_memory, map,
}

-- `none` is the panic of an index outside the bitmap, in all of these.
abbrev then_free : Option Memory → (Memory → Option Memory) → Option Memory
then_free none rest = none
then_free (some m) rest = rest m

-- `for e0 in l0.entries`, with `left` entries to go from `i`.
pub free_pages : ℕ → ℕ → Memory → ℕ → Option Memory
free_pages zero i m l0 = some m
free_pages (suc left) i m l0 =
    let e0 = read_word m.words (entry l0 i) in
    then_free (if valid e0 then page_free m (pte_pa e0) 1 else some m)
      (λ m'. free_pages left (i + 1) m' l0)

-- `for e1 in l1.entries`
pub free_tables : ℕ → ℕ → Memory → ℕ → Option Memory
free_tables zero i m l1 = some m
free_tables (suc left) i m l1 =
    let e1 = read_word m.words (entry l1 i) in
    then_free
      (if valid e1
        then then_free (free_pages 512 0 m (pte_pa e1)) (λ m'. page_free m' (pte_pa e1) 1)
        else some m)
      (λ m'. free_tables left (i + 1) m' l1)

pub free_user_space : Memory → ℕ → Option Memory
free_user_space m root =
    let root_entry = read_word m.words (entry root user_root_slot) in
    if not (valid root_entry)
    then some m
    else then_free (free_tables 512 0 m (pte_pa root_entry)) (λ m'.
      then_free (page_free m' (pte_pa root_entry) 1)
        (λ m''. some (record m'' { words = write_word m''.words (entry root user_root_slot) 0 })))

-- One page of the copy: a new frame with the same bytes, mapped with the same permissions.
pub clone_page : Memory → ℕ → ℕ → ℕ → ℕ → Outcome
clone_page m e0 i1 i0 dst =
    let va = bit_or (bit_or (user_root_slot * 2 ^ 30) (i1 * 2 ^ 21)) (i0 * 2 ^ 12) in
    let flags = bit_and e0 (pte_r + pte_w + pte_x + pte_u) in
    elim (page_alloc m 1) [
      | none ↦ failed out_of_memory m
      | some (frame, m') ↦
          map (record m' { words = copy_page m'.words (pte_pa e0) frame }) dst va frame flags
    ]

pub clone_pages : ℕ → ℕ → Memory → ℕ → ℕ → ℕ → Outcome
clone_pages zero i0 m l0 i1 dst = done m
clone_pages (suc left) i0 m l0 i1 dst =
    let e0 = read_word m.words (entry l0 i0) in
    and_then (if valid e0 then clone_page m e0 i1 i0 dst else done m)
      (λ m'. clone_pages left (i0 + 1) m' l0 i1 dst)

pub clone_tables : ℕ → ℕ → Memory → ℕ → ℕ → Outcome
clone_tables zero i1 m l1 dst = done m
clone_tables (suc left) i1 m l1 dst =
    let e1 = read_word m.words (entry l1 i1) in
    and_then (if valid e1 then clone_pages 512 0 m (pte_pa e1) i1 dst else done m)
      (λ m'. clone_tables left (i1 + 1) m' l1 dst)

pub clone_user_space : Memory → ℕ → ℕ → Outcome
clone_user_space m src dst =
    let root_entry = read_word m.words (entry src user_root_slot) in
    if not (valid root_entry) then done m else clone_tables 512 0 m (pte_pa root_entry) dst
