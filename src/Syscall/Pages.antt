-- ===== src/Syscall/Pages.antt =====
-- kernel/syscall/posix.rs: `sys_mmap` and `sys_munmap`.
use light_os_orion_risc_v.Prelude.{
  ℕ, zero, suc, ◌+◌, ◌-◌, ◌*◌, ◌/◌, ◌%◌, Option, none, some, ◌||◌, not, ◌==◌, if◌then◌else◌,
}
use light_os_orion_risc_v.Mem.Layout.{page_size, usize_mod}
use light_os_orion_risc_v.Mem.Memory.{Memory, page_alloc, page_free}
use light_os_orion_risc_v.Mem.Mmu
use light_os_orion_risc_v.Mem.Mmu.{
  Outcome, done, failed, panics, and_then, Fault, out_of_memory, found, missing, superpage, pte_u,
  pte_r, pte_w, unmap,
}
use light_os_orion_risc_v.Syscall.State.{
  Kernel, value, Call, returns, panic, with_current, set_process, einval, enomem,
}

-- `len.div_ceil(PAGE_SIZE)`
abbrev pub page_count : ℕ → ℕ
page_count len = (len + (page_size - 1)) / page_size

-- The loop of `sys_mmap`, with `left` pages to go from `va`.
unfoldable pub map_new : ℕ → Memory → ℕ → ℕ → Outcome
map_new zero m root va = done m
map_new (suc left) m root va = elim (page_alloc m 1) [
  | none ↦ failed out_of_memory m
  | some (frame, m') ↦
      and_then (Mmu.map m' root va frame (pte_u + pte_r + pte_w))
        (λ m''. map_new left m'' root ((va + page_size) % usize_mod))
]

unfoldable pub sys_mmap : Kernel → ℕ → Call
sys_mmap k len =
    if len == 0
    then returns einval k
    else with_current k (λ cur p.
      let va = p.next_mmap in
      let k' =
        set_process k cur
          (record p { next_mmap = (va + page_count len * page_size) % usize_mod }) in
      elim (map_new (page_count len) k.memory p.root_pa va) [
        | done m ↦ returns (value va) (record k' { memory = m })
        | failed e m ↦ returns enomem (record k' { memory = m })
        | panics ↦ panic
      ])

-- The loop of `sys_munmap`; `none` is a panic.
unfoldable pub unmap_pages : ℕ → Memory → ℕ → ℕ → Option Memory
unmap_pages zero m root va = some m
unmap_pages (suc left) m root va = elim (unmap m root va) [
  | superpage ↦ none
  | missing m' ↦ unmap_pages left m' root ((va + page_size) % usize_mod)
  | found pa m' ↦ elim (page_free m' pa 1) [
    | none ↦ none
    | some m'' ↦ unmap_pages left m'' root ((va + page_size) % usize_mod)
  ]
]

unfoldable pub sys_munmap : Kernel → ℕ → ℕ → Call
sys_munmap k va len =
    if not (va % page_size == 0) || len == 0
    then returns einval k
    else with_current k (λ cur p. elim (unmap_pages (page_count len) k.memory p.root_pa va) [
      | none ↦ panic
      | some m ↦ returns (value 0) (record k { memory = m })
    ])
