-- ===== src/Syscall/Mmap.antt =====
-- `sys_mmap` (kernel/syscall/posix.rs) on the address space of the process.
use light_os_orion_risc_v.Prelude.{
  ℕ, ◌+◌, ◌*◌, ◌%◌, ◌^◌, ◌≤◌, ◌≡◌, ◌≢◌, refl, sym, ap, ◌∙◌, some, arith, ℕ_discrete, slot,
  slot-set_self, slot-lt, ne→==,
}
use light_os_orion_risc_v.Mem.Layout.{page_size, usize_mod}
use light_os_orion_risc_v.Mem.Memory.{Memory}
use light_os_orion_risc_v.Mem.Mmu.{Outcome, done, failed, panics}
use light_os_orion_risc_v.Mem.Mmu.Tree.{Owner, IsTree}
use light_os_orion_risc_v.Mem.Uaccess.Space.{Space}
use light_os_orion_risc_v.Sched.{Process}
use light_os_orion_risc_v.Syscall.State.{
  Kernel, value, Call, returns, panic, with_current_lem, set_process, einval, enomem,
}
use light_os_orion_risc_v.Syscall.Pages.{page_count, map_new, sys_mmap}
use light_os_orion_risc_v.Syscall.MmapLoop.{NewPages, map_new-NewPages, map_new-Space}

-- The kernel after a mapping that left this memory.
abbrev mmapped : Kernel → ℕ → Process → ℕ → Memory → Kernel
mmapped k cur p len m =
    record (set_process k cur
      (record p { next_mmap = (p.next_mmap + page_count len * page_size) % usize_mod })) {
        memory = m;
      }

-- The answer of `sys_mmap` to what the loop gives.
abbrev mmap_answer : Kernel → ℕ → Process → ℕ → Outcome → Call
mmap_answer k cur p len r = elim r [
  | done m ↦ returns (value p.next_mmap) (mmapped k cur p len m)
  | failed e m ↦ returns enomem (mmapped k cur p len m)
  | panics ↦ panic
]

sys_mmap-answer :
    (k : Kernel) (cur len : ℕ) (p : Process)
    → len ≢ 0
    → k.system.current ≡ some cur
    → slot k.system.procs.slots cur ≡ some p
    → sys_mmap k len
      ≡ mmap_answer k cur p len (map_new (page_count len) k.memory p.root_pa p.next_mmap)
unfolding sys_mmap
sys_mmap-answer k cur len p ne running there =
    let body : ℕ → Process → Call =
      (λ c q. mmap_answer k c q len (map_new (page_count len) k.memory q.root_pa q.next_mmap)) in
    rw (ne→== len 0 ne, sys_mmap) (with_current_lem k cur p body running there)

sys_mmap-zero : (k : Kernel) (len : ℕ) → len ≡ 0 → sys_mmap k len ≡ returns einval k
unfolding sys_mmap
sys_mmap-zero k len e = rw e refl

-- What the process and its memory are after a mapping of a number of pages.
pub record Mmapped (k k' : Kernel) (cur : ℕ) (p : Process) (va pages : ℕ) : Type 0 where
  pub start : va ≡ p.next_mmap
  pub pages_new : NewPages k.memory k'.memory p.root_pa va pages
  pub process : slot k'.system.procs.slots cur ≡ some (record p { next_mmap = va + pages * 4096 })

mmap_answer-Mmapped :
    (k k' : Kernel) (cur len va : ℕ) (p : Process) (owner : Owner) (r : Outcome)
    → slot k.system.procs.slots cur ≡ some p
    → IsTree k.memory p.root_pa owner
    → p.next_mmap % 4096 ≡ 0
    → p.next_mmap + page_count len * 4096 ≤ 2 ^ 39
    → map_new (page_count len) k.memory p.root_pa p.next_mmap ≡ r
    → mmap_answer k cur p len r ≡ returns (value va) k'
    → Mmapped k k' cur p va (page_count len)
mmap_answer-Mmapped k k' cur len va p owner (done m) there tree al fit made e =
    let pages : ℕ = page_count len in
    let next : (p.next_mmap + pages * page_size) % usize_mod ≡ p.next_mmap + pages * 4096 =
      omega (arith, fit) in
    let ret : returns (value p.next_mmap) (mmapped k cur p len m) ≡ returns (value va) k' = e in
    let start : va ≡ p.next_mmap = cc in
    let after : mmapped k cur p len m ≡ k' = cc in
    rw (← after, start)
      (record {
        start = refl;
        pages_new = map_new-NewPages pages k.memory m p.root_pa owner p.next_mmap tree al fit made;
        process =
            slot-set_self k.system.procs.slots cur
              (some (record p { next_mmap = (p.next_mmap + pages * page_size) % usize_mod }))
              (slot-lt k.system.procs.slots cur p there)
            ∙ ap (λ v. some (record p { next_mmap = v })) next;
      })
mmap_answer-Mmapped k k' cur len va p owner (failed f m) there tree al fit made e = absurd cc
mmap_answer-Mmapped k k' cur len va p owner panics there tree al fit made e = absurd cc

mmap_answer-Space :
    (k k' : Kernel) (cur len va : ℕ) (p : Process) (owner : Owner) (r : Outcome)
    → Space k.memory p.root_pa owner
    → map_new (page_count len) k.memory p.root_pa p.next_mmap ≡ r
    → mmap_answer k cur p len r ≡ returns (value va) k'
    → (owner' : Owner) × Space k'.memory p.root_pa owner'
mmap_answer-Space k k' cur len va p owner (done m) s made e =
    let ret : returns (value p.next_mmap) (mmapped k cur p len m) ≡ returns (value va) k' = e in
    let after : mmapped k cur p len m ≡ k' = cc in
    rw (← after) (map_new-Space (page_count len) k.memory m p.root_pa owner p.next_mmap s made)
mmap_answer-Space k k' cur len va p owner (failed f m) s made e = absurd cc
mmap_answer-Space k k' cur len va p owner panics s made e = absurd cc

-- If a process runs, its tables are a tree, its next address is a page boundary, and the pages of
-- the length end at 2^39 at most: a `sys_mmap` that gives an address gives the next address of the
-- process. The pages of the length from there on were not mapped and now are, each address of them
-- at its place in a page; every other address below 2^39 leads where it led; the tables are a
-- tree; and the next mapping starts behind them.
pub sys_mmap-Mmapped :
    (k k' : Kernel) (cur len va : ℕ) (p : Process) (owner : Owner)
    → k.system.current ≡ some cur
    → slot k.system.procs.slots cur ≡ some p
    → IsTree k.memory p.root_pa owner
    → p.next_mmap % 4096 ≡ 0
    → p.next_mmap + page_count len * 4096 ≤ 2 ^ 39
    → sys_mmap k len ≡ returns (value va) k'
    → Mmapped k k' cur p va (page_count len)
sys_mmap-Mmapped k k' cur len va p owner running there tree al fit e = elim (ℕ_discrete len 0) [
  | yes zero_length ↦ let refused = sys_mmap-zero k len zero_length in absurd cc
  | no ne ↦
      mmap_answer-Mmapped k k' cur len va p owner
        (map_new (page_count len) k.memory p.root_pa p.next_mmap) there tree al fit refl
        (sym (sys_mmap-answer k cur len p ne running there) ∙ e)
]

-- A `sys_mmap` that gives an address leaves the process a window in which every mapped page has a
-- frame of its own and no frame is a table, if it had one.
pub sys_mmap-Space :
    (k k' : Kernel) (cur len va : ℕ) (p : Process) (owner : Owner)
    → k.system.current ≡ some cur
    → slot k.system.procs.slots cur ≡ some p
    → Space k.memory p.root_pa owner
    → sys_mmap k len ≡ returns (value va) k'
    → (owner' : Owner) × Space k'.memory p.root_pa owner'
sys_mmap-Space k k' cur len va p owner running there s e = elim (ℕ_discrete len 0) [
  | yes zero_length ↦ let refused = sys_mmap-zero k len zero_length in absurd cc
  | no ne ↦
      mmap_answer-Space k k' cur len va p owner
        (map_new (page_count len) k.memory p.root_pa p.next_mmap) s refl
        (sym (sys_mmap-answer k cur len p ne running there) ∙ e)
]
