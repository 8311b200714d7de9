-- ===== src/Sched.antt =====
-- kernel/sched: the process table and the trap frames. The kernel runs on one hart and is not
-- preempted, so an operation is a function on the whole state; an operation that does not return is
-- followed up to its call of `schedule`. `none` as a result of an operation is a panic of the kernel.
pub mod RoundRobin
pub mod Lifecycle
pub mod Ending
pub mod Console
pub mod Files
pub mod Listing
pub mod Descriptors
pub mod Fair
pub mod Inv
pub mod Running
pub mod Family
pub mod Orphans
pub mod Bury
pub mod Await
pub mod Exit
pub mod Children
pub mod Wait
pub mod Begin
pub mod Reap
pub mod Reach
mod Tests
use light_os_orion_risc_v.Prelude.{
  ℕ, zero, suc, ◌+◌, ◌*◌, ◌%◌, ◌/◌, Bool, true, false, Option, none, some, List, [], ◌∷◌, ◌==◌,
  if◌then◌else◌, length, set, slot, get_elem?, replicate,
}

abbrev pub max_procs : ℕ
max_procs = 64

abbrev pub mmap_base : ℕ
mmap_base = 0x5000_0000

abbrev pub user_stack_top : ℕ
user_stack_top = 0x7fff_f000

pub data ProcState : Type 0 where
  ready running sleep_child sleep_console zombie : ProcState

pub data FdKind : Type 0 where
  file nce socket : ℕ → FdKind

pub record OpenFile : Type 0 where
  pub kind : FdKind
  pub pos : ℕ

-- NO_PROC is `none`. `exit_code` is the 32-bit pattern of the code.
pub record Process : Type 0 where
  pub pid : ℕ
  pub state : ProcState
  pub parent : Option ℕ
  pub root_pa : ℕ
  pub exit_code : ℕ
  pub wait_status_uva : ℕ
  pub read_buf_uva : ℕ
  pub read_len : ℕ
  pub next_mmap : ℕ
  pub brk : ℕ
  pub name : List ℕ
  pub files : List (Option OpenFile)
  pub nce_affinity : ℕ

pub record ProcTable : Type 0 where
  pub slots : List (Option Process)
  pub next_pid : ℕ
  pub last_run : ℕ

pub record TrapFrame : Type 0 where
  pub regs : List ℕ
  pub sepc : ℕ
  pub sstatus : ℕ
  pub kernel_sp : ℕ

-- PROCS, CURRENT and TRAPFRAMES.
pub record System : Type 0 where
  pub procs : ProcTable
  pub current : Option ℕ
  pub frames : List TrapFrame

-- What an operation asks of the memory: the calls of mem::mmu, mem::page and mem::uaccess.
pub data Effect : Type 0 where
  free_user_space : ℕ → Effect
  page_free : ℕ → ℕ → Effect
  copy_out : ℕ → ℕ → List ℕ → Effect

abbrev pub zeroed : TrapFrame
zeroed = record { regs = replicate 32 0; sepc = 0; sstatus = 0; kernel_sp = 0 }

abbrev pub boot : System
boot = record {
  procs = record { slots = replicate max_procs none; next_pid = 1; last_run = 0 };
  current = none;
  frames = replicate max_procs zeroed;
}

-- `state == ProcState::Ready`, and so on.
abbrev pub is_ready : ProcState → Bool
is_ready ready = true
is_ready running = false
is_ready sleep_child = false
is_ready sleep_console = false
is_ready zombie = false

abbrev pub is_running : ProcState → Bool
is_running ready = false
is_running running = true
is_running sleep_child = false
is_running sleep_console = false
is_running zombie = false

abbrev pub is_sleep_child : ProcState → Bool
is_sleep_child ready = false
is_sleep_child running = false
is_sleep_child sleep_child = true
is_sleep_child sleep_console = false
is_sleep_child zombie = false

abbrev pub is_sleep_console : ProcState → Bool
is_sleep_console ready = false
is_sleep_console running = false
is_sleep_console sleep_child = false
is_sleep_console sleep_console = true
is_sleep_console zombie = false

abbrev pub is_zombie : ProcState → Bool
is_zombie ready = false
is_zombie running = false
is_zombie sleep_child = false
is_zombie sleep_console = false
is_zombie zombie = true

-- `p.parent == cur` for a slot `cur`.
abbrev pub is_child : Process → ℕ → Bool
is_child p cur = elim p.parent [ none ↦ false | some parent ↦ parent == cur ]

-- The index of the first process of which the test holds.
unfoldable pub position : (Process → Bool) → List (Option Process) → Option ℕ
position test [] = none
position test (none ∷ r) = elim (position test r) [ none ↦ none | some j ↦ some (j + 1) ]
position test (some p ∷ r) =
    let rest = position test r in
    if test p then some 0 else elim rest [ none ↦ none | some j ↦ some (j + 1) ]

abbrev pub with_slots : System → List (Option Process) → System
with_slots s slots = record s { procs = record s.procs { slots = slots } }

unfoldable pub set_a0 : TrapFrame → ℕ → TrapFrame
set_a0 tf v = record tf { regs = set tf.regs 10 v }

-- `tf_mut(slot).set_a0(v)`
unfoldable pub set_frame_a0 : List TrapFrame → ℕ → ℕ → List TrapFrame
set_frame_a0 frames j v = elim (get_elem? frames j) [
  | none ↦ frames
  | some tf ↦ set frames j (set_a0 tf v)
]

unfoldable pub to_le_bytes : ℕ → List ℕ
to_le_bytes w = w % 256 ∷ w / 256 % 256 ∷ w / 65536 % 256 ∷ w / 16777216 % 256 ∷ []

-- `procs.slots.iter().filter(|s| s.is_some()).count()`
unfoldable pub count_active : List (Option Process) → ℕ
count_active [] = 0
count_active (none ∷ r) = count_active r
count_active (some p ∷ r) = suc (count_active r)
