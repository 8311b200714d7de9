-- ===== src/Syscall/State.antt =====
-- What the system calls of kernel/syscall/posix.rs act on, and what they give back.
use light_os_orion_risc_v.Prelude.{
  ℕ, zero, suc, ◌+◌, ◌*◌, ◌/◌, ◌%◌, ◌≡◌, ap, ◌∙◌, Option, none, some, List, [], ◌∷◌, set, slot,
  get_or,
}
use light_os_orion_risc_v.Mem.Memory.{Memory}
use light_os_orion_risc_v.Mem.Uaccess.{
  put, put_fails, put_panics, got, got_fails, got_panics, copy_out, copy_in,
}
use light_os_orion_risc_v.Net.Iface.{NetState}
use light_os_orion_risc_v.Nce.{Nce, Doorbell}
use light_os_orion_risc_v.Uart.{RxRing}
use light_os_orion_risc_v.Minix3.{Disk, MinixFs}
use light_os_orion_risc_v.Sched.{Process, System, with_slots}

-- The statics of the kernel that the calls reach, with the bytes that went to the console,
-- the doorbells of the accelerators and the frames that went to the network.
pub record Kernel : Type 0 where
  pub system : System
  pub memory : Memory
  pub net : NetState
  pub nces : List Nce
  pub rx : RxRing
  pub disk : Disk
  pub root_fs : Option MinixFs
  pub ticks : ℕ
  pub console : List ℕ
  pub doorbells : List Doorbell
  pub wire : List (List ℕ)

-- An `isize`: a number from 0 on, or a negative one by its absolute value.
pub data Answer : Type 0 where
  value : ℕ → Answer
  minus : ℕ → Answer

-- A call returns, or leaves the process asleep, or panics.
pub data Call : Type 0 where
  returns : Answer → Kernel → Call
  blocks : Kernel → Call
  panic : Call

abbrev pub ebadf : Answer
ebadf = minus 9

abbrev pub enomem : Answer
enomem = minus 12

abbrev pub efault : Answer
efault = minus 14

abbrev pub einval : Answer
einval = minus 22

abbrev pub enoent : Answer
enoent = minus 2

abbrev pub enotdir : Answer
enotdir = minus 20

abbrev pub eisdir : Answer
eisdir = minus 21

abbrev pub erofs : Answer
erofs = minus 30

abbrev pub eio : Answer
eio = minus 5

abbrev pub esrch : Answer
esrch = minus 3

abbrev pub eaddrinuse : Answer
eaddrinuse = minus 98

abbrev pub enetunreach : Answer
enetunreach = minus 101

abbrev pub eagain : Answer
eagain = minus 11

abbrev pub emsgsize : Answer
emsgsize = minus 90

-- The slot and the process that runs; a call without one panics.
abbrev pub with_current : Kernel → (ℕ → Process → Call) → Call
with_current k body = elim k.system.current [
  | none ↦ panic
  | some cur ↦ elim (slot k.system.procs.slots cur) [ none ↦ panic | some p ↦ body cur p ]
]

pub with_current_lem :
    (k : Kernel) (cur : ℕ) (p : Process) (body : ℕ → Process → Call)
    → k.system.current ≡ some cur
    → slot k.system.procs.slots cur ≡ some p
    → with_current k body ≡ body cur p
with_current_lem k cur p body running there =
    ap
      (λ c. elim c [
        | none ↦ panic
        | some i ↦ elim (slot k.system.procs.slots i) [ none ↦ panic | some q ↦ body i q ]
      ])
      running
    ∙ ap (λ o. elim o [ none ↦ panic | some q ↦ body cur q ]) there

abbrev pub set_process : Kernel → ℕ → Process → Kernel
set_process k cur p = record k {
  system = with_slots k.system (set k.system.procs.slots cur (some p));
}

-- `uaccess::copy_in` and `copy_out` on the address space of the process; a failure is EFAULT.
abbrev pub from_user : Kernel → ℕ → ℕ → ℕ → (List ℕ → Call) → Call
from_user k root uva len body = elim (copy_in k.memory root uva len) [
  | got bytes ↦ body bytes
  | got_fails e ↦ returns efault k
  | got_panics ↦ panic
]

abbrev pub to_user : Kernel → ℕ → ℕ → List ℕ → (Kernel → Call) → Call
to_user k root uva bytes body = elim (copy_out k.memory root uva bytes) [
  | put m ↦ body (record k { memory = m })
  | put_fails e m ↦ returns efault (record k { memory = m })
  | put_panics ↦ panic
]

-- `to_le_bytes` of a word with this many bytes, and `from_le_bytes`.
unfoldable pub le_bytes : ℕ → ℕ → List ℕ
le_bytes zero n = []
le_bytes (suc k) n = n % 256 ∷ le_bytes k (n / 256)

unfoldable pub from_le : List ℕ → ℕ
from_le [] = 0
from_le (b ∷ r) = b + 256 * from_le r

-- `u16::from_be_bytes` of the bytes at an offset.
abbrev pub be16 : List ℕ → ℕ → ℕ
be16 b off = get_or b off 0 * 256 + get_or b (off + 1) 0
