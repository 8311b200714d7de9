-- ===== src/Syscall/Info.antt =====
-- kernel/syscall/posix.rs: `sys_getpid`, `sys_sysinfo`, `sys_proclist` and `sys_reboot`.
use light_os_orion_risc_v.Prelude.{
  ℕ, ◌*◌, ◌/◌, Bool, none, some, List, ◌++◌, ◌==◌, length, take, min,
}
use light_os_orion_risc_v.Mem.Layout.{page_size, ram_size}
use light_os_orion_risc_v.Sched.{count_active}
use light_os_orion_risc_v.Sched.Listing.{listing}
use light_os_orion_risc_v.Syscall.{current_info}
use light_os_orion_risc_v.Syscall.State.{
  Kernel, value, Call, returns, panic, with_current, to_user, le_bytes,
}

unfoldable pub sys_getpid : Kernel → Call
sys_getpid k = elim (current_info k.system) [
  | none ↦ panic
  | some (root, pid) ↦ returns (value pid) k
]

-- uptime_secs, total_ram, free_ram and procs.
unfoldable pub sysinfo_record : Kernel → List ℕ
sysinfo_record k =
    le_bytes 8 (k.ticks / 100)
    ++ le_bytes 8 ram_size
    ++ le_bytes 8 (k.memory.frames.free_frames * page_size)
    ++ le_bytes 8 (count_active k.system.procs.slots)

unfoldable pub sys_sysinfo : Kernel → ℕ → Call
sys_sysinfo k uva =
    with_current k
      (λ cur p. to_user k p.root_pa uva (sysinfo_record k) (λ k'. returns (value 0) k'))

unfoldable pub sys_proclist : Kernel → ℕ → ℕ → Call
sys_proclist k uva len = with_current k (λ cur p.
    let text = listing k.system.procs in
    let n = min len (length text) in
    to_user k p.root_pa uva (take n text) (λ k'. returns (value n) k'))

-- Whether the machine is switched off; otherwise it is restarted.
unfoldable pub sys_reboot : ℕ → Bool
sys_reboot cmd = cmd == 0
