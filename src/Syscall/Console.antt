-- ===== src/Syscall/Console.antt =====
-- kernel/syscall/posix.rs: `sys_write` and `sys_read` on the console.
use light_os_orion_risc_v.Prelude.{
  ℕ, zero, suc, ◌+◌, ◌-◌, ◌%◌, none, some, ◌++◌, ◌==◌, if◌then◌else◌, length, min,
}
use light_os_orion_risc_v.Mem.Layout.{usize_mod}
use light_os_orion_risc_v.Uart
use light_os_orion_risc_v.Sched.Console.{block_on_console}
use light_os_orion_risc_v.Syscall.State.{
  Kernel, value, Call, returns, blocks, panic, with_current, from_user, to_user,
}

-- The loop of `sys_write`, with `left` bytes to go from `uva`; every round takes one at least, so
-- the number of bytes bounds the rounds.
unfoldable pub write_console : ℕ → Kernel → ℕ → ℕ → ℕ → ℕ → Call
write_console zero k root uva left len = returns (value len) k
write_console (suc rounds) k root uva left len =
    if left == 0
    then returns (value len) k
    else from_user k root uva (min 256 left) (λ bytes.
      write_console rounds (record k { console = k.console ++ Uart.write_bytes bytes }) root
        ((uva + min 256 left) % usize_mod) (left - min 256 left) len)

-- `sys_write` to the descriptors 1 and 2.
unfoldable pub console_write : Kernel → ℕ → ℕ → Call
console_write k uva len = with_current k (λ cur p. write_console len k p.root_pa uva len len)

-- `sys_read` of descriptor 0: what the ring has, or sleep.
unfoldable pub console_read : Kernel → ℕ → ℕ → Call
console_read k uva len =
    if len == 0
    then returns (value 0) k
    else with_current k (λ cur p.
      let read = Uart.read_bytes k.rx (min len 128) in
      let k' = record k { rx = read.1 } in
      if length read.0 == 0
      then elim (block_on_console k'.system uva len) [
        | none ↦ panic
        | some system ↦ blocks (record k' { system = system })
      ]
      else to_user k' p.root_pa uva read.0 (λ k''. returns (value (length read.0)) k''))
