-- ===== src/Syscall/Devices.antt =====
-- kernel/syscall/posix.rs: `sys_write` and `sys_read` by descriptor, writes to /dev/nceN, and the
-- affinity calls.
use light_os_orion_risc_v.Prelude.{
  ℕ, ◌^◌, none, some, ◌++◌, ◌||◌, not, ltb, leb, ◌==◌, if◌then◌else◌, take, min,
}
use light_os_orion_risc_v.Minix3.Dir.{is_utf8}
use light_os_orion_risc_v.Nce.{
  done, no_such_slot, invalid_transition, set_power, set_current, get_current,
}
use light_os_orion_risc_v.Nce.Describe.{parse_power}
use light_os_orion_risc_v.Sched.{file, nce, socket}
use light_os_orion_risc_v.Sched.Files.{open_file}
use light_os_orion_risc_v.Syscall.State.{
  Kernel, value, Call, returns, with_current, from_user, to_user, le_bytes, from_le, ebadf, einval,
  erofs, esrch,
}
use light_os_orion_risc_v.Syscall.Console.{console_write, console_read}
use light_os_orion_risc_v.Syscall.Files.{file_read}

-- The answer of `set_power`; the doorbells that it rings go to the device.
unfoldable pub nce_write : Kernel → ℕ → ℕ → ℕ → Call
nce_write k fd uva len = with_current k (λ cur p. elim (open_file p fd) [
  | none ↦ returns ebadf k
  | some f ↦ elim f.kind [
    | file ino ↦ returns erofs k
    | socket idx ↦ returns erofs k
    | nce n ↦
        let m = min len 16 in
        from_user k p.root_pa uva m (λ text.
          if not (is_utf8 text) then returns einval k else elim (parse_power text) [
            | none ↦ returns einval k
            | some state ↦
                let set = set_power k.nces n state in
                let k' = record k { nces = set.1; doorbells = k.doorbells ++ set.2 } in
                elim set.0 [
                  | done ↦ returns (value m) k'
                  | no_such_slot ↦ returns einval k'
                  | invalid_transition ↦ returns einval k'
                ]
          ])
  ]
])

-- A descriptor from 2^63 on is a negative number.
unfoldable pub sys_write : Kernel → ℕ → ℕ → ℕ → Call
sys_write k fd uva len =
    if fd == 1 || fd == 2
    then console_write k uva len
    else if ltb fd 3 || leb (2 ^ 63) fd
    then returns ebadf k
    else nce_write k fd uva len

unfoldable pub sys_read : Kernel → ℕ → ℕ → ℕ → Call
sys_read k fd uva len =
    if leb (2 ^ 63) fd
    then returns ebadf k
    else if leb 3 fd
    then file_read k fd uva len
    else if not (fd == 0)
    then returns ebadf k
    else console_read k uva len

unfoldable pub sys_sched_setaffinity : Kernel → ℕ → ℕ → ℕ → Call
sys_sched_setaffinity k pid len uva =
    if not (pid == 0)
    then returns esrch k
    else with_current k (λ cur p. from_user k p.root_pa uva (min len 8) (λ bytes.
      elim (set_current k.system (from_le bytes)) [
        | none ↦ returns esrch k
        | some system ↦ returns (value 0) (record k { system = system })
      ]))

unfoldable pub sys_sched_getaffinity : Kernel → ℕ → ℕ → ℕ → Call
sys_sched_getaffinity k pid len uva =
    if not (pid == 0)
    then returns esrch k
    else with_current k (λ cur p.
      to_user k p.root_pa uva (take (min len 8) (le_bytes 8 (get_current k.system)))
        (λ k'. returns (value (min len 8)) k'))
