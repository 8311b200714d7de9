-- ===== src/Sched/Console.antt =====
-- kernel/sched/process.rs: a process that reads the console sleeps until the UART interrupt wakes it.
use light_os_orion_risc_v.Prelude.{
  ℕ, Bool, Option, none, some, List, ◌==◌, if◌then◌else◌, length, set, slot, min,
}
use light_os_orion_risc_v.Uart.{RxRing, read_bytes}
use light_os_orion_risc_v.Sched.{
  ready, sleep_console, System, is_sleep_console, position, with_slots, set_frame_a0,
}

-- `block_on_console`, up to its call of `schedule`.
unfoldable pub block_on_console : System → ℕ → ℕ → Option System
block_on_console s buf_uva len = elim s.current [
  | none ↦ none
  | some cur ↦ elim (slot s.procs.slots cur) [
    | none ↦ none
    | some p ↦
        let p' = record p { state = sleep_console; read_buf_uva = buf_uva; read_len = len } in
        some (record (with_slots s (set s.procs.slots cur (some p'))) { current = none })
  ]
]

-- `copied` is whether `copy_out` of these bytes to that address of that address space succeeds;
-- 2^64 - 14 is EFAULT as a register value.
unfoldable pub wake_console_reader : (ℕ → ℕ → List ℕ → Bool) → System → RxRing → System × RxRing
wake_console_reader copied s rx = elim (position (λ p. is_sleep_console p.state) s.procs.slots) [
  | none ↦ (s, rx)
  | some j ↦ elim (slot s.procs.slots j) [
    | none ↦ (s, rx)
    | some p ↦
        let read = read_bytes rx (min p.read_len 128) in
        let a0 =
          if copied p.root_pa p.read_buf_uva read.0 then length read.0 else 0xffff_ffff_ffff_fff2 in
        if length read.0 == 0 then (s, read.1) else (
          record (with_slots s (set s.procs.slots j (some (record p { state = ready })))) {
            frames = set_frame_a0 s.frames j a0;
          },
          read.1,
        )
  ]
]
