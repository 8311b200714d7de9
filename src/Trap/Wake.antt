-- ===== src/Trap/Wake.antt =====
-- Input on the console wakes the process that waits for it (kernel/uart.rs, kernel/sched/process.rs).
use light_os_orion_risc_v.Prelude.{
  ℕ, ◌<◌, ◌≤◌, ◌≡◌, ◌≢◌, refl, Bool, true, false, some, List, ◌++◌, arith, ◌==◌, if◌then◌else◌,
  length, slot, slot-set_self, slot-set_ne, slot-lt, min,
}
use light_os_orion_risc_v.Uart.{RxRing, handle_interrupt, read_bytes}
use light_os_orion_risc_v.Uart.Ring.{IsValid, contents, used, length-span}
use light_os_orion_risc_v.Uart.Input.{handle_interrupt_lem, read_bytes_lem}
use light_os_orion_risc_v.Sched.{Process, System, ready, is_sleep_console, position, set_frame_a0}
use light_os_orion_risc_v.Sched.Console.{wake_console_reader}
use light_os_orion_risc_v.Trap.{uart_interrupt}

-- Process `j`, and no other, is ready. The oldest bytes of the ring, of which there is at least one,
-- are taken for it, up to 128 and up to what it asked for; its result is their number, or EFAULT if
-- its buffer could not be written.
pub record Woken (copied : ℕ → ℕ → List ℕ → Bool) (s : System) (ring : RxRing) (j : ℕ) (p : Process)
    (s' : System) (ring' : RxRing) : Type 0 where
  pub awake : slot s'.procs.slots j ≡ some (record p { state = ready })
  pub others : (i : ℕ) → j ≢ i → slot s'.procs.slots i ≡ slot s.procs.slots i
  pub bytes : List ℕ
  pub some_bytes : 0 < length bytes
  pub oldest : contents ring ≡ bytes ++ contents ring'
  pub count : length bytes ≡ min (min p.read_len 128) (length (contents ring))
  pub told :
      s'.frames
      ≡ set_frame_a0 s.frames j
          (if copied p.root_pa p.read_buf_uva bytes then length bytes else 0xffff_ffff_ffff_fff2)

-- With a valid ring, when the interrupt handler has kept input, the first process that sleeps on
-- the console, if it asked for at least one byte, is made ready, and no other process changes. The
-- oldest bytes of the ring, at least one, leave it for that process, as many as there are up to 128
-- and up to what it asked for. The result of its call is their number, or EFAULT if they could not
-- be written to its buffer.
pub uart_interrupt-Woken :
    (copied : ℕ → ℕ → List ℕ → Bool) (s : System) (rx : RxRing) (fifo : List ℕ) (j : ℕ)
    (p : Process)
    → IsValid rx
    → (handle_interrupt rx fifo).got_input ≡ true
    → position (λ (c : Process). is_sleep_console c.state) s.procs.slots ≡ some j
    → slot s.procs.slots j ≡ some p
    → 0 < p.read_len
    → let (s', rx') = uart_interrupt copied s rx fifo in
      Woken copied s (handle_interrupt rx fifo).rx j p s' rx'
unfolding uart_interrupt wake_console_reader
uart_interrupt-Woken copied s rx fifo j p v got found at asks =
    let bound : length (contents rx) ≤ 255 = omega (arith, length-span rx.buf rx.tail (used rx)) in
    let (v', queued, echoed, reported) = handle_interrupt_lem rx fifo v bound in
    let after : RxRing = (handle_interrupt rx fifo).rx in
    let more : 0 < length (contents after) = ground arith in
    let n : ℕ = min p.read_len 128 in
    let (v'', front, taken) = read_bytes_lem after n v' in
    let out : List ℕ = (read_bytes after n).0 in
    let not_zero : (length out == 0) ≡ false = ground arith in
    record {
      awake =
          rw (got, found, at, not_zero, uart_interrupt, wake_console_reader)
            (slot-set_self s.procs.slots j (some (record p { state = ready }))
              (slot-lt s.procs.slots j p at));
      others = λ i ne.
          rw (got, found, at, not_zero, uart_interrupt, wake_console_reader)
            (slot-set_ne s.procs.slots j i (some (record p { state = ready })) ne);
      bytes = out;
      some_bytes = omega (arith, taken, more);
      oldest = rw (got, found, at, not_zero, uart_interrupt, wake_console_reader) front;
      count = taken;
      told = rw (got, found, at, not_zero, uart_interrupt, wake_console_reader) refl;
    }
