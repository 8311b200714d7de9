-- ===== src/Trap/Tests.antt =====
-- Runs and instances for traps (kernel/trap/mod.rs): a process waits for a line, "a" is typed.
use light_os_orion_risc_v.Prelude.{◌+◌, ◌^◌, ◌≡◌, refl, true, some, none, [], ◌∷◌, arith, set}
use light_os_orion_risc_v.Uart.{RxRing, rx_buf, store, handle_interrupt}
use light_os_orion_risc_v.Uart.Ring.{IsValid}
use light_os_orion_risc_v.Sched.{System, Process, boot, sleep_console, is_sleep_console, position}
use light_os_orion_risc_v.Sched.Lifecycle.{fresh}
use light_os_orion_risc_v.Trap.{uart_interrupt, usertrap, syscall, killed, yields}
use light_os_orion_risc_v.Trap.Wake.{Woken, uart_interrupt-Woken}

abbrev reader : Process
reader = record (fresh 1 none 0x8010_0000 0x5000_0000 0x20000 []) {
  state = sleep_console;
  read_buf_uva = 0x7fff_e000;
  read_len = 80;
}

abbrev asleep : System
asleep = record boot { procs = record boot.procs { slots = set boot.procs.slots 3 (some reader) } }

rx_buf-IsValid : IsValid rx_buf
unfolding rx_buf
rx_buf-IsValid = record { size = omega arith; head_lt = omega arith; tail_lt = omega arith }

kept : (handle_interrupt rx_buf (97 ∷ [])).got_input ≡ true
unfolding handle_interrupt store rx_buf
kept = refl

first_sleeper : position (λ (c : Process). is_sleep_console c.state) asleep.procs.slots ≡ some 3
unfolding position
first_sleeper = refl

-- The copy to the process succeeds.
abbrev woken : System × RxRing
woken = uart_interrupt (λ root uva bytes. true) asleep rx_buf (97 ∷ [])

uart_interrupt-Woken_example :
    Woken
      (λ root uva bytes. true)
      asleep
      (handle_interrupt rx_buf (97 ∷ [])).rx
      3
      reader
      woken.0
      woken.1
uart_interrupt-Woken_example =
    uart_interrupt-Woken (λ root uva bytes. true) asleep rx_buf (97 ∷ []) 3 reader rx_buf-IsValid
      kept first_sleeper refl (omega arith)

timer_run : usertrap (2 ^ 63 + 5) ≡ yields
unfolding usertrap
timer_run = refl

ecall_run : usertrap 8 ≡ syscall
unfolding usertrap
ecall_run = refl

fault_run : usertrap 13 ≡ killed
unfolding usertrap
fault_run = refl
