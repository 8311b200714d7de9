-- ===== src/Trap.antt =====
-- kernel/trap/mod.rs: the dispatch of traps from user mode and of external interrupts, with the
-- interrupt path of kernel/uart.rs that wakes a console reader.
pub mod Wake
mod Tests
use light_os_orion_risc_v.Prelude.{
  ℕ, ◌+◌, ◌-◌, ◌%◌, ◌^◌, Bool, Option, none, some, List, ltb, ◌==◌, if◌then◌else◌,
}
use light_os_orion_risc_v.Uart.{RxRing, handle_interrupt}
use light_os_orion_risc_v.Sched.{System, TrapFrame, Effect}
use light_os_orion_risc_v.Sched.RoundRobin.{yield_current}
use light_os_orion_risc_v.Sched.Console.{wake_console_reader}
use light_os_orion_risc_v.Sched.Ending.{exit_current}

abbrev pub irq_uart0 : ℕ
irq_uart0 = 10

abbrev pub irq_s_timer : ℕ
irq_s_timer = 5

abbrev pub irq_s_external : ℕ
irq_s_external = 9

-- SCAUSE_INTERRUPT: the highest bit of scause.
abbrev pub scause_interrupt : ℕ
scause_interrupt = 2 ^ 63

-- `uart::handle_interrupt` as a whole: the bytes of the FIFO go to the ring, and a sleeping reader
-- is woken if one of them was kept.
unfoldable pub uart_interrupt : (ℕ → ℕ → List ℕ → Bool) → System → RxRing → List ℕ → System × RxRing
uart_interrupt copied s rx fifo =
    let serviced = handle_interrupt rx fifo in
    if serviced.got_input then wake_console_reader copied s serviced.rx else (s, serviced.rx)

-- `irq` is what the interrupt controller answers to a claim; the last result is what is completed.
unfoldable pub external_interrupt :
    (ℕ → ℕ → List ℕ → Bool) → ℕ → System → RxRing → List ℕ → (System × RxRing) × Option ℕ
external_interrupt copied irq s rx fifo =
    if irq == 0
    then ((s, rx), none)
    else if irq == irq_uart0
    then (uart_interrupt copied s rx fifo, some irq)
    else ((s, rx), some irq)

-- How `usertrap` leaves the kernel.
pub data UserTrap : Type 0 where
  yields resumes_after_external resumes syscall killed : UserTrap

unfoldable pub usertrap : ℕ → UserTrap
usertrap scause =
    if ltb scause scause_interrupt
    then (if scause == 8 then syscall else killed)
    else if scause - scause_interrupt == irq_s_timer
    then yields
    else if scause - scause_interrupt == irq_s_external
    then resumes_after_external
    else resumes
