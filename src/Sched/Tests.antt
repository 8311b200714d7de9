-- ===== src/Sched/Tests.antt =====
-- Runs and instances for the scheduler (kernel/sched): init is started and forks; the child exits
-- while init waits.
use light_os_orion_risc_v.Prelude.{
  ℕ, ◌++◌, ◌≤◌, ◌≡◌, ◌≢◌, refl, true, none, some, List, [], ◌∷◌, arith, set, slot, replicate,
  first_empty,
}
use light_os_orion_risc_v.Net.Socket
use light_os_orion_risc_v.Net.Socket.{SocketTable}
use light_os_orion_risc_v.Sched.{
  running, sleep_child, Process, ProcTable, System, Effect, OpenFile, socket, boot, set_a0,
}
use light_os_orion_risc_v.Sched.RoundRobin.{first_ready, pick_next, schedule}
use light_os_orion_risc_v.Sched.Lifecycle.{
  spawn, fork_current, set_name, child, enroll, fresh, entry_frame,
}
use light_os_orion_risc_v.Sched.Ending.{exit_current, find_child, wait_current}
use light_os_orion_risc_v.Sched.Files.{open_file, closed, sys_close}
use light_os_orion_risc_v.Sched.Inv.{SysValid}
use light_os_orion_risc_v.Sched.Fair.{distance, waits, passed, Passed-bound}
use light_os_orion_risc_v.Sched.Exit.{Exited, exit_current-Exited}
use light_os_orion_risc_v.Sched.Wait.{Waited, wait_current-Waited}
use light_os_orion_risc_v.Sched.Reach.{
  Reachable, booted, after, spawns, schedules, forks, waits_for_child, Reachable-SysValid,
}
use light_os_orion_risc_v.Sched.Descriptors.{Released, sys_close_lem}

-- "init"
abbrev name : List ℕ
name = 105 ∷ 110 ∷ 105 ∷ 116 ∷ []

abbrev init : Process
init = fresh 1 none 0x8010_0000 0x5000_0000 0x20000 (name ++ replicate 12 0)

abbrev started : System
started = enroll boot 0 init (entry_frame 0x8008_0000 0x10000)

started_run : spawn 0x8008_0000 boot name (0x8010_0000, 0x10000, 0x20000) ≡ some (1, started)
unfolding spawn first_empty set_name
started_run = refl

abbrev entered : System
entered = record started {
  procs = record started.procs {
    slots = set started.procs.slots 0 (some (record init { state = running }));
  };
  current = some 0;
}

entered_run : schedule started ≡ entered
unfolding schedule pick_next first_ready
entered_run = refl

abbrev shell : Process
shell = fresh 2 (some 0) 0x8020_0000 0x5000_0000 0x20000 (name ++ replicate 12 0)

abbrev forked : System
forked =
    enroll entered 1 shell
      (record (set_a0 (entry_frame 0x8008_0000 0x10000) 0) { kernel_sp = 0x8008_0000 })

forked_run : fork_current 0x8008_0000 entered (some 0x8020_0000) true ≡ some (child 2, forked, [])
unfolding fork_current first_empty
forked_run = refl

-- Init sleeps in wait4, the child runs.
abbrev waiting : System
waiting = record forked {
  procs = record forked.procs {
    slots =
        set forked.procs.slots 0
          (some (record init { state = sleep_child; wait_status_uva = 0x7fff_e000 }));
  };
  current = none;
}

waiting_run : wait_current forked 0x7fff_e000 ≡ some (waiting, [])
unfolding wait_current find_child
waiting_run = refl

abbrev alone : System
alone = record waiting {
  procs = record waiting.procs {
    slots = set waiting.procs.slots 1 (some (record shell { state = running }));
    last_run = 1;
  };
  current = some 1;
}

alone_run : schedule waiting ≡ alone
unfolding schedule pick_next first_ready
alone_run = refl

entered_reached : Reachable entered
entered_reached = rw (← entered_run) (
    after (after booted (spawns 0x8008_0000 1 name (0x8010_0000, 0x10000, 0x20000) started_run))
      (schedules refl))

forked_reached : Reachable forked
forked_reached =
    after entered_reached (forks 0x8008_0000 (some 0x8020_0000) true (child 2) [] forked_run)

waiting_reached : Reachable waiting
waiting_reached = after forked_reached (waits_for_child 0x7fff_e000 [] waiting_run)

alone_reached : Reachable alone
alone_reached = rw (← alone_run) (after waiting_reached (schedules refl))

Reachable-SysValid_example : SysValid alone
Reachable-SysValid_example = Reachable-SysValid alone alone_reached

exit_current-Exited_example :
    (s' : System) × (effects : List Effect) × (exit_current alone 7 ≡ some (s', effects))
    × Exited alone 1 (record shell { state = running }) 7 s' effects
exit_current-Exited_example =
    exit_current-Exited alone 1 7 (record shell { state = running })
      (Reachable-SysValid alone alone_reached) refl refl (omega arith)

wait_current-Waited_example :
    (s' : System) × (effects : List Effect) × (wait_current forked 0x7fff_e000 ≡ some (s', effects))
    × Waited forked 0 0x7fff_e000 (record init { state = running }) s' effects
wait_current-Waited_example =
    wait_current-Waited forked 0 0x7fff_e000 (record init { state = running })
      (Reachable-SysValid forked forked_reached) refl refl

-- Init and its child are both ready, and init ran last: the child is picked, init is passed over.
abbrev both_ready : ProcTable
both_ready = record forked.procs { slots = set forked.procs.slots 0 (some init) }

abbrev child_runs : ProcTable
child_runs = record both_ready {
  slots = set both_ready.slots 1 (some (record shell { state = running }));
  last_run = 1;
}

child_picked : pick_next both_ready ≡ some ((1, 0x8020_0000), child_runs)
unfolding pick_next first_ready
child_picked = refl

Passed-bound_example : 1 ≤ distance 0 both_ready.last_run
Passed-bound_example =
    Passed-bound 0 1 both_ready (omega arith) (omega arith)
      (passed 1 0x8020_0000 child_runs child_runs refl child_picked (omega arith) refl waits)

abbrev port : OpenFile
port = record { kind = socket 0; pos = 0 }

-- Init with a socket open as descriptor 3, in the first slot of the socket table.
abbrev opener : Process
opener = record init { state = running; files = some port ∷ [] }

abbrev opened : System
opened = record entered {
  procs = record entered.procs { slots = set entered.procs.slots 0 (some opener) };
}

abbrev one_socket : SocketTable
one_socket = record Socket.table { slots = set Socket.table.slots 0 (some Socket.unbound) }

sys_close_lem_example :
    (s' : System) × (p' : Process) × (t' : SocketTable) × (sys_close opened one_socket 3
      ≡ (closed, s', t'))
    × Released one_socket port t'
    × (slot s'.procs.slots 0 ≡ some p')
    × (open_file p' 3 ≡ none)
    × ((other : ℕ) → 3 ≤ other → 3 ≢ other → open_file p' other ≡ open_file opener other)
sys_close_lem_example =
    sys_close_lem opened one_socket 0 3 opener port refl refl (omega arith) (omega arith) refl
