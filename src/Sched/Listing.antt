-- ===== src/Sched/Listing.antt =====
-- kernel/sched/process.rs: the text that `ps` prints.
use light_os_orion_risc_v.Prelude.{ℕ, Option, none, some, List, [], ◌∷◌, ◌++◌, if◌then◌else◌, slot}
use light_os_orion_risc_v.Prelude.Text.{decimal, pad_left, pad_right}
use light_os_orion_risc_v.Minix3.Dir.{is_utf8, until_zero}
use light_os_orion_risc_v.Sched.{
  ProcState, ready, running, sleep_child, sleep_console, zombie, Process, ProcTable,
}

-- "ready", "run", "wait", "sleep" and "zombie"
abbrev pub state_name : ProcState → List ℕ
state_name ready = 114 ∷ 101 ∷ 97 ∷ 100 ∷ 121 ∷ []
state_name running = 114 ∷ 117 ∷ 110 ∷ []
state_name sleep_child = 119 ∷ 97 ∷ 105 ∷ 116 ∷ []
state_name sleep_console = 115 ∷ 108 ∷ 101 ∷ 101 ∷ 112 ∷ []
state_name zombie = 122 ∷ 111 ∷ 109 ∷ 98 ∷ 105 ∷ 101 ∷ []

-- "  PID  PPID  STATE   NAME\n"
abbrev pub listing_head : List ℕ
listing_head =
    32 ∷ 32 ∷ 80 ∷ 73 ∷ 68 ∷ 32 ∷ 32 ∷ 80 ∷ 80 ∷ 73 ∷ 68 ∷ 32 ∷ 32 ∷ 83 ∷ 84 ∷ 65 ∷ 84 ∷ 69 ∷ 32
    ∷ 32 ∷ 32 ∷ 78 ∷ 65 ∷ 77 ∷ 69 ∷ 10 ∷ []

abbrev pub parent_pid : List (Option Process) → Process → ℕ
parent_pid slots p = elim p.parent [
  | none ↦ 0
  | some i ↦ elim (slot slots i) [ none ↦ 0 | some parent ↦ parent.pid ]
]

-- "{:>5} {:>5}  {:<7} {}\n"
unfoldable pub listing_line : List (Option Process) → Process → List ℕ
listing_line slots p =
    let name = until_zero p.name in
    pad_left 5 (decimal p.pid)
    ++ (32 ∷ pad_left 5 (decimal (parent_pid slots p)))
    ++ (32 ∷ 32 ∷ pad_right 7 (state_name p.state))
    ++ (32 ∷ (if is_utf8 name then name else 63 ∷ []))
    ++ (10 ∷ [])

unfoldable pub listing_lines : List (Option Process) → List (Option Process) → List ℕ
listing_lines slots [] = []
listing_lines slots (none ∷ r) = listing_lines slots r
listing_lines slots (some p ∷ r) = listing_line slots p ++ listing_lines slots r

unfoldable pub listing : ProcTable → List ℕ
listing t = listing_head ++ listing_lines t.slots t.slots
