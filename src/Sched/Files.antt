-- ===== src/Sched/Files.antt =====
-- kernel/syscall/posix.rs: the open-file table of the current process (`install_fd`, `sys_close`,
-- `socket_idx`), with the socket table for the descriptors that are sockets.
use light_os_orion_risc_v.Prelude.{
  ℕ, ◌+◌, ◌-◌, Option, none, some, List, [], ◌∷◌, ◌++◌, ◌||◌, ◌^◌, ltb, leb, if◌then◌else◌, length,
  set, slot, first_empty,
}
use light_os_orion_risc_v.Net.Socket
use light_os_orion_risc_v.Net.Socket.{SocketTable}
use light_os_orion_risc_v.Sched.{FdKind, file, nce, socket, OpenFile, Process, System, with_slots}

-- "Reuse a closed slot or append": the table, and the index.
unfoldable pub place : List (Option OpenFile) → OpenFile → List (Option OpenFile) × ℕ
place files f = elim (first_empty files) [
  | none ↦ (files ++ (some f ∷ []), length files)
  | some i ↦ (set files i (some f), i)
]

-- The descriptor, or `none` for EBADF.
unfoldable pub install_fd : System → FdKind → Option ℕ × System
install_fd s kind = elim s.current [
  | none ↦ (none, s)
  | some cur ↦ elim (slot s.procs.slots cur) [
    | none ↦ (none, s)
    | some p ↦
        let placed = place p.files (record { kind = kind; pos = 0 }) in
        (
          some (placed.1 + 3),
          with_slots s (set s.procs.slots cur (some (record p { files = placed.0 }))),
        )
  ]
]

-- The open file behind a descriptor of a process: `p.files.get(fd - 3).copied().flatten()`.
abbrev pub open_file : Process → ℕ → Option OpenFile
open_file p fd = slot p.files (fd - 3)

unfoldable pub socket_idx : System → ℕ → Option ℕ
socket_idx s fd = if ltb fd 3 then none else elim s.current [
  | none ↦ none
  | some cur ↦ elim (slot s.procs.slots cur) [
    | none ↦ none
    | some p ↦ elim (open_file p fd) [
      | none ↦ none
      | some f ↦ elim f.kind [ file ino ↦ none | nce n ↦ none | socket idx ↦ some idx ]
    ]
  ]
]

pub data Closed : Type 0 where
  closed ebadf no_process : Closed

abbrev pub release : SocketTable → OpenFile → SocketTable
release t f = elim f.kind [ file ino ↦ t | nce n ↦ t | socket idx ↦ Socket.free t idx ]

-- `fd` is the register, of which a negative number is also below 3.
-- `no_process` is the panic of a system without a current process.
unfoldable pub sys_close : System → SocketTable → ℕ → Closed × System × SocketTable
sys_close s t fd = if ltb fd 3 || leb (2 ^ 63) fd then (closed, s, t) else elim s.current [
  | none ↦ (no_process, s, t)
  | some cur ↦ elim (slot s.procs.slots cur) [
    | none ↦ (no_process, s, t)
    | some p ↦ elim (open_file p fd) [
      | none ↦ (ebadf, s, t)
      | some f ↦ (
        closed,
        with_slots s
            (set s.procs.slots cur (some (record p { files = set p.files (fd - 3) none }))),
        release t f,
      )
    ]
  ]
]
