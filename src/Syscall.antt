-- ===== src/Syscall.antt =====
-- kernel/syscall: which handler a system call number leads to, and the calls of posix.rs that only
-- read the process table or join it with the socket table.
pub mod State
pub mod Console
pub mod Pages
pub mod Files
pub mod Devices
pub mod Sockets
pub mod Info
pub mod Output
pub mod MmapLoop
pub mod Mmap
mod Tests
use light_os_orion_risc_v.Prelude.{
  ℕ, ◌%◌, Bool, ◌&&◌, Option, none, some, ◌==◌, if◌then◌else◌, slot,
}
use light_os_orion_risc_v.Net.Socket
use light_os_orion_risc_v.Net.Socket.{SocketTable}
use light_os_orion_risc_v.Sched.{Process, System, FdKind, socket}
use light_os_orion_risc_v.Sched.Files.{install_fd}

-- The functions that `dispatch` calls; `enosys` is the answer to a number that is none of theirs.
pub data Handler : Type 0 where
  enosys : Handler
  sys_write sys_read sys_openat sys_close sys_getdents64 sys_sched_setaffinity : Handler
  sys_sched_getaffinity sys_exit sys_getpid sys_fork sys_execve sys_wait4 sys_mmap : Handler
  sys_munmap sys_sysinfo sys_reboot sys_proclist sys_socket sys_bind sys_sendto : Handler
  sys_recvfrom : Handler

unfoldable pub handler : ℕ → Handler
handler nr =
    if nr == 64
    then sys_write
    else if nr == 63
    then sys_read
    else if nr == 56
    then sys_openat
    else if nr == 57
    then sys_close
    else if nr == 61
    then sys_getdents64
    else if nr == 122
    then sys_sched_setaffinity
    else if nr == 123
    then sys_sched_getaffinity
    else if nr == 93
    then sys_exit
    else if nr == 172
    then sys_getpid
    else if nr == 220
    then sys_fork
    else if nr == 221
    then sys_execve
    else if nr == 260
    then sys_wait4
    else if nr == 222
    then sys_mmap
    else if nr == 215
    then sys_munmap
    else if nr == 179
    then sys_sysinfo
    else if nr == 142
    then sys_reboot
    else if nr == 500
    then sys_proclist
    else if nr == 198
    then sys_socket
    else if nr == 200
    then sys_bind
    else if nr == 206
    then sys_sendto
    else if nr == 207
    then sys_recvfrom
    else enosys

-- (root_pa, pid) of the current process; `none` is a panic.
unfoldable pub current_info : System → Option (ℕ × ℕ)
current_info s = elim s.current [
  | none ↦ none
  | some cur ↦ elim (slot s.procs.slots cur) [ none ↦ none | some p ↦ some (p.root_pa, p.pid) ]
]

abbrev pub af_inet : ℕ
af_inet = 2

abbrev pub sock_dgram : ℕ
sock_dgram = 2

pub data SocketCall : Type 0 where
  eprotonosupport enfile ebadf : SocketCall
  opened : ℕ → SocketCall

-- `sys_socket` with the domain and the type as arguments. A socket whose descriptor cannot be
-- installed stays allocated.
unfoldable pub socket_call : System → SocketTable → ℕ → ℕ → SocketCall × System × SocketTable
socket_call s t domain kind =
    if domain == af_inet && kind % 256 == sock_dgram
    then elim (Socket.alloc t) [
      | none ↦ (enfile, s, t)
      | some (idx, t') ↦
          let installed = install_fd s (socket idx) in
          elim installed.0 [ none ↦ (ebadf, s, t') | some fd ↦ (opened fd, installed.1, t') ]
    ]
    else (eprotonosupport, s, t)
