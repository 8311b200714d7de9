-- ===== src/Syscall/Sockets.antt =====
-- kernel/syscall/posix.rs: the socket calls.
use light_os_orion_risc_v.Prelude.{
  ℕ, zero, suc, ◌/◌, ◌%◌, Option, none, some, List, [], ◌∷◌, ◌++◌, ltb, ◌==◌, if◌then◌else◌, length,
  take, min, replicate,
}
use light_os_orion_risc_v.Net.Wire.{ip_at, put_ip}
use light_os_orion_risc_v.Net.Socket.{SocketTable, Datagram, bind, local_port, recv}
use light_os_orion_risc_v.Net.Iface.{
  NetState, interface_down, gateway_not_resolved, sent, send_udp, poll,
}
use light_os_orion_risc_v.Mem.Uaccess.{put, put_fails, put_panics, copy_out}
use light_os_orion_risc_v.Sched.Files.{socket_idx}
use light_os_orion_risc_v.Syscall.{af_inet}
use light_os_orion_risc_v.Syscall.State.{
  Kernel, value, Call, returns, panic, with_current, from_user, to_user, be16, ebadf, einval,
  eaddrinuse, enetunreach, eagain, emsgsize,
}

abbrev with_sockets : Kernel → SocketTable → Kernel
with_sockets k t = record k { net = record k.net { sockets = t } }

unfoldable pub sys_bind : Kernel → ℕ → ℕ → ℕ → Call
sys_bind k fd sockaddr len = elim (socket_idx k.system fd) [
  | none ↦ returns ebadf k
  | some idx ↦
      if ltb len 8
      then returns einval k
      else with_current k (λ cur p. from_user k p.root_pa sockaddr 8 (λ sa.
        let bound = bind k.net.sockets idx (be16 sa 2) in
        elim bound.0 [
          | none ↦ returns eaddrinuse (with_sockets k bound.1)
          | some port ↦ returns (value 0) (with_sockets k bound.1)
        ]))
]

-- The source port, bound now if the socket has none.
unfoldable pub source_port : SocketTable → ℕ → Option ℕ × SocketTable
source_port t idx =
    let bound = bind t idx 0 in
    if local_port t idx == 0 then bound else (some (local_port t idx), t)

unfoldable pub sys_sendto : Kernel → ℕ → ℕ → ℕ → ℕ → ℕ → Call
sys_sendto k fd buf len dest dest_len = elim (socket_idx k.system fd) [
  | none ↦ returns ebadf k
  | some idx ↦
      if ltb dest_len 8
      then returns einval k
      else if ltb 1472 len
      then returns emsgsize k
      else with_current k (λ cur p. from_user k p.root_pa dest 8 (λ sa.
        let src = source_port k.net.sockets idx in
        let k' = with_sockets k src.1 in
        elim src.0 [
          | none ↦ returns eaddrinuse k'
          | some port ↦ from_user k' p.root_pa buf len (λ payload.
              let out = send_udp k'.net (ip_at sa 4) (be16 sa 2) port payload in
              let k'' = record k' { net = out.0 } in
              elim out.1 [
                | interface_down ↦ returns enetunreach k''
                | gateway_not_resolved ↦ returns enetunreach k''
                | sent frame ↦ returns (value len) (record k'' { wire = k''.wire ++ (frame ∷ []) })
              ])
        ]))
]

-- The busy-poll, with the frames that the driver has in each of the rounds that are left: the
-- network and the frames sent after it, and the datagram if one came.
unfoldable pub poll_rounds :
    ℕ → (ℕ → List (List ℕ)) → NetState → ℕ → NetState × List (List ℕ) × Option Datagram
poll_rounds zero arrives net idx = (net, [], none)
poll_rounds (suc left) arrives net idx =
    let polled = poll net (arrives left) in
    let taken = recv polled.0.sockets idx in
    let net' = record polled.0 { sockets = taken.1 } in
    let later = poll_rounds left arrives net' idx in
    elim taken.0 [
      | some d ↦ (net', polled.1, some d)
      | none ↦ (later.0, polled.1 ++ later.1, later.2)
    ]

-- `sockaddr_in` of the sender.
abbrev pub sender : Datagram → List ℕ
sender d = af_inet ∷ 0 ∷ d.src_port / 256 % 256 ∷ d.src_port % 256 ∷ put_ip d.src_ip (replicate 8 0)

-- A failure to copy the address is not reported.
unfoldable pub deliver_to : Kernel → ℕ → Datagram → ℕ → ℕ → ℕ → Call
deliver_to k root d buf len src_addr =
    let n = min len (length d.bytes) in
    to_user k root buf (take n d.bytes) (λ k'.
      if src_addr == 0
      then returns (value n) k'
      else elim (copy_out k'.memory root src_addr (sender d)) [
        | put m ↦ returns (value n) (record k' { memory = m })
        | put_fails e m ↦ returns (value n) (record k' { memory = m })
        | put_panics ↦ panic
      ])

unfoldable pub sys_recvfrom : (ℕ → List (List ℕ)) → Kernel → ℕ → ℕ → ℕ → ℕ → Call
sys_recvfrom arrives k fd buf len src_addr = elim (socket_idx k.system fd) [
  | none ↦ returns ebadf k
  | some idx ↦
      let polled = poll_rounds 4000 arrives k.net idx in
      let k' = record k { net = polled.0; wire = k.wire ++ polled.1 } in
      elim polled.2 [
        | none ↦ returns eagain k'
        | some d ↦ with_current k' (λ cur p. deliver_to k' p.root_pa d buf len src_addr)
      ]
]
