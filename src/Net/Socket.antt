-- ===== src/Net/Socket.antt =====
-- kernel/net/socket.rs: the table of UDP sockets. The lock around the table makes each operation
-- one step, so an operation is a function from the table to its result and the table after it.
pub mod Inv
pub mod Ephemeral
pub mod Bind
pub mod Traffic
pub mod Calls
mod Tests
use light_os_orion_risc_v.Prelude.{
  ℕ, zero, suc, ◌+◌, ◌-◌, Bool, true, false, ◌||◌, Option, none, some, List, [], ◌∷◌, ◌++◌, ltb,
  leb, ◌==◌, if◌then◌else◌, length, get_elem?, set, replicate,
}
use light_os_orion_risc_v.Net.Wire.{Ip}

abbrev pub max_sockets : ℕ
max_sockets = 32

abbrev pub max_backlog : ℕ
max_backlog = 16

abbrev pub ephemeral_base : ℕ
ephemeral_base = 49152

abbrev pub u16_max : ℕ
u16_max = 65535

pub record Datagram : Type 0 where
  pub src_ip : Ip
  pub src_port : ℕ
  pub bytes : List ℕ

-- `rx` with the oldest datagram first.
pub record UdpSocket : Type 0 where
  pub local_port : ℕ
  pub rx : List Datagram

pub record SocketTable : Type 0 where
  pub slots : List (Option UdpSocket)
  pub next_ephemeral : ℕ

unfoldable pub table : SocketTable
table = record { slots = replicate max_sockets none; next_ephemeral = ephemeral_base }

-- `slots.iter().position(|s| s.is_none())`
unfoldable pub first_none : List (Option UdpSocket) → Option ℕ
first_none [] = none
first_none (none ∷ r) = some 0
first_none (some s ∷ r) = elim (first_none r) [ none ↦ none | some i ↦ some (i + 1) ]

abbrev pub unbound : UdpSocket
unbound = record { local_port = 0; rx = [] }

unfoldable pub alloc : SocketTable → Option (ℕ × SocketTable)
alloc t = elim (first_none t.slots) [
  | none ↦ none
  | some idx ↦ some (idx, record t { slots = set t.slots idx (some unbound) })
]

unfoldable pub free : SocketTable → ℕ → SocketTable
free t idx = record t { slots = set t.slots idx none }

unfoldable pub port_in_use : List (Option UdpSocket) → ℕ → Bool
port_in_use [] port = false
port_in_use (none ∷ r) port = port_in_use r port
port_in_use (some s ∷ r) port = s.local_port == port || port_in_use r port

unfoldable pub next_port : ℕ → ℕ
next_port p = if leb (u16_max - 1) p then ephemeral_base else p + 1

-- The loop that looks for a free ephemeral port, with the rounds left; it ends with the port that
-- it has reached, free or not.
unfoldable pub find_port : List (Option UdpSocket) → ℕ → ℕ → ℕ
find_port slots zero p = p
find_port slots (suc rounds) p =
    let rest = find_port slots rounds (next_port p) in if port_in_use slots p then rest else p

-- The live socket in a slot, if there is one.
abbrev pub socket_at : List (Option UdpSocket) → ℕ → Option UdpSocket
socket_at slots idx = elim (get_elem? slots idx) [ none ↦ none | some s ↦ s ]

-- The last two lines of `bind`: the port is written to the socket, if `idx` has one.
abbrev assign : SocketTable → ℕ → ℕ → Option ℕ × SocketTable
assign t idx chosen = elim (socket_at t.slots idx) [
  | none ↦ (none, t)
  | some s ↦
      (some chosen, record t { slots = set t.slots idx (some (record s { local_port = chosen })) })
]

unfoldable pub bind : SocketTable → ℕ → ℕ → Option ℕ × SocketTable
bind t idx port =
    let p = find_port t.slots (u16_max - ephemeral_base) t.next_ephemeral in
    if port == 0
    then assign (record t { next_ephemeral = next_port p }) idx p
    else if port_in_use t.slots port
    then (none, t)
    else assign t idx port

unfoldable pub local_port : SocketTable → ℕ → ℕ
local_port t idx = elim (socket_at t.slots idx) [ none ↦ 0 | some s ↦ s.local_port ]

-- The first socket with that port takes the datagram, unless its backlog is full.
unfoldable pub deliver_slots : List (Option UdpSocket) → ℕ → Datagram → List (Option UdpSocket)
deliver_slots [] dst_port d = []
deliver_slots (none ∷ r) dst_port d = none ∷ deliver_slots r dst_port d
deliver_slots (some s ∷ r) dst_port d =
    let rest = deliver_slots r dst_port d in
    if s.local_port == dst_port
    then (if ltb (length s.rx) max_backlog
        then some (record s { rx = s.rx ++ (d ∷ []) }) ∷ r
        else some s ∷ r)
    else some s ∷ rest

unfoldable pub deliver : SocketTable → ℕ → Datagram → SocketTable
deliver t dst_port d = record t { slots = deliver_slots t.slots dst_port d }

-- `rx.pop_front()` of a socket.
abbrev pop_front : SocketTable → ℕ → UdpSocket → Option Datagram × SocketTable
pop_front t idx s = elim s.rx [
  | [] ↦ (none, t)
  | d ∷ rest ↦ (some d, record t { slots = set t.slots idx (some (record s { rx = rest })) })
]

unfoldable pub recv : SocketTable → ℕ → Option Datagram × SocketTable
recv t idx = elim (socket_at t.slots idx) [ none ↦ (none, t) | some s ↦ pop_front t idx s ]
