-- ===== src/Net/Socket/Tests.antt =====
-- Runs and instances for the socket table (kernel/net/socket.rs).
use light_os_orion_risc_v.Prelude.{ℕ, ◌<◌, ◌≤◌, ◌≡◌, refl, false, some, List, [], ◌∷◌, ◌++◌, arith}
use light_os_orion_risc_v.Net.Socket.{
  Datagram, UdpSocket, SocketTable, table, alloc, bind, deliver, recv, socket_at, port_in_use,
  ephemeral_base, u16_max, first_none,
}
use light_os_orion_risc_v.Net.Socket.Inv.{IsValid}
use light_os_orion_risc_v.Net.Socket.Bind.{bind-ephemeral, bind-IsValid}
use light_os_orion_risc_v.Net.Socket.Traffic.{recv-deliver}
use light_os_orion_risc_v.Net.Socket.Calls.{Call, allocs, binds, step, run, run-table-IsValid}

abbrev dns : Datagram
dns = record { src_ip = (10, 0, 2, 3); src_port = 53; bytes = 1 ∷ 2 ∷ [] }

-- Two sockets, the first with a port of its choice and the second without a port.
abbrev calls : List Call
calls = allocs ∷ allocs ∷ binds 0 7000 ∷ binds 1 7000 ∷ []

abbrev two : SocketTable
two = run table calls

abbrev first : UdpSocket
first = record { local_port = 7000; rx = [] }

abbrev second : UdpSocket
second = record { local_port = 0; rx = [] }

run-table-IsValid_example : IsValid (run table calls)
run-table-IsValid_example = run-table-IsValid calls

first_live : socket_at two.slots 0 ≡ some first
unfolding run step alloc bind table first_none port_in_use
first_live = refl

second_live : socket_at two.slots 1 ≡ some second
unfolding run step alloc bind table first_none port_in_use
second_live = refl

bind-ephemeral_example :
    (p : ℕ) × (t' : SocketTable) × (bind two 1 0 ≡ (some p, t'))
    × (ephemeral_base ≤ p)
    × (p < u16_max)
    × (port_in_use two.slots p ≡ false)
    × (socket_at t'.slots 1 ≡ some (record second { local_port = p }))
    × IsValid t'
bind-ephemeral_example = bind-ephemeral two 1 second (run-table-IsValid calls) second_live

bind-IsValid_example : IsValid (bind two 1 0).1
bind-IsValid_example = bind-IsValid two 1 0 (run-table-IsValid calls)

unused : port_in_use table.slots 7000 ≡ false
unfolding port_in_use table
unused = refl

recv-deliver_example :
    (d : Datagram) × (rest : List Datagram) × (t' : SocketTable) × ([] ++ (dns ∷ []) ≡ d ∷ rest)
    × (recv (deliver two 7000 dns) 0 ≡ (some d, t'))
    × (socket_at t'.slots 0 ≡ some (record first { rx = rest }))
recv-deliver_example =
    recv-deliver two 0 first dns (run-table-IsValid calls) first_live (omega arith) (omega arith)
