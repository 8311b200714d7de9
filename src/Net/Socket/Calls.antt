-- ===== src/Net/Socket/Calls.antt =====
-- `recv` and sequences of calls on the socket table (kernel/net/socket.rs).
use light_os_orion_risc_v.Prelude.{
  ℕ, zero, suc, ◌≤◌, ◌≡◌, inl, inr, Option, none, some, List, [], ◌∷◌, arith, length, length-set,
  set, Option-cases, List-cases, ap, refl, ◌∙◌,
}
use light_os_orion_risc_v.Net.Socket.{
  max_backlog, Datagram, UdpSocket, SocketTable, table, alloc, free, port_in_use, socket_at, bind,
  deliver, recv,
}
use light_os_orion_risc_v.Net.Socket.Inv.{
  IsValid, Distinct, set-Short, socket_at-Short, table-IsValid, alloc-IsValid, free-IsValid,
}
use light_os_orion_risc_v.Net.Socket.Bind.{bind-IsValid}
use light_os_orion_risc_v.Net.Socket.Traffic.{recv-head, deliver-IsValid}

-- Taking a datagram off a socket changes no port.
port_in_use-same :
    (l : List (Option UdpSocket)) (i q : ℕ) (s s' : UdpSocket)
    → socket_at l i ≡ some s
    → s'.local_port ≡ s.local_port
    → port_in_use (set l i (some s')) q ≡ port_in_use l q
unfolding port_in_use
port_in_use-same [] i q s s' e p = refl
port_in_use-same (none ∷ r) zero q s s' e p = cc
port_in_use-same (some t ∷ r) zero q s s' e p = ground arith
port_in_use-same (none ∷ r) (suc i) q s s' e p = port_in_use-same r i q s s' e p
port_in_use-same (some t ∷ r) (suc i) q s s' e p = ground (arith, port_in_use-same r i q s s' e p)

same-Distinct :
    (l : List (Option UdpSocket)) (i : ℕ) (s s' : UdpSocket)
    → socket_at l i ≡ some s
    → s'.local_port ≡ s.local_port
    → Distinct l
    → Distinct (set l i (some s'))
same-Distinct [] i s s' e p h = tt
same-Distinct (none ∷ r) zero s s' e p h = cc
same-Distinct (some t ∷ r) zero s s' e p h =
    let port : s'.local_port ≡ t.local_port = ground arith in rw port h
same-Distinct (none ∷ r) (suc i) s s' e p h = same-Distinct r i s s' e p h
same-Distinct (some t ∷ r) (suc i) s s' e p h =
    (rw (port_in_use-same r i t.local_port s s' e p) (h.0), same-Distinct r i s s' e p h.1)

-- The table after the oldest datagram of `s` was taken.
popped-IsValid :
    (t : SocketTable) (idx : ℕ) (s : UdpSocket) (d : Datagram) (rest : List Datagram)
    → IsValid t
    → socket_at t.slots idx ≡ some s
    → s.rx ≡ d ∷ rest
    → IsValid (record t { slots = set t.slots idx (some (record s { rx = rest })) })
popped-IsValid t idx s d rest v e q =
    let s' : UdpSocket = record s { rx = rest } in
    let small : length s.rx ≤ max_backlog = socket_at-Short t.slots idx s v.short e in
    record {
      size = length-set t.slots idx (some s') ∙ v.size;
      ephemeral_lo = v.ephemeral_lo;
      ephemeral_hi = v.ephemeral_hi;
      distinct = same-Distinct t.slots idx s s' e refl v.distinct;
      short = set-Short t.slots idx s' (omega (arith, ap length q)) v.short;
    }

recv-IsValid : (t : SocketTable) (idx : ℕ) → IsValid t → IsValid (recv t idx).1
unfolding recv
recv-IsValid t idx v = elim (Option-cases (socket_at t.slots idx)) [
  | inl gone ↦ rw (gone, recv) v
  | inr (s, live) ↦ elim (List-cases s.rx) [
    | inl empty ↦ rw (live, recv) (rw empty v)
    | inr (d, rest, q) ↦
        rw (recv-head t idx s d rest live q) (popped-IsValid t idx s d rest v live q)
  ]
]

-- The calls that the rest of the kernel makes.
pub data Call : Type 0 where
  allocs : Call
  frees receives : ℕ → Call
  binds : ℕ → ℕ → Call
  delivers : ℕ → Datagram → Call

unfoldable pub step : SocketTable → Call → SocketTable
step t allocs = elim (alloc t) [ none ↦ t | some (idx, t') ↦ t' ]
step t (frees idx) = free t idx
step t (receives idx) = (recv t idx).1
step t (binds idx port) = (bind t idx port).1
step t (delivers port d) = deliver t port d

unfoldable pub run : SocketTable → List Call → SocketTable
run t [] = t
run t (c ∷ cs) = run (step t c) cs

step-IsValid : (t : SocketTable) (c : Call) → IsValid t → IsValid (step t c)
unfolding step
step-IsValid t allocs v = elim (Option-cases (alloc t)) [
  | inl full ↦ rw (full, step) v
  | inr ((idx, t'), e) ↦ rw (e, step) (alloc-IsValid t t' idx v e)
]
step-IsValid t (frees idx) v = free-IsValid t idx v
step-IsValid t (receives idx) v = recv-IsValid t idx v
step-IsValid t (binds idx port) v = bind-IsValid t idx port v
step-IsValid t (delivers port d) v = deliver-IsValid t port d v

run-IsValid : (t : SocketTable) (cs : List Call) → IsValid t → IsValid (run t cs)
unfolding run
run-IsValid t [] v = v
run-IsValid t (c ∷ cs) v = run-IsValid (step t c) cs (step-IsValid t c v)

-- After any sequence of calls on the boot-time table there are 32 slots, no two bound sockets share a
-- port, and no backlog holds more than 16 datagrams.
pub run-table-IsValid : (cs : List Call) → IsValid (run table cs)
run-table-IsValid cs = run-IsValid table cs table-IsValid
