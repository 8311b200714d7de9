-- ===== src/Net/Socket/Traffic.antt =====
-- Datagrams into and out of the sockets (kernel/net/socket.rs, `deliver` and `recv`).
use light_os_orion_risc_v.Prelude.{
  ℕ, zero, suc, ◌<◌, ◌≡◌, ◌≢◌, true, false, Option, none, some, List, [], ◌∷◌, ◌++◌, arith, ltb,
  if◌then◌else◌, length, length-append, set, refl, ◌∙◌,
}
use light_os_orion_risc_v.Net.Socket.{
  max_backlog, Datagram, UdpSocket, SocketTable, port_in_use, socket_at, deliver_slots, deliver,
  recv,
}
use light_os_orion_risc_v.Net.Socket.Inv.{IsValid, Distinct, Short}
use light_os_orion_risc_v.Net.Socket.Bind.{socket_at-set_self, socket_at-set_ne}

length-deliver_slots :
    (l : List (Option UdpSocket)) (port : ℕ) (d : Datagram)
    → length (deliver_slots l port d) ≡ length l
unfolding deliver_slots
length-deliver_slots [] port d = refl
length-deliver_slots (none ∷ r) port d = omega (arith, length-deliver_slots r port d)
length-deliver_slots (some s ∷ r) port d = ground (arith, length-deliver_slots r port d)

-- A delivery changes no port.
port_in_use-deliver_slots :
    (l : List (Option UdpSocket)) (port : ℕ) (d : Datagram) (q : ℕ)
    → port_in_use (deliver_slots l port d) q ≡ port_in_use l q
unfolding deliver_slots port_in_use
port_in_use-deliver_slots [] port d q = refl
port_in_use-deliver_slots (none ∷ r) port d q = port_in_use-deliver_slots r port d q
port_in_use-deliver_slots (some s ∷ r) port d q =
    ground (arith, port_in_use-deliver_slots r port d q)

deliver_slots-Distinct :
    (l : List (Option UdpSocket)) (port : ℕ) (d : Datagram)
    → Distinct l
    → Distinct (deliver_slots l port d)
unfolding deliver_slots
deliver_slots-Distinct [] port d h = tt
deliver_slots-Distinct (none ∷ r) port d h = deliver_slots-Distinct r port d h
deliver_slots-Distinct (some s ∷ r) port d h =
    ground
      (arith, deliver_slots-Distinct r port d h.1, port_in_use-deliver_slots r port d s.local_port)

deliver_slots-Short :
    (l : List (Option UdpSocket)) (port : ℕ) (d : Datagram)
    → Short l
    → Short (deliver_slots l port d)
unfolding deliver_slots
deliver_slots-Short [] port d h = tt
deliver_slots-Short (none ∷ r) port d h = deliver_slots-Short r port d h
deliver_slots-Short (some s ∷ r) port d h =
    ground (arith, deliver_slots-Short r port d h.1, length-append s.rx (d ∷ []))

-- `deliver` keeps the invariant.
pub deliver-IsValid :
    (t : SocketTable) (port : ℕ) (d : Datagram) → IsValid t → IsValid (deliver t port d)
unfolding deliver
deliver-IsValid t port d v = record {
  size = length-deliver_slots t.slots port d ∙ v.size;
  ephemeral_lo = v.ephemeral_lo;
  ephemeral_hi = v.ephemeral_hi;
  distinct = deliver_slots-Distinct t.slots port d v.distinct;
  short = deliver_slots-Short t.slots port d v.short;
}

-- What a delivery does to the socket that owns the port.
abbrev pub receive : UdpSocket → Datagram → UdpSocket
receive s d = if ltb (length s.rx) max_backlog then record s { rx = s.rx ++ (d ∷ []) } else s

port_of_slot :
    (l : List (Option UdpSocket)) (i : ℕ) (s : UdpSocket)
    → socket_at l i ≡ some s
    → port_in_use l s.local_port ≡ true
unfolding port_in_use
port_of_slot [] i s e = cc
port_of_slot (none ∷ r) zero s e = cc
port_of_slot (some t ∷ r) zero s e = ground arith
port_of_slot (none ∷ r) (suc i) s e = port_of_slot r i s e
port_of_slot (some t ∷ r) (suc i) s e = ground (arith, port_of_slot r i s e)

deliver_slots-owner :
    (l : List (Option UdpSocket)) (i : ℕ) (s : UdpSocket) (d : Datagram)
    → Distinct l
    → socket_at l i ≡ some s
    → s.local_port ≢ 0
    → deliver_slots l s.local_port d ≡ set l i (some (receive s d))
unfolding deliver_slots
deliver_slots-owner [] i s d h e ne = cc
deliver_slots-owner (none ∷ r) zero s d h e ne = cc
deliver_slots-owner (some t ∷ r) zero s d h e ne = ground arith
deliver_slots-owner (none ∷ r) (suc i) s d h e ne =
    ground (arith, deliver_slots-owner r i s d h e ne)
deliver_slots-owner (some t ∷ r) (suc i) s d h e ne =
    ground (arith, deliver_slots-owner r i s d h.1 e ne, port_of_slot r i s e)

-- In a valid table a datagram for the port of a bound socket is queued behind that socket's
-- backlog unless the backlog is full, and no other socket changes.
pub deliver-owner :
    (t : SocketTable) (idx : ℕ) (s : UdpSocket) (d : Datagram)
    → IsValid t
    → socket_at t.slots idx ≡ some s
    → s.local_port ≢ 0
    → let t' = deliver t s.local_port d in
      (socket_at t'.slots idx ≡ some (receive s d))
      × ((j : ℕ) → idx ≢ j → socket_at t'.slots j ≡ socket_at t.slots j)
unfolding deliver
deliver-owner t idx s d v e ne =
    let there = deliver_slots-owner t.slots idx s d v.distinct e ne in
    (
      rw there (socket_at-set_self t.slots idx s (receive s d) e),
      λ j other. rw there (socket_at-set_ne t.slots idx j (some (receive s d)) other),
    )

deliver_slots_unowned :
    (l : List (Option UdpSocket)) (port : ℕ) (d : Datagram)
    → port_in_use l port ≡ false
    → deliver_slots l port d ≡ l
unfolding deliver_slots port_in_use
deliver_slots_unowned [] port d h = refl
deliver_slots_unowned (none ∷ r) port d h = ground (arith, deliver_slots_unowned r port d h)
deliver_slots_unowned (some s ∷ r) port d h = ground (arith, deliver_slots_unowned r port d)

-- A datagram for a port that no socket has is dropped.
pub deliver-unowned :
    (t : SocketTable) (port : ℕ) (d : Datagram)
    → port_in_use t.slots port ≡ false
    → deliver t port d ≡ t
unfolding deliver
deliver-unowned t port d h = ground (arith, deliver_slots_unowned t.slots port d h)

pub recv-head :
    (t : SocketTable) (idx : ℕ) (s : UdpSocket) (d : Datagram) (rest : List Datagram)
    → socket_at t.slots idx ≡ some s
    → s.rx ≡ d ∷ rest
    → recv t idx ≡ (some d, record t { slots = set t.slots idx (some (record s { rx = rest })) })
unfolding recv
recv-head t idx s d rest e q = rw (e, recv) (rw q refl)

-- In a valid table a datagram for the port of a bound socket with room in its backlog comes out of
-- `recv` after what was queued before it.
pub recv-deliver :
    (t : SocketTable) (idx : ℕ) (s : UdpSocket) (d : Datagram)
    → IsValid t
    → socket_at t.slots idx ≡ some s
    → s.local_port ≢ 0
    → length s.rx < max_backlog
    → (first : Datagram) × (rest : List Datagram) × (t' : SocketTable) × (s.rx ++ (d ∷ [])
        ≡ first ∷ rest)
      × (recv (deliver t s.local_port d) idx ≡ (some first, t'))
      × (socket_at t'.slots idx ≡ some (record s { rx = rest }))
recv-deliver t idx s d v e ne room =
    let (first, rest, q) = split s.rx in
    let s' : UdpSocket = record s { rx = s.rx ++ (d ∷ []) } in
    let t₁ = deliver t s.local_port d in
    let at : socket_at t₁.slots idx ≡ some s' = (deliver-owner t idx s d v e ne).0 ∙ ground arith in
    (
      first,
      rest,
      record t₁ { slots = set t₁.slots idx (some (record s { rx = rest })) },
      q,
      recv-head t₁ idx s' first rest at q,
      socket_at-set_self t₁.slots idx s' (record s { rx = rest }) at,
    )
  where
    split :
        (xs : List Datagram)
        → (first : Datagram) × (rest : List Datagram) × (xs ++ (d ∷ []) ≡ first ∷ rest)
    split [] = (d, [], refl)
    split (x ∷ xs) = (x, xs ++ (d ∷ []), refl)
