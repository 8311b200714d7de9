-- ===== src/Net/Socket/Bind.antt =====
-- Binding a socket to a port (kernel/net/socket.rs, `bind`).
use light_os_orion_risc_v.Prelude.{
  ℕ, zero, suc, ◌-◌, ◌≤◌, ◌<◌, ◌≡◌, ◌≢◌, ◌⊎◌, inl, inr, true, false, Option, none, some, List, [],
  ◌∷◌, arith, length, length-set, set, Option-cases, Bool-cases, refl, ◌∙◌, ℕ_discrete,
}
use light_os_orion_risc_v.Net.Socket.{
  ephemeral_base, u16_max, UdpSocket, SocketTable, port_in_use, next_port, find_port, socket_at,
  bind,
}
use light_os_orion_risc_v.Net.Socket.Inv.{IsValid, set-Distinct, set-Short, socket_at-Short}
use light_os_orion_risc_v.Net.Socket.Ephemeral.{
  next_port-InRange, find_port-InRange, find_port_free,
}

socket_at-lt :
    (l : List (Option UdpSocket)) (i : ℕ) (s : UdpSocket) → socket_at l i ≡ some s → i < length l
socket_at-lt [] i s e = cc
socket_at-lt (x ∷ r) zero s e = omega arith
socket_at-lt (x ∷ r) (suc i) s e = omega (arith, socket_at-lt r i s e)

pub socket_at-set_self :
    (l : List (Option UdpSocket)) (i : ℕ) (s s' : UdpSocket)
    → socket_at l i ≡ some s
    → socket_at (set l i (some s')) i ≡ some s'
socket_at-set_self [] i s s' e = cc
socket_at-set_self (x ∷ r) zero s s' e = refl
socket_at-set_self (x ∷ r) (suc i) s s' e = socket_at-set_self r i s s' e

pub socket_at-set_ne :
    (l : List (Option UdpSocket)) (i j : ℕ) (x : Option UdpSocket)
    → i ≢ j
    → socket_at (set l i x) j ≡ socket_at l j
socket_at-set_ne [] i j x ne = refl
socket_at-set_ne (y ∷ r) zero zero x ne = absurd (ne refl)
socket_at-set_ne (y ∷ r) zero (suc j) x ne = refl
socket_at-set_ne (y ∷ r) (suc i) zero x ne = refl
socket_at-set_ne (y ∷ r) (suc i) (suc j) x ne = socket_at-set_ne r i j x (omega arith)

-- The table with `port` written to the socket `s` of slot `idx`.
abbrev pub assigned : SocketTable → ℕ → UdpSocket → ℕ → SocketTable
assigned t idx s port = record t { slots = set t.slots idx (some (record s { local_port = port })) }

assigned-IsValid :
    (t : SocketTable) (idx : ℕ) (s : UdpSocket) (port : ℕ)
    → IsValid t
    → socket_at t.slots idx ≡ some s
    → port_in_use t.slots port ≡ false
    → IsValid (assigned t idx s port)
assigned-IsValid t idx s port v e free = record {
  size = length-set t.slots idx (some (record s { local_port = port })) ∙ v.size;
  ephemeral_lo = v.ephemeral_lo;
  ephemeral_hi = v.ephemeral_hi;
  distinct = set-Distinct t.slots idx (record s { local_port = port }) (inr free) v.distinct;
  short =
      set-Short t.slots idx (record s { local_port = port })
        (socket_at-Short t.slots idx s v.short e) v.short;
}

-- The port that the search for an ephemeral port ends with, and the table with the next start.
chosen : SocketTable → ℕ
chosen t = find_port t.slots (u16_max - ephemeral_base) t.next_ephemeral

moved_on : SocketTable → SocketTable
moved_on t = record t { next_ephemeral = next_port (chosen t) }

chosen_lem :
    (t : SocketTable)
    → IsValid t
    → (ephemeral_base ≤ chosen t) × (chosen t < u16_max) × (port_in_use t.slots (chosen t) ≡ false)
unfolding chosen
chosen_lem t v =
    let range = find_port-InRange t.slots 16383 t.next_ephemeral (v.ephemeral_lo, v.ephemeral_hi) in
    (
      range.0,
      range.1,
      find_port_free t.slots 16383 t.next_ephemeral (v.ephemeral_lo, v.ephemeral_hi)
          (omega (arith, v.size)) (omega arith),
    )

moved_on-IsValid : (t : SocketTable) → IsValid t → IsValid (moved_on t)
unfolding moved_on
moved_on-IsValid t v =
    let c = chosen_lem t v in
    let next = next_port-InRange (chosen t) (c.0, c.1) in
    record {
      size = v.size;
      ephemeral_lo = next.0;
      ephemeral_hi = next.1;
      distinct = v.distinct;
      short = v.short;
    }

-- In a valid table, binding a live socket to port 0 always succeeds, with an ephemeral port that
-- no socket had, and keeps the table valid.
pub bind-ephemeral :
    (t : SocketTable) (idx : ℕ) (s : UdpSocket)
    → IsValid t
    → socket_at t.slots idx ≡ some s
    → (p : ℕ) × (t' : SocketTable) × (bind t idx 0 ≡ (some p, t'))
      × (ephemeral_base ≤ p)
      × (p < u16_max)
      × (port_in_use t.slots p ≡ false)
      × (socket_at t'.slots idx ≡ some (record s { local_port = p }))
      × IsValid t'
unfolding bind chosen moved_on
bind-ephemeral t idx s v e =
    let (lo, hi, free) = chosen_lem t v in
    (
      chosen t,
      assigned (moved_on t) idx s (chosen t),
      ground arith,
      lo,
      hi,
      free,
      socket_at-set_self t.slots idx s (record s { local_port = chosen t }) e,
      assigned-IsValid (moved_on t) idx s (chosen t) (moved_on-IsValid t v) e free,
    )

-- Binding to a port of the caller's choice, which is not 0, fails exactly when some socket has
-- that port or there is no socket in the slot; otherwise the socket gets it.
pub bind-chosen :
    (t : SocketTable) (idx port : ℕ)
    → port ≢ 0
    → ((bind t idx port).0 ≡ none
        × (bind t idx port).1 ≡ t
        × ((port_in_use t.slots port ≡ true) ⊎ (socket_at t.slots idx ≡ none)))
      ⊎ ((s : UdpSocket) × (port_in_use t.slots port ≡ false)
          × (socket_at t.slots idx ≡ some s)
          × (bind t idx port ≡ (some port, assigned t idx s port)))
unfolding bind
bind-chosen t idx port ne = elim (Bool-cases (port_in_use t.slots port)) [
  | inl used ↦ inl (ground arith, ground arith, inl used)
  | inr free ↦ elim (Option-cases (socket_at t.slots idx)) [
    | inl gone ↦ inl (ground arith, ground arith, inr gone)
    | inr (s, live) ↦ inr (s, free, live, ground arith)
  ]
]

bind_gone :
    (t : SocketTable) (idx : ℕ) → socket_at t.slots idx ≡ none → (bind t idx 0).1 ≡ moved_on t
unfolding bind chosen moved_on
bind_gone t idx e = ground arith

-- `bind` keeps the invariant, whatever it is asked and whether it succeeds or not.
pub bind-IsValid : (t : SocketTable) (idx port : ℕ) → IsValid t → IsValid (bind t idx port).1
bind-IsValid t idx port v = elim (ℕ_discrete port 0) [
  | yes zero_port ↦ elim (Option-cases (socket_at t.slots idx)) [
    | inl gone ↦ rw zero_port (rw (bind_gone t idx gone) (moved_on-IsValid t v))
    | inr (s, live) ↦
        let (p, t', e, lo, hi, free, at, v') = bind-ephemeral t idx s v live in rw (zero_port, e) v'
  ]
  | no ne ↦ elim (bind-chosen t idx port ne) [
    | inl (_, same, _) ↦ rw same v
    | inr (s, free, live, e) ↦ rw e (assigned-IsValid t idx s port v live free)
  ]
]
