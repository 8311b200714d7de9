-- ===== src/Net/Socket/Inv.antt =====
-- The invariant of the socket table (kernel/net/socket.rs).
use light_os_orion_risc_v.Prelude.{
  ℕ, zero, suc, ◌≤◌, ◌<◌, ◌≡◌, ◌≢◌, ◌⊎◌, inl, inr, refl, false, Option, none, some, List, [], ◌∷◌,
  arith, length, length-set, set, Option-cases, ◌∙◌,
}
use light_os_orion_risc_v.Net.Socket.{
  max_sockets, max_backlog, ephemeral_base, u16_max, UdpSocket, SocketTable, table, first_none,
  unbound, alloc, free, port_in_use, socket_at,
}

-- No two bound sockets share a port, and no backlog is above its limit. Port 0 means "unbound".
abbrev pub Distinct : List (Option UdpSocket) → Type 0
Distinct [] = Unit {0}
Distinct (none ∷ r) = Distinct r
Distinct (some s ∷ r) = ((s.local_port ≡ 0) ⊎ (port_in_use r s.local_port ≡ false)) × Distinct r

abbrev pub Short : List (Option UdpSocket) → Type 0
Short [] = Unit {0}
Short (none ∷ r) = Short r
Short (some s ∷ r) = (length s.rx ≤ max_backlog) × Short r

pub record IsValid (t : SocketTable) : Type 0 where
  pub size : length t.slots ≡ max_sockets
  pub ephemeral_lo : ephemeral_base ≤ t.next_ephemeral
  pub ephemeral_hi : t.next_ephemeral < u16_max
  pub distinct : Distinct t.slots
  pub short : Short t.slots

-- Putting a socket with port `p` into a slot leaves every other port unused that was.
port_in_use-set :
    (l : List (Option UdpSocket)) (i q : ℕ) (s : UdpSocket)
    → s.local_port ≢ q
    → port_in_use l q ≡ false
    → port_in_use (set l i (some s)) q ≡ false
unfolding port_in_use
port_in_use-set [] i q s ne h = refl
port_in_use-set (none ∷ r) zero q s ne h = ground arith
port_in_use-set (some t ∷ r) zero q s ne h = ground arith
port_in_use-set (none ∷ r) (suc i) q s ne h = port_in_use-set r i q s ne h
port_in_use-set (some t ∷ r) (suc i) q s ne h = ground (arith, port_in_use-set r i q s)

port_in_use-clear :
    (l : List (Option UdpSocket)) (i q : ℕ)
    → port_in_use l q ≡ false
    → port_in_use (set l i none) q ≡ false
unfolding port_in_use
port_in_use-clear [] i q h = refl
port_in_use-clear (none ∷ r) zero q h = h
port_in_use-clear (some t ∷ r) zero q h = ground arith
port_in_use-clear (none ∷ r) (suc i) q h = port_in_use-clear r i q h
port_in_use-clear (some t ∷ r) (suc i) q h = ground (arith, port_in_use-clear r i q)

pub set-Distinct :
    (l : List (Option UdpSocket)) (i : ℕ) (s : UdpSocket)
    → (s.local_port ≡ 0) ⊎ (port_in_use l s.local_port ≡ false)
    → Distinct l
    → Distinct (set l i (some s))
unfolding port_in_use
set-Distinct [] i s new d = tt
set-Distinct (none ∷ r) zero s new d = (new, d)
set-Distinct (some t ∷ r) zero s new d = (ground arith, d.1)
set-Distinct (none ∷ r) (suc i) s new d = set-Distinct r i s new d
set-Distinct (some t ∷ r) (suc i) s new d =
    (ground (arith, port_in_use-set r i t.local_port s), set-Distinct r i s (ground arith) d.1)

clear-Distinct : (l : List (Option UdpSocket)) (i : ℕ) → Distinct l → Distinct (set l i none)
clear-Distinct [] i d = tt
clear-Distinct (none ∷ r) zero d = d
clear-Distinct (some t ∷ r) zero d = d.1
clear-Distinct (none ∷ r) (suc i) d = clear-Distinct r i d
clear-Distinct (some t ∷ r) (suc i) d =
    (ground (arith, port_in_use-clear r i t.local_port), clear-Distinct r i d.1)

pub set-Short :
    (l : List (Option UdpSocket)) (i : ℕ) (s : UdpSocket)
    → length s.rx ≤ max_backlog
    → Short l
    → Short (set l i (some s))
set-Short [] i s h d = tt
set-Short (none ∷ r) zero s h d = (h, d)
set-Short (some t ∷ r) zero s h d = (h, d.1)
set-Short (none ∷ r) (suc i) s h d = set-Short r i s h d
set-Short (some t ∷ r) (suc i) s h d = (d.0, set-Short r i s h d.1)

clear-Short : (l : List (Option UdpSocket)) (i : ℕ) → Short l → Short (set l i none)
clear-Short [] i d = tt
clear-Short (none ∷ r) zero d = d
clear-Short (some t ∷ r) zero d = d.1
clear-Short (none ∷ r) (suc i) d = clear-Short r i d
clear-Short (some t ∷ r) (suc i) d = (d.0, clear-Short r i d.1)

pub socket_at-Short :
    (l : List (Option UdpSocket)) (i : ℕ) (s : UdpSocket)
    → Short l
    → socket_at l i ≡ some s
    → length s.rx ≤ max_backlog
socket_at-Short [] i s d e = cc
socket_at-Short (none ∷ r) zero s d e = cc
socket_at-Short (some t ∷ r) zero s d e = ground arith
socket_at-Short (none ∷ r) (suc i) s d e = socket_at-Short r i s d e
socket_at-Short (some t ∷ r) (suc i) s d e = socket_at-Short r i s d.1 e

pub table-IsValid : IsValid table
unfolding table
table-IsValid = record {
  size = refl;
  ephemeral_lo = omega arith;
  ephemeral_hi = omega arith;
  distinct = tt;
  short = tt;
}

-- `alloc` keeps the invariant.
pub alloc-IsValid :
    (t t' : SocketTable) (idx : ℕ) → IsValid t → alloc t ≡ some (idx, t') → IsValid t'
unfolding alloc
alloc-IsValid t t' idx v e = elim (Option-cases (first_none t.slots)) [
  | inl full ↦ absurd (ground arith)
  | inr (i, found) ↦ ground (
    arith,
    length-set t.slots i (some unbound),
    set-Distinct t.slots i unbound (inl refl) v.distinct,
    set-Short t.slots i unbound (omega arith) v.short,
  )
]

-- `free` keeps the invariant.
pub free-IsValid : (t : SocketTable) (idx : ℕ) → IsValid t → IsValid (free t idx)
unfolding free
free-IsValid t idx v = record {
  size = length-set t.slots idx none ∙ v.size;
  ephemeral_lo = v.ephemeral_lo;
  ephemeral_hi = v.ephemeral_hi;
  distinct = clear-Distinct t.slots idx v.distinct;
  short = clear-Short t.slots idx v.short;
}
