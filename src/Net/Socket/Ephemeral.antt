-- ===== src/Net/Socket/Ephemeral.antt =====
-- The search for a free ephemeral port in `bind` (kernel/net/socket.rs): among more ports than the
-- table has slots one is free.
use light_os_orion_risc_v.Prelude.{
  ℕ, zero, suc, ◌+◌, ◌-◌, ◌%◌, ◌≤◌, ◌<◌, ◌≡◌, ◌≢◌, true, false, Option, none, some, List, [], ◌∷◌,
  inl, inr, arith, leb, ◌==◌, if◌then◌else◌, length, Bool-cases, ℕ_discrete,
}
use light_os_orion_risc_v.Net.Socket.{
  ephemeral_base, u16_max, UdpSocket, port_in_use, next_port, find_port,
}

-- How many of the first `n` ports from `p` on are in use.
hits : List (Option UdpSocket) → ℕ → ℕ → ℕ
hits l p zero = 0
hits l p (suc n) = (if port_in_use l p then 1 else 0) + hits l (next_port p) n

-- How many of them are `q`.
same_port : ℕ → ℕ → ℕ → ℕ
same_port q p zero = 0
same_port q p (suc n) = (if q == p then 1 else 0) + same_port q (next_port p) n

abbrev InRange : ℕ → Type 0
InRange p = (ephemeral_base ≤ p) × (p < u16_max)

pub next_port-InRange : (p : ℕ) → InRange p → InRange (next_port p)
unfolding next_port
next_port-InRange p h = ground arith

-- The steps from `p` to `q` round the ephemeral ports.
abbrev distance : ℕ → ℕ → ℕ
distance p q = (q + 16383 - p) % 16383

distance-next_port :
    (p q : ℕ) → InRange p → InRange q → p ≢ q → distance (next_port p) q + 1 ≡ distance p q
unfolding next_port
distance-next_port p q hp hq ne = ground arith

distance_round : (p : ℕ) → InRange p → distance (next_port p) p ≡ 16382
unfolding next_port
distance_round p h = ground arith

same_port_before : (q p n : ℕ) → InRange p → InRange q → n ≤ distance p q → same_port q p n ≡ 0
unfolding same_port
same_port_before q p zero hp hq h = ground arith
same_port_before q p (suc n) hp hq h = elim (ℕ_discrete p q) [
  | yes e ↦ absurd (ground arith)
  | no ne ↦ ground (
    arith,
    same_port_before q (next_port p) n (next_port-InRange p hp) hq
        (omega (arith, distance-next_port p q hp hq ne)),
  )
]

same_port-le_one : (q p n : ℕ) → InRange p → InRange q → n ≤ 16383 → same_port q p n ≤ 1
unfolding same_port
same_port-le_one q p zero hp hq h = omega arith
same_port-le_one q p (suc n) hp hq h = elim (ℕ_discrete p q) [
  | yes e ↦ ground (
    arith,
    same_port_before q (next_port p) n (next_port-InRange p hp) hq
        (rw (← e) (omega (arith, distance_round p hp))),
  )
  | no ne ↦
      ground (arith, same_port-le_one q (next_port p) n (next_port-InRange p hp) hq (omega arith))
]

same_port_outside : (q p n : ℕ) → InRange p → ¬ InRange q → same_port q p n ≡ 0
unfolding same_port
same_port_outside q p zero hp out = ground arith
same_port_outside q p (suc n) hp out = elim (ℕ_discrete q p) [
  | yes e ↦ absurd (out (rw e hp))
  | no ne ↦ ground (arith, same_port_outside q (next_port p) n (next_port-InRange p hp) out)
]

in_range_dec : (q : ℕ) → Dec (InRange q)
in_range_dec q = elim (Bool-cases (leb ephemeral_base q)) [
  | inl lo ↦ elim (Bool-cases (leb u16_max q)) [
    | inl over ↦ no (λ h. absurd (ground arith))
    | inr under ↦ yes (ground arith, ground arith)
  ]
  | inr below ↦ no (λ h. absurd (ground arith))
]

same_port-le : (q p n : ℕ) → InRange p → n ≤ 16383 → same_port q p n ≤ 1
same_port-le q p n hp h = elim (in_range_dec q) [
  | yes hq ↦ same_port-le_one q p n hp hq h
  | no out ↦ omega (arith, same_port_outside q p n hp out)
]

hits-nil : (p n : ℕ) → hits [] p n ≡ 0
unfolding hits port_in_use
hits-nil p zero = ground arith
hits-nil p (suc n) = ground (arith, hits-nil (next_port p) n)

hits-none : (l : List (Option UdpSocket)) (p n : ℕ) → hits (none ∷ l) p n ≡ hits l p n
unfolding hits port_in_use
hits-none l p zero = ground arith
hits-none l p (suc n) = ground (arith, hits-none l (next_port p) n)

hits-some :
    (s : UdpSocket) (l : List (Option UdpSocket)) (p n : ℕ)
    → hits (some s ∷ l) p n ≤ same_port s.local_port p n + hits l p n
unfolding hits port_in_use same_port
hits-some s l p zero = omega arith
hits-some s l p (suc n) = ground (arith, hits-some s l (next_port p) n)

-- A slot accounts for one port at most.
hits-le-length :
    (l : List (Option UdpSocket)) (p n : ℕ) → InRange p → n ≤ 16383 → hits l p n ≤ length l
hits-le-length [] p n hp h = omega (arith, hits-nil p n)
hits-le-length (none ∷ l) p n hp h = omega (arith, hits-none l p n, hits-le-length l p n hp h)
hits-le-length (some s ∷ l) p n hp h =
    omega (arith, hits-some s l p n, same_port-le s.local_port p n hp h, hits-le-length l p n hp h)

-- If the search ends at a port in use, every port on the way was in use.
hits_of_failure :
    (l : List (Option UdpSocket)) (rounds p k : ℕ)
    → k ≤ rounds
    → port_in_use l (find_port l rounds p) ≡ true
    → hits l p k ≡ k
unfolding find_port hits
hits_of_failure l rounds p zero h e = ground arith
hits_of_failure l zero p (suc k) h e = absurd (omega arith)
hits_of_failure l (suc rounds) p (suc k) h e = elim (Bool-cases (port_in_use l p)) [
  | inl used ↦ ground (arith, hits_of_failure l rounds (next_port p) k (omega arith))
  | inr free ↦ absurd (ground arith)
]

pub find_port-InRange :
    (l : List (Option UdpSocket)) (rounds p : ℕ) → InRange p → InRange (find_port l rounds p)
unfolding find_port
find_port-InRange l zero p h = h
find_port-InRange l (suc rounds) p h =
    let rest = find_port-InRange l rounds (next_port p) (next_port-InRange p h) in
    elim (Bool-cases (port_in_use l p)) [ inl used ↦ rw used rest | inr free ↦ rw free h ]

-- With more rounds than slots the search ends at a port that no socket has.
pub find_port_free :
    (l : List (Option UdpSocket)) (rounds p : ℕ)
    → InRange p
    → length l < rounds
    → rounds ≤ 16383
    → port_in_use l (find_port l rounds p) ≡ false
find_port_free l rounds p hp more few = elim (Bool-cases (port_in_use l (find_port l rounds p))) [
  | inr free ↦ free
  | inl used ↦ absurd (
      omega (
        arith,
        hits_of_failure l rounds p rounds (omega arith) used,
        hits-le-length l p rounds hp few,
      ))
]
