-- ===== src/Net/Iface/Cache.antt =====
-- The ARP cache of the interface (kernel/net/mod.rs, `arp_insert`), and the invariant that the
-- frame handler keeps.
use light_os_orion_risc_v.Prelude.{
  ℕ, ◌+◌, ◌<◌, ◌≤◌, ◌≡◌, ◌⊎◌, inl, inr, Bool, true, false, Option, none, some, List, [], ◌∷◌, arith,
  ltb, if◌then◌else◌, length, Option-cases,
}
use light_os_orion_risc_v.Net.Wire.{Ip, Mac, ip_eq, ip_eq-eq, ip_eq_refl}
use light_os_orion_risc_v.Net.Ethernet
use light_os_orion_risc_v.Net.Ethernet.{Frame}
use light_os_orion_risc_v.Net.Arp.{Arp}
use light_os_orion_risc_v.Net.Ipv4.{Ipv4}
use light_os_orion_risc_v.Net.Icmp.{Icmp}
use light_os_orion_risc_v.Net.Socket.Inv.{IsValid}
use light_os_orion_risc_v.Net.Socket.Traffic.{deliver-IsValid}
use light_os_orion_risc_v.Net.Iface.{
  Iface, NetState, arp_cache_len, cache_insert, arp_insert, handle_arp, handle_icmp, handle_udp,
  handle_ipv4, dispatch_frame, handle_frame,
}

-- The hardware address that the cache has for an address.
abbrev pub cache_lookup : List (Ip × Mac) → Ip → Option Mac
cache_lookup [] ip = none
cache_lookup ((ip', mac) ∷ r) ip = if ip_eq ip' ip then some mac else cache_lookup r ip

cache_lookup-insert_self :
    (c : List (Ip × Mac)) (ip : Ip) (mac : Mac)
    → cache_lookup (cache_insert true c ip mac) ip ≡ some mac
unfolding cache_insert
cache_lookup-insert_self [] ip mac = ground (arith, ip_eq_refl ip)
cache_lookup-insert_self ((ip', mac') ∷ r) ip mac =
    ground (arith, cache_lookup-insert_self r ip mac)

-- An entry that is there already is overwritten, also where there is no room.
cache_lookup-insert_known :
    (room : Bool) (c : List (Ip × Mac)) (ip : Ip) (mac old : Mac)
    → cache_lookup c ip ≡ some old
    → cache_lookup (cache_insert room c ip mac) ip ≡ some mac
unfolding cache_insert
cache_lookup-insert_known room [] ip mac old e = cc
cache_lookup-insert_known room ((ip', mac') ∷ r) ip mac old e =
    ground (arith, cache_lookup-insert_known room r ip mac old)

cache_lookup-insert_ne :
    (room : Bool) (c : List (Ip × Mac)) (ip q : Ip) (mac : Mac)
    → ip_eq ip q ≡ false
    → cache_lookup (cache_insert room c ip mac) q ≡ cache_lookup c q
unfolding cache_insert
cache_lookup-insert_ne room [] ip q mac ne = ground arith
cache_lookup-insert_ne room ((ip', mac') ∷ r) ip q mac ne =
    ground (arith, cache_lookup-insert_ne room r ip q mac ne, ip_eq-eq ip' ip)

length-cache_insert :
    (room : Bool) (c : List (Ip × Mac)) (ip : Ip) (mac : Mac)
    → length (cache_insert room c ip mac) ≤ length c + (if room then 1 else 0)
unfolding cache_insert
length-cache_insert room [] ip mac = ground arith
length-cache_insert room ((ip', mac') ∷ r) ip mac =
    ground (arith, length-cache_insert room r ip mac)

-- In a cache of at most eight entries, `arp_insert` records the new address if the host was known
-- or there was room; the cache has what it had for every other host, and eight entries at most.
pub arp_insert_lem :
    (i : Iface) (ip : Ip) (mac : Mac)
    → length i.arp_cache ≤ arp_cache_len
    → let c = (arp_insert i ip mac).arp_cache in
      ((length i.arp_cache < arp_cache_len)
          ⊎ ((old : Mac) × (cache_lookup i.arp_cache ip ≡ some old))
        → cache_lookup c ip ≡ some mac)
      × ((q : Ip) → ip_eq ip q ≡ false → cache_lookup c q ≡ cache_lookup i.arp_cache q)
      × (length c ≤ arp_cache_len)
unfolding arp_insert
arp_insert_lem i ip mac h = (
  λ known. elim known [
    | inl room ↦ ground (arith, cache_lookup-insert_self i.arp_cache ip mac)
    | inr (old, e) ↦ cache_lookup-insert_known _ i.arp_cache ip mac old e
  ],
  λ q ne. cache_lookup-insert_ne _ i.arp_cache ip q mac ne,
  ground (arith, length-cache_insert (ltb (length i.arp_cache) arp_cache_len) i.arp_cache ip mac),
)

-- The statics of the stack are as their operations expect them.
abbrev IfaceValid : Option Iface → Type 0
IfaceValid none = Unit {0}
IfaceValid (some i) = length i.arp_cache ≤ arp_cache_len

pub record NetValid (s : NetState) : Type 0 where
  pub cache : IfaceValid s.iface
  pub ident_u16 : s.ident < 65536
  pub table : IsValid s.sockets

handle_arp-NetValid :
    (s : NetState) (i : Iface) (a : Arp)
    → NetValid s
    → length i.arp_cache ≤ arp_cache_len
    → NetValid (handle_arp s i a).0
unfolding handle_arp
handle_arp-NetValid s i a v h =
    let small = (arp_insert_lem i a.sender_ip a.sender_mac h).2 in ground arith

handle_icmp-NetValid :
    (s : NetState) (i : Iface) (eth : Frame) (pkt : Ipv4) (msg : Icmp)
    → NetValid s
    → length i.arp_cache ≤ arp_cache_len
    → NetValid (handle_icmp s i eth pkt msg).0
unfolding handle_icmp
handle_icmp-NetValid s i eth pkt msg v h = ground arith

handle_ipv4-NetValid :
    (s : NetState) (i : Iface) (eth : Frame) (pkt : Ipv4)
    → NetValid s
    → length i.arp_cache ≤ arp_cache_len
    → NetValid (handle_ipv4 s i eth pkt).0
unfolding handle_ipv4 handle_udp
handle_ipv4-NetValid s i eth pkt v h = grind (arith, handle_icmp-NetValid, deliver-IsValid)

dispatch_frame-NetValid :
    (s : NetState) (i : Iface) (eth : Frame)
    → NetValid s
    → length i.arp_cache ≤ arp_cache_len
    → NetValid (dispatch_frame s i eth).0
unfolding dispatch_frame
dispatch_frame-NetValid s i eth v h = grind (arith, handle_arp-NetValid, handle_ipv4-NetValid)

IfaceValid-some :
    (o : Option Iface) (i : Iface) → o ≡ some i → IfaceValid o → length i.arp_cache ≤ arp_cache_len
IfaceValid-some none i e v = cc
IfaceValid-some (some j) i e v = ground arith

-- Whatever bytes arrive, handling them as a frame keeps a valid stack valid: the cache stays
-- within its eight entries, and the socket table keeps its invariant.
pub handle_frame-NetValid :
    (s : NetState) (frame : List ℕ) → NetValid s → NetValid (handle_frame s frame).0
unfolding handle_frame
handle_frame-NetValid s frame v = elim (Option-cases (Ethernet.parse frame)) [
  | inl none_e ↦ rw (none_e, handle_frame) v
  | inr (eth, e) ↦ elim (Option-cases s.iface) [
    | inl none_i ↦ rw (e, none_i, handle_frame) v
    | inr (i, ei) ↦
        rw (e, ei, handle_frame)
          (dispatch_frame-NetValid s i eth v (IfaceValid-some s.iface i ei v.cache))
  ]
]
