-- ===== src/Net/Iface.antt =====
-- kernel/net/mod.rs: the interface. It answers ARP requests and pings, learns the gateway's address
-- and hands UDP payloads to the socket table. A frame to send is the result of an operation; the
-- driver that sends it is not part of this module.
pub mod Cache
pub mod Reply
pub mod Ping
mod Tests
use light_os_orion_risc_v.Prelude.{
  ℕ, ◌+◌, ◌%◌, Bool, ◌&&◌, not, Option, none, some, List, [], ◌∷◌, ◌++◌, ltb, ◌==◌, if◌then◌else◌,
  length,
}
use light_os_orion_risc_v.Net.Wire.{Ip, Mac, ip_eq}
use light_os_orion_risc_v.Net.Ethernet
use light_os_orion_risc_v.Net.Ethernet.{Frame, ethertype_ipv4, ethertype_arp, broadcast}
use light_os_orion_risc_v.Net.Arp
use light_os_orion_risc_v.Net.Arp.{Arp, op_request, op_reply}
use light_os_orion_risc_v.Net.Ipv4
use light_os_orion_risc_v.Net.Ipv4.{Ipv4, proto_icmp, proto_udp}
use light_os_orion_risc_v.Net.Icmp
use light_os_orion_risc_v.Net.Icmp.{Icmp, type_echo_request, type_echo_reply}
use light_os_orion_risc_v.Net.Udp
use light_os_orion_risc_v.Net.Udp.{Udp}
use light_os_orion_risc_v.Net.Socket
use light_os_orion_risc_v.Net.Socket.{SocketTable}

abbrev pub our_ip : Ip
our_ip = (10, 0, 2, 15)

abbrev pub gateway_ip : Ip
gateway_ip = (10, 0, 2, 2)

abbrev pub arp_cache_len : ℕ
arp_cache_len = 8

-- `arp_cache` holds the entries in use, `arp_cache[..arp_len]`; what stands behind them is never read.
pub record Iface : Type 0 where
  pub mac : Mac
  pub ip : Ip
  pub gateway : Ip
  pub arp_cache : List (Ip × Mac)
  pub gateway_mac : Option Mac
  pub ping_replies : ℕ

-- The statics of the network stack: IFACE, IP_IDENT and the socket table.
pub record NetState : Type 0 where
  pub iface : Option Iface
  pub ident : ℕ
  pub sockets : SocketTable

-- The interface that `init` sets up on a device with this address.
unfoldable pub init : Mac → Iface
init mac = record {
  mac = mac;
  ip = our_ip;
  gateway = gateway_ip;
  arp_cache = [];
  gateway_mac = none;
  ping_replies = 0;
}

-- `room` is whether `arp_len < ARP_CACHE_LEN`.
unfoldable pub cache_insert : Bool → List (Ip × Mac) → Ip → Mac → List (Ip × Mac)
cache_insert room [] ip mac = if room then (ip, mac) ∷ [] else []
cache_insert room ((ip', mac') ∷ r) ip mac =
    let rest = cache_insert room r ip mac in
    if ip_eq ip' ip then (ip', mac) ∷ r else (ip', mac') ∷ rest

unfoldable pub arp_insert : Iface → Ip → Mac → Iface
arp_insert i ip mac = record i {
  arp_cache = cache_insert (ltb (length i.arp_cache) arp_cache_len) i.arp_cache ip mac;
}

-- `IP_IDENT.fetch_add(1)`
abbrev pub next_ident : NetState → NetState
next_ident s = record s { ident = (s.ident + 1) % 65536 }

abbrev with_iface : NetState → Iface → NetState
with_iface s i = record s { iface = some i }

-- What a handler leaves behind: the state, and the frame to transmit if there is one.
abbrev pub Outcome : Type 0
Outcome = NetState × Option (List ℕ)

unfoldable pub handle_arp : NetState → Iface → Arp → Outcome
handle_arp s i a =
    let i' = arp_insert i a.sender_ip a.sender_mac in
    if a.op == op_request && ip_eq a.target_ip i'.ip
    then (
      with_iface s i',
      some (
          Ethernet.build a.sender_mac i'.mac ethertype_arp
            (Arp.build op_reply i'.mac i'.ip a.sender_mac a.sender_ip)),
    )
    else if a.op == op_reply
    then (
      with_iface s (
          if ip_eq a.sender_ip i'.gateway
          then record i' { gateway_mac = some a.sender_mac }
          else i'),
      none,
    )
    else (with_iface s i', none)

unfoldable pub handle_icmp : NetState → Iface → Frame → Ipv4 → Icmp → Outcome
handle_icmp s i eth pkt msg =
    if msg.msg_type == type_echo_request
    then (
      next_ident s,
      some (
          Ethernet.build eth.src i.mac ethertype_ipv4 (
            Ipv4.build i.ip pkt.src proto_icmp
              (Icmp.build type_echo_reply msg.id msg.seq msg.payload) s.ident)),
    )
    else if msg.msg_type == type_echo_reply
    then (
      if ip_eq pkt.src i.gateway
          then with_iface s (record i { ping_replies = i.ping_replies + 1 })
          else s,
      none,
    )
    else (s, none)

unfoldable pub handle_udp : NetState → Ipv4 → Udp → NetState
handle_udp s pkt d = record s {
  sockets =
      Socket.deliver s.sockets d.dst_port
        (record { src_ip = pkt.src; src_port = d.src_port; bytes = d.payload });
}

unfoldable pub handle_ipv4 : NetState → Iface → Frame → Ipv4 → Outcome
handle_ipv4 s i eth pkt =
    if not (ip_eq pkt.dst i.ip)
    then (s, none)
    else if pkt.proto == proto_icmp
    then elim (Icmp.parse pkt.payload) [ none ↦ (s, none) | some msg ↦ handle_icmp s i eth pkt msg ]
    else if pkt.proto == proto_udp
    then elim (Udp.parse pkt.payload) [ none ↦ (s, none) | some d ↦ (handle_udp s pkt d, none) ]
    else (s, none)

unfoldable pub dispatch_frame : NetState → Iface → Frame → Outcome
dispatch_frame s i eth =
    if eth.ethertype == ethertype_arp
    then elim (Arp.parse eth.payload) [ none ↦ (s, none) | some a ↦ handle_arp s i a ]
    else if eth.ethertype == ethertype_ipv4
    then elim (Ipv4.parse eth.payload) [ none ↦ (s, none) | some pkt ↦ handle_ipv4 s i eth pkt ]
    else (s, none)

unfoldable pub handle_frame : NetState → List ℕ → Outcome
handle_frame s frame = elim (Ethernet.parse frame) [
  | none ↦ (s, none)
  | some eth ↦ elim s.iface [ none ↦ (s, none) | some i ↦ dispatch_frame s i eth ]
]

-- The frame that `send_arp_request` hands to the driver.
unfoldable pub send_arp_request : NetState → Ip → Option (List ℕ)
send_arp_request s target = elim s.iface [
  | none ↦ none
  | some i ↦ some (
      Ethernet.build broadcast i.mac ethertype_arp
        (Arp.build op_request i.mac i.ip (0, 0, 0, 0, 0, 0) target))
]

-- "lightos-ping"
abbrev pub ping_payload : List ℕ
ping_payload =
    b'l' ∷ b'i' ∷ b'g' ∷ b'h' ∷ b't' ∷ b'o' ∷ b's' ∷ b'-' ∷ b'p' ∷ b'i' ∷ b'n' ∷ b'g' ∷ []

unfoldable pub send_ping : NetState → Ip → Mac → ℕ → Outcome
send_ping s target target_mac seq = elim s.iface [
  | none ↦ (s, none)
  | some i ↦ (
    next_ident s,
    some (
        Ethernet.build target_mac i.mac ethertype_ipv4 (
          Ipv4.build i.ip target proto_icmp (Icmp.build type_echo_request 0x4c4f seq ping_payload)
            s.ident)),
  )
]

-- The two errors of `send_udp`, or the frame that it hands to the driver.
pub data SendUdp : Type 0 where
  interface_down gateway_not_resolved : SendUdp
  sent : List ℕ → SendUdp

unfoldable pub send_udp : NetState → Ip → ℕ → ℕ → List ℕ → NetState × SendUdp
send_udp s dst_ip dst_port src_port payload = elim s.iface [
  | none ↦ (s, interface_down)
  | some i ↦ elim i.gateway_mac [
    | none ↦ (s, gateway_not_resolved)
    | some gw_mac ↦ (
      next_ident s,
      sent (
          Ethernet.build gw_mac i.mac ethertype_ipv4 (
            Ipv4.build i.ip dst_ip proto_udp (Udp.build i.ip dst_ip src_port dst_port payload)
              s.ident)),
    )
  ]
]

-- `poll` over the frames that the driver drained, in their order: the state, and the replies.
unfoldable pub poll : NetState → List (List ℕ) → NetState × List (List ℕ)
poll s [] = (s, [])
poll s (frame ∷ rest) =
    let handled = handle_frame s frame in
    let later = poll handled.0 rest in
    (later.0, elim handled.1 [ none ↦ later.1 | some reply ↦ reply ∷ later.1 ])
