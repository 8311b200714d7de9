-- ===== src/Net/Iface/Ping.antt =====
-- A ping and a UDP datagram between two hosts that run kernel/net.
use light_os_orion_risc_v.Prelude.{
  ℕ, ◌+◌, ◌<◌, ◌≡◌, refl, ap, ◌∙◌, true, none, some, List, arith, length,
}
use light_os_orion_risc_v.Net.Wire.{Ip, Mac, ip_eq, ip_eq_refl}
use light_os_orion_risc_v.Net.Ethernet
use light_os_orion_risc_v.Net.Ethernet.{ethertype_ipv4}
use light_os_orion_risc_v.Net.Ipv4
use light_os_orion_risc_v.Net.Ipv4.{proto_icmp, proto_udp}
use light_os_orion_risc_v.Net.Icmp
use light_os_orion_risc_v.Net.Icmp.{type_echo_request, type_echo_reply, length-build}
use light_os_orion_risc_v.Net.Udp
use light_os_orion_risc_v.Net.Udp.{length-build as length_udp}
use light_os_orion_risc_v.Net.Socket
use light_os_orion_risc_v.Net.Iface.{
  Iface, NetState, Outcome, next_ident, handle_icmp, handle_udp, handle_ipv4, handle_frame,
  send_ping, send_udp, sent, ping_payload,
}
use light_os_orion_risc_v.Net.Iface.Reply.{handle_frame_ipv4}

-- A host that is up answers a ping to its own address with the same identifier, sequence number and
-- payload, to the address that it came from.
pub handle_frame_ping :
    (s : NetState) (i : Iface) (dst src : Mac) (from : Ip) (id seq : ℕ) (payload : List ℕ)
    (ident : ℕ)
    → s.iface ≡ some i
    → id < 65536
    → seq < 65536
    → 28 + length payload < 65536
    → handle_frame s (
        Ethernet.build dst src ethertype_ipv4
          (Ipv4.build from i.ip proto_icmp (Icmp.build type_echo_request id seq payload) ident))
      ≡ (
        next_ident s,
        some (
            Ethernet.build src i.mac ethertype_ipv4 (
              Ipv4.build i.ip from proto_icmp (Icmp.build type_echo_reply id seq payload) s.ident)),
      )
unfolding handle_ipv4 handle_icmp
handle_frame_ping s i dst src from id seq payload ident up hi hs small =
    handle_frame_ipv4 s i dst src from i.ip proto_icmp (Icmp.build type_echo_request id seq payload)
      ident up (omega (arith, length-build type_echo_request id seq payload))
    ∙ ground (arith, ip_eq_refl i.ip, Icmp.parse-build_icmp type_echo_request id seq payload hi hs)

-- An answer from the gateway is counted.
pub handle_frame_pong :
    (s : NetState) (i : Iface) (dst src : Mac) (from : Ip) (id seq : ℕ) (payload : List ℕ)
    (ident : ℕ)
    → s.iface ≡ some i
    → ip_eq from i.gateway ≡ true
    → id < 65536
    → seq < 65536
    → 28 + length payload < 65536
    → handle_frame s (
        Ethernet.build dst src ethertype_ipv4
          (Ipv4.build from i.ip proto_icmp (Icmp.build type_echo_reply id seq payload) ident))
      ≡ (record s { iface = some (record i { ping_replies = i.ping_replies + 1 }) }, none)
unfolding handle_ipv4 handle_icmp
handle_frame_pong s i dst src from id seq payload ident up same hi hs small =
    handle_frame_ipv4 s i dst src from i.ip proto_icmp (Icmp.build type_echo_reply id seq payload)
      ident up (omega (arith, length-build type_echo_reply id seq payload))
    ∙ ground (arith, ip_eq_refl i.ip, Icmp.parse-build_icmp type_echo_reply id seq payload hi hs)

-- Two hosts that are up, `b` having the address of `a`'s gateway: `a` pings `b` with a sequence
-- number below 65536, `b` answers, and when `a` has handled the answer its count of replies is one
-- higher.
pub ping_round_trip :
    (a b : NetState) (ia ib : Iface) (seq : ℕ)
    → a.iface ≡ some ia
    → b.iface ≡ some ib
    → ib.ip ≡ ia.gateway
    → seq < 65536
    → (request reply : List ℕ) × (a₁ a₂ : NetState) × (send_ping a ib.ip ib.mac seq
        ≡ (a₁, some request))
      × ((handle_frame b request).1 ≡ some reply)
      × (handle_frame a₁ reply ≡ (a₂, none))
      × (a₂.iface ≡ some (record ia { ping_replies = ia.ping_replies + 1 }))
unfolding send_ping
ping_round_trip a b ia ib seq upa upb same hs = (
  Ethernet.build ib.mac ia.mac ethertype_ipv4 (
      Ipv4.build ia.ip ib.ip proto_icmp (Icmp.build type_echo_request 0x4c4f seq ping_payload)
        a.ident),
  Ethernet.build ia.mac ib.mac ethertype_ipv4 (
      Ipv4.build ib.ip ia.ip proto_icmp (Icmp.build type_echo_reply 0x4c4f seq ping_payload)
        b.ident),
  next_ident a,
  record (next_ident a) { iface = some (record ia { ping_replies = ia.ping_replies + 1 }) },
  ground arith,
  ap (λ (o : Outcome). o.1)
      (handle_frame_ping b ib ib.mac ia.mac ia.ip 0x4c4f seq ping_payload a.ident upb (omega arith)
        hs (omega arith)),
  handle_frame_pong (next_ident a) ia ia.mac ib.mac ib.ip 0x4c4f seq ping_payload b.ident upa
      (rw same (ip_eq_refl ia.gateway)) (omega arith) hs (omega arith),
  refl,
)

-- If both hosts are up, the first knows its gateway's address, ports are below 65536 and the
-- payload fits a packet, then what one host sends with `send_udp` to the other's address the
-- other's handler passes on to its sockets whole: same ports, same payload, the sender's address.
-- Nothing else of it changes.
pub send_udp_delivered :
    (a b : NetState) (ia ib : Iface) (gw : Mac) (dst_port src_port : ℕ) (payload : List ℕ)
    → a.iface ≡ some ia
    → ia.gateway_mac ≡ some gw
    → b.iface ≡ some ib
    → dst_port < 65536
    → src_port < 65536
    → 28 + length payload < 65536
    → (frame : List ℕ) × (send_udp a ib.ip dst_port src_port payload ≡ (next_ident a, sent frame))
      × (handle_frame b frame ≡ (
        record b {
          sockets =
              Socket.deliver b.sockets dst_port
                (record { src_ip = ia.ip; src_port = src_port; bytes = payload });
        },
        none,
      ))
unfolding send_udp handle_ipv4 handle_udp
send_udp_delivered a b ia ib gw dst_port src_port payload upa known upb hd hs small =
    let dgram : List ℕ = Udp.build ia.ip ib.ip src_port dst_port payload in
    (
      Ethernet.build gw ia.mac ethertype_ipv4 (Ipv4.build ia.ip ib.ip proto_udp dgram a.ident),
      ground arith,
      handle_frame_ipv4 b ib gw ia.mac ia.ip ib.ip proto_udp dgram a.ident upb
            (omega (arith, length_udp ia.ip ib.ip src_port dst_port payload))
          ∙ ground (
            arith,
            ip_eq_refl ib.ip,
            Udp.parse-build_udp ia.ip ib.ip src_port dst_port payload hs hd (omega arith),
          ),
    )
