-- ===== src/Net/Iface/Reply.antt =====
-- Exchanges between two hosts that run kernel/net: ARP resolution of the gateway, a ping, a UDP
-- datagram. Each is followed from the frame that one host sends through the other's handler.
use light_os_orion_risc_v.Prelude.{
  ℕ, ◌+◌, ◌<◌, ◌≡◌, refl, ap, ◌∙◌, true, none, some, List, arith, length,
}
use light_os_orion_risc_v.Net.Wire.{Ip, Mac, ip_eq, ip_eq_refl}
use light_os_orion_risc_v.Net.Ethernet
use light_os_orion_risc_v.Net.Ethernet.{ethertype_ipv4, ethertype_arp, broadcast}
use light_os_orion_risc_v.Net.Arp
use light_os_orion_risc_v.Net.Arp.{op_request, op_reply}
use light_os_orion_risc_v.Net.Ipv4
use light_os_orion_risc_v.Net.Ipv4.{proto_icmp, proto_udp}
use light_os_orion_risc_v.Net.Iface.{
  Iface, NetState, Outcome, arp_insert, handle_arp, handle_ipv4, dispatch_frame, handle_frame,
  send_arp_request,
}

-- An interface that is up sees exactly the frames that were built, taken apart.
handle_frame_arp :
    (s : NetState) (i : Iface) (dst src : Mac) (op : ℕ) (smac : Mac) (sip : Ip) (tmac : Mac)
    (tip : Ip)
    → s.iface ≡ some i
    → op < 65536
    → handle_frame s (Ethernet.build dst src ethertype_arp (Arp.build op smac sip tmac tip))
      ≡ handle_arp s i (record { op = op; sender_mac = smac; sender_ip = sip; target_ip = tip })
unfolding handle_frame dispatch_frame
handle_frame_arp s i dst src op smac sip tmac tip up h = ground (
  arith,
  Ethernet.parse-build_frame dst src ethertype_arp (Arp.build op smac sip tmac tip) (omega arith),
  Arp.parse-build_arp op smac sip tmac tip h,
)

pub handle_frame_ipv4 :
    (s : NetState) (i : Iface) (dst src : Mac) (from to : Ip) (proto : ℕ) (payload : List ℕ)
    (ident : ℕ)
    → s.iface ≡ some i
    → 20 + length payload < 65536
    → handle_frame s
        (Ethernet.build dst src ethertype_ipv4 (Ipv4.build from to proto payload ident))
      ≡ handle_ipv4 s i
          (record {
            dst = dst;
            src = src;
            ethertype = ethertype_ipv4;
            payload = Ipv4.build from to proto payload ident;
          })
          (record { src = from; dst = to; proto = proto; payload = payload })
unfolding handle_frame dispatch_frame
handle_frame_ipv4 s i dst src from to proto payload ident up h = ground (
  arith,
  Ethernet.parse-build_frame dst src ethertype_ipv4 (Ipv4.build from to proto payload ident)
      (omega arith),
  Ipv4.parse-build_ipv4 from to proto payload ident h,
)

-- A host that is up answers an ARP request for its own address: the reply goes to the asking host
-- and carries the answering host's hardware address.
pub handle_frame_request :
    (s : NetState) (i : Iface) (dst src : Mac) (smac : Mac) (sip : Ip) (tmac : Mac)
    → s.iface ≡ some i
    → handle_frame s
        (Ethernet.build dst src ethertype_arp (Arp.build op_request smac sip tmac i.ip))
      ≡ (
        record s { iface = some (arp_insert i sip smac) },
        some (Ethernet.build smac i.mac ethertype_arp (Arp.build op_reply i.mac i.ip smac sip)),
      )
unfolding handle_arp arp_insert
handle_frame_request s i dst src smac sip tmac up =
    handle_frame_arp s i dst src op_request smac sip tmac i.ip up (omega arith)
    ∙ ground (arith, ip_eq_refl i.ip)

-- A reply from the gateway's address is remembered.
pub handle_frame_reply :
    (s : NetState) (i : Iface) (dst src : Mac) (smac : Mac) (sip : Ip) (tmac : Mac) (tip : Ip)
    → s.iface ≡ some i
    → ip_eq sip i.gateway ≡ true
    → handle_frame s (Ethernet.build dst src ethertype_arp (Arp.build op_reply smac sip tmac tip))
      ≡ (
        record s { iface = some (record (arp_insert i sip smac) { gateway_mac = some smac }) },
        none,
      )
unfolding handle_arp arp_insert
handle_frame_reply s i dst src smac sip tmac tip up same =
    handle_frame_arp s i dst src op_reply smac sip tmac tip up (omega arith) ∙ ground arith

-- Two hosts that are up: `a` asks for its gateway, `b` has that address. After `b` has answered
-- and `a` has handled the answer, `a` knows `b`'s hardware address as its gateway's.
pub resolve_gateway :
    (a b : NetState) (ia ib : Iface)
    → a.iface ≡ some ia
    → b.iface ≡ some ib
    → ib.ip ≡ ia.gateway
    → (request reply : List ℕ) × (a' : NetState) × (ia' : Iface) × (send_arp_request a ia.gateway
        ≡ some request)
      × ((handle_frame b request).1 ≡ some reply)
      × (handle_frame a reply ≡ (a', none))
      × (a'.iface ≡ some ia')
      × (ia'.gateway_mac ≡ some ib.mac)
unfolding send_arp_request
resolve_gateway a b ia ib upa upb same = (
  Ethernet.build broadcast ia.mac ethertype_arp
      (Arp.build op_request ia.mac ia.ip (0, 0, 0, 0, 0, 0) ia.gateway),
  Ethernet.build ia.mac ib.mac ethertype_arp (Arp.build op_reply ib.mac ib.ip ia.mac ia.ip),
  record a { iface = some (record (arp_insert ia ib.ip ib.mac) { gateway_mac = some ib.mac }) },
  record (arp_insert ia ib.ip ib.mac) { gateway_mac = some ib.mac },
  ground arith,
  rw (← same) (
      ap (λ (o : Outcome). o.1)
        (handle_frame_request b ib broadcast ia.mac ia.mac ia.ip (0, 0, 0, 0, 0, 0) upb)),
  handle_frame_reply a ia ia.mac ib.mac ib.mac ib.ip ia.mac ia.ip upa
      (rw same (ip_eq_refl ia.gateway)),
  refl,
  refl,
)
