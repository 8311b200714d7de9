-- ===== src/Net/Iface/Tests.antt =====
-- Runs and instances for the interface (kernel/net/mod.rs): two machines on one wire, the second
-- being the gateway of the first.
use light_os_orion_risc_v.Prelude.{ℕ, ◌≡◌, refl, none, some, List, [], ◌∷◌, arith}
use light_os_orion_risc_v.Net.Wire.{Mac}
use light_os_orion_risc_v.Net.Socket
use light_os_orion_risc_v.Net.Socket.Inv.{table-IsValid}
use light_os_orion_risc_v.Net.Iface.{
  Iface, NetState, our_ip, gateway_ip, init, handle_frame, send_arp_request, send_ping, sent,
  send_udp,
}
use light_os_orion_risc_v.Net.Iface.Cache.{NetValid, handle_frame-NetValid}
use light_os_orion_risc_v.Net.Iface.Reply.{resolve_gateway}
use light_os_orion_risc_v.Net.Iface.Ping.{ping_round_trip, send_udp_delivered}

abbrev host_mac : Mac
host_mac = (0x52, 0x54, 0, 0x12, 0x34, 0x56)

abbrev gateway_mac : Mac
gateway_mac = (0x52, 0x55, 10, 0, 2, 2)

abbrev host_iface : Iface
host_iface = record (init host_mac) { gateway_mac = some gateway_mac }

abbrev gateway_iface : Iface
gateway_iface = record (init gateway_mac) { ip = gateway_ip }

abbrev host : NetState
host = record { iface = some host_iface; ident = 65535; sockets = Socket.table }

abbrev gateway : NetState
gateway = record { iface = some gateway_iface; ident = 1; sockets = Socket.table }

host-NetValid : NetValid host
unfolding init
host-NetValid = record { cache = omega arith; ident_u16 = omega arith; table = table-IsValid }

handle_frame-NetValid_example : NetValid (handle_frame host (1 ∷ 2 ∷ [])).0
handle_frame-NetValid_example = handle_frame-NetValid host (1 ∷ 2 ∷ []) host-NetValid

resolve_gateway_example :
    (request reply : List ℕ) × (a : NetState) × (i : Iface) × (send_arp_request host gateway_ip
      ≡ some request)
    × ((handle_frame gateway request).1 ≡ some reply)
    × (handle_frame host reply ≡ (a, none))
    × (a.iface ≡ some i)
    × (i.gateway_mac ≡ some gateway_mac)
unfolding init
resolve_gateway_example = resolve_gateway host gateway host_iface gateway_iface refl refl refl

ping_round_trip_example :
    (request reply : List ℕ) × (a₁ a₂ : NetState) × (send_ping host gateway_ip gateway_mac 7
      ≡ (a₁, some request))
    × ((handle_frame gateway request).1 ≡ some reply)
    × (handle_frame a₁ reply ≡ (a₂, none))
    × (a₂.iface ≡ some (record host_iface { ping_replies = 1 }))
unfolding init
ping_round_trip_example =
    ping_round_trip host gateway host_iface gateway_iface 7 refl refl refl (omega arith)

send_udp_delivered_example :
    (frame : List ℕ) × (send_udp host gateway_ip 53 7000 (1 ∷ 2 ∷ [])
      ≡ (record host { ident = 0 }, sent frame))
    × (handle_frame gateway frame ≡ (
      record gateway {
        sockets =
            Socket.deliver gateway.sockets 53
              (record { src_ip = our_ip; src_port = 7000; bytes = 1 ∷ 2 ∷ [] });
      },
      none,
    ))
unfolding init
send_udp_delivered_example =
    send_udp_delivered host gateway host_iface gateway_iface gateway_mac 53 7000 (1 ∷ 2 ∷ []) refl
      refl refl (omega arith) (omega arith) (omega arith)
