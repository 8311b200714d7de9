-- ===== src/Net/Arp.antt =====
-- kernel/net/arp.rs: ARP packets for IPv4 over Ethernet.
use light_os_orion_risc_v.Prelude.{
  ℕ, ◌<◌, ◌≡◌, List, [], ◌∷◌, Option, none, some, arith, ltb, not, ◌||◌, ◌==◌, if◌then◌else◌,
  length,
}
use light_os_orion_risc_v.Net.Wire.{
  Ip, Mac, put_ip, put_mac, ip_at, mac_at, put_be16, be16_at, be16_round,
}

abbrev pub op_request : ℕ
op_request = 1

abbrev pub op_reply : ℕ
op_reply = 2

abbrev pub htype_ethernet : ℕ
htype_ethernet = 1

abbrev pub ptype_ipv4 : ℕ
ptype_ipv4 = 0x0800

pub record Arp : Type 0 where
  pub op : ℕ
  pub sender_mac : Mac
  pub sender_ip : Ip
  pub target_ip : Ip

unfoldable pub build : ℕ → Mac → Ip → Mac → Ip → List ℕ
build op sender_mac sender_ip target_mac target_ip = put_be16 htype_ethernet (
    put_be16 ptype_ipv4 (
      6
      ∷ 4
      ∷ put_be16 op
          (put_mac sender_mac (put_ip sender_ip (put_mac target_mac (put_ip target_ip []))))))

unfoldable pub parse : List ℕ → Option Arp
parse payload =
    if ltb (length payload) 28
    then none
    else if not (be16_at payload 0 == htype_ethernet) || not (be16_at payload 2 == ptype_ipv4)
    then none
    else some (record {
      op = be16_at payload 6;
      sender_mac = mac_at payload 8;
      sender_ip = ip_at payload 14;
      target_ip = ip_at payload 24;
    })

-- A packet that was built parses to what it was built from, if the operation is below 65536.
pub parse-build_arp :
    (op : ℕ) (sender_mac : Mac) (sender_ip : Ip) (target_mac : Mac) (target_ip : Ip)
    → op < 65536
    → parse (build op sender_mac sender_ip target_mac target_ip)
      ≡ some (record {
        op = op;
        sender_mac = sender_mac;
        sender_ip = sender_ip;
        target_ip = target_ip;
      })
unfolding parse build
parse-build_arp op sender_mac sender_ip target_mac target_ip h = ground (arith, be16_round op h)
