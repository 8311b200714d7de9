-- ===== src/Net/Ethernet.antt =====
-- kernel/net/ethernet.rs: Ethernet II framing.
use light_os_orion_risc_v.Prelude.{
  ℕ, ◌<◌, ◌≡◌, List, Option, none, some, arith, ltb, if◌then◌else◌, length, drop,
}
use light_os_orion_risc_v.Net.Wire.{Mac, put_mac, mac_at, put_be16, be16_at, be16_round}

abbrev pub ethertype_ipv4 : ℕ
ethertype_ipv4 = 0x0800

abbrev pub ethertype_arp : ℕ
ethertype_arp = 0x0806

abbrev pub broadcast : Mac
broadcast = (0xff, 0xff, 0xff, 0xff, 0xff, 0xff)

abbrev pub hdr_len : ℕ
hdr_len = 14

pub record Frame : Type 0 where
  pub dst : Mac
  pub src : Mac
  pub ethertype : ℕ
  pub payload : List ℕ

unfoldable pub build : Mac → Mac → ℕ → List ℕ → List ℕ
build dst src ethertype payload = put_mac dst (put_mac src (put_be16 ethertype payload))

unfoldable pub parse : List ℕ → Option Frame
parse frame =
    if ltb (length frame) hdr_len
    then none
    else some (record {
      dst = mac_at frame 0;
      src = mac_at frame 6;
      ethertype = be16_at frame 12;
      payload = drop hdr_len frame;
    })

-- A frame that was built parses to what it was built from, if the type is below 65536.
pub parse-build_frame :
    (dst src : Mac) (ethertype : ℕ) (payload : List ℕ)
    → ethertype < 65536
    → parse (build dst src ethertype payload)
      ≡ some (record { dst = dst; src = src; ethertype = ethertype; payload = payload })
unfolding parse build
parse-build_frame dst src ethertype payload h = ground (arith, be16_round ethertype h)
