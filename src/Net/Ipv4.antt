-- ===== src/Net/Ipv4.antt =====
-- kernel/net/ipv4.rs: the IPv4 header. (`checksum` of that file is `Checksum.antt`.)
use light_os_orion_risc_v.Prelude.{
  ℕ, ◌+◌, ◌-◌, ◌*◌, ◌/◌, ◌%◌, ◌<◌, ◌≡◌, List, [], ◌∷◌, ◌++◌, Option, none, some, arith, ltb, not,
  min, ◌||◌, ◌==◌, if◌then◌else◌, length, get_or, take, take-length,
}
use light_os_orion_risc_v.Net.Wire.{Ip, put_ip, ip_at, put_be16, be16_at, from_be16, slice}
use light_os_orion_risc_v.Net.Checksum.{checksum}
use light_os_orion_risc_v.Net.Checksum.Sum.{AllBytes, checksum-lt, checksum_fills}

abbrev pub proto_icmp : ℕ
proto_icmp = 1

abbrev pub proto_udp : ℕ
proto_udp = 17

abbrev pub hdr_len : ℕ
hdr_len = 20

-- The header array with `csum` in bytes 10 and 11; `build` fills it with 0 first.
abbrev header : Ip → Ip → ℕ → ℕ → ℕ → ℕ → List ℕ
header src dst proto total ident csum =
    0x45
    ∷ 0x00
    ∷ put_be16 total
        (put_be16 ident (put_be16 0x4000 (64 ∷ proto ∷ put_be16 csum (put_ip src (put_ip dst [])))))

unfoldable pub build : Ip → Ip → ℕ → List ℕ → ℕ → List ℕ
build src dst proto payload ident =
    let total = (hdr_len + length payload) % 65536 in
    let csum = checksum (header src dst proto total ident 0) in
    header src dst proto total ident csum ++ payload

pub record Ipv4 : Type 0 where
  pub src : Ip
  pub dst : Ip
  pub proto : ℕ
  pub payload : List ℕ

unfoldable pub parse : List ℕ → Option Ipv4
parse pkt =
    let first = get_or pkt 0 0 in
    let ihl = first % 16 * 4 in
    let total = be16_at pkt 2 in
    let end = min total (length pkt) in
    if ltb (length pkt) hdr_len || not (first / 16 == 4)
    then none
    else if ltb ihl hdr_len || ltb (length pkt) ihl
    then none
    else if ltb end ihl
    then none
    else some (record {
      src = ip_at pkt 12;
      dst = ip_at pkt 16;
      proto = get_or pkt 9 0;
      payload = slice pkt ihl end;
    })

-- A packet that was built parses to what it was built from, if its length fits the sixteen-bit
-- field of the header.
pub parse-build_ipv4 :
    (src dst : Ip) (proto : ℕ) (payload : List ℕ) (ident : ℕ)
    → hdr_len + length payload < 65536
    → parse (build src dst proto payload ident)
      ≡ some (record { src = src; dst = dst; proto = proto; payload = payload })
unfolding parse build
parse-build_ipv4 src dst proto payload ident h = ground (
  arith,
  take-length payload (
      min
        (from_be16 ((hdr_len + length payload) % 65536 / 256 % 256)
          ((hdr_len + length payload) % 65536 % 256))
        (20 + length payload)
      - 20),
)

-- The header of a packet that was built from bytes and a 16-bit identification verifies: its
-- checksum is 0.
pub checksum-build_ipv4 :
    (src dst : Ip) (proto : ℕ) (payload : List ℕ) (ident : ℕ)
    → AllBytes (put_ip src (put_ip dst (proto ∷ [])))
    → ident < 65536
    → checksum (take hdr_len (build src dst proto payload ident)) ≡ 0
unfolding build
checksum-build_ipv4 src dst proto payload ident bytes h =
    let total : ℕ = (hdr_len + length payload) % 65536 in
    let zeroed : List ℕ = header src dst proto total ident 0 in
    let c : ℕ = checksum zeroed in
    let c_lt : c < 65536 = checksum-lt zeroed in
    checksum_fills zeroed (header src dst proto total ident c) (omega arith) (omega arith)
      (omega arith) (omega arith) (omega arith)
