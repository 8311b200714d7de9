-- ===== src/Net/Udp.antt =====
-- kernel/net/udp.rs: UDP datagrams with the checksum over the IPv4 pseudo-header.
use light_os_orion_risc_v.Prelude.{
  ℕ, ◌+◌, ◌-◌, ◌%◌, ◌/◌, ◌<◌, ◌≤◌, ◌≡◌, List, ◌∷◌, Option, none, some, arith, ltb, ◌==◌,
  if◌then◌else◌, length, min, max, take-length, ℕ_discrete,
}
use light_os_orion_risc_v.Net.Wire.{Ip, put_ip, put_be16, be16_at, from_be16, be16_round, slice}
use light_os_orion_risc_v.Net.Checksum.{checksum}
use light_os_orion_risc_v.Net.Checksum.Sum.{
  AllBytes, AllBytes-put_be16, IpBytes, AllBytes-put_ip, word_sum, checksum-lt, checksum_fills,
  checksum_fills_ones,
}
use light_os_orion_risc_v.Net.Ipv4.{proto_udp}

abbrev pub hdr_len : ℕ
hdr_len = 8

-- The datagram with `csum` in bytes 6 and 7; `build` fills it with 0 first.
abbrev datagram : ℕ → ℕ → ℕ → ℕ → List ℕ → List ℕ
datagram src_port dst_port len csum payload =
    put_be16 src_port (put_be16 dst_port (put_be16 len (put_be16 csum payload)))

-- What the checksum spans: a pseudo-header, then the datagram.
abbrev pub pseudo : Ip → Ip → ℕ → List ℕ → List ℕ
pseudo src_ip dst_ip len dgram = put_ip src_ip (put_ip dst_ip (0 ∷ proto_udp ∷ put_be16 len dgram))

-- A checksum of 0 would mean "none", and goes out as all ones.
abbrev nonzero : ℕ → ℕ
nonzero csum = if csum == 0 then 0xffff else csum

nonzero_range : (csum : ℕ) → csum < 65536 → (0 < nonzero csum) × (nonzero csum < 65536)
nonzero_range csum h = ground arith

unfoldable pub build : Ip → Ip → ℕ → ℕ → List ℕ → List ℕ
build src_ip dst_ip src_port dst_port payload =
    let len = (hdr_len + length payload) % 65536 in
    let csum = checksum (pseudo src_ip dst_ip len (datagram src_port dst_port len 0 payload)) in
    datagram src_port dst_port len (nonzero csum) payload

pub record Udp : Type 0 where
  pub src_port : ℕ
  pub dst_port : ℕ
  pub payload : List ℕ

unfoldable pub parse : List ℕ → Option Udp
parse bytes =
    if ltb (length bytes) hdr_len
    then none
    else some (record {
      src_port = be16_at bytes 0;
      dst_port = be16_at bytes 2;
      payload = slice bytes hdr_len (max hdr_len (min (be16_at bytes 4) (length bytes)));
    })

-- A datagram that was built parses to what it was built from, if the ports are below 65536 and its
-- length fits the sixteen-bit field of the header.
pub parse-build_udp :
    (src_ip dst_ip : Ip) (src_port dst_port : ℕ) (payload : List ℕ)
    → src_port < 65536
    → dst_port < 65536
    → hdr_len + length payload < 65536
    → parse (build src_ip dst_ip src_port dst_port payload)
      ≡ some (record { src_port = src_port; dst_port = dst_port; payload = payload })
unfolding parse build
parse-build_udp src_ip dst_ip src_port dst_port payload hs hd h = ground (
  arith,
  be16_round src_port hs,
  be16_round dst_port hd,
  take-length payload (
      max hdr_len (
        min
          (from_be16 ((hdr_len + length payload) % 65536 / 256 % 256)
            ((hdr_len + length payload) % 65536 % 256))
          (8 + length payload))
      - hdr_len),
)

module _ (src_ip dst_ip : Ip) (src_port dst_port : ℕ) (payload : List ℕ)
    (bytes : IpBytes src_ip × IpBytes dst_ip × AllBytes payload) (hs : src_port < 65536)
    (hd : dst_port < 65536) (h : hdr_len + length payload < 65536) where
  len : ℕ
  len = (hdr_len + length payload) % 65536

  spanned : ℕ → List ℕ
  spanned csum = pseudo src_ip dst_ip len (datagram src_port dst_port len csum payload)

  spanned-AllBytes : (csum : ℕ) → AllBytes (spanned csum)
  unfolding spanned
  spanned-AllBytes csum =
      let filled : List ℕ = put_be16 csum payload in
      let dgram : List ℕ = datagram src_port dst_port len csum payload in
      AllBytes-put_ip src_ip (put_ip dst_ip (0 ∷ proto_udp ∷ put_be16 len dgram)) bytes.0 (
        AllBytes-put_ip dst_ip (0 ∷ proto_udp ∷ put_be16 len dgram) bytes.1 (
          omega arith,
          (
            omega arith,
            AllBytes-put_be16 len dgram (
                AllBytes-put_be16 src_port (put_be16 dst_port (put_be16 len filled)) (
                  AllBytes-put_be16 dst_port (put_be16 len filled)
                    (AllBytes-put_be16 len filled (AllBytes-put_be16 csum payload bytes.2)))),
          ),
        ))

  word_sum-spanned :
      (csum : ℕ) → csum < 65536 → word_sum (spanned csum) ≡ word_sum (spanned 0) + csum
  unfolding spanned len
  word_sum-spanned csum lt = omega arith

  length-spanned : (csum : ℕ) → length (spanned csum) ≤ 131000
  unfolding spanned
  length-spanned csum = omega arith

  checksum-spanned : checksum (spanned (nonzero (checksum (spanned 0)))) ≡ 0
  checksum-spanned = elim (ℕ_discrete (checksum (spanned 0)) 0) [
    | yes none_needed ↦
        let c : nonzero (checksum (spanned 0)) ≡ 65535 = ground arith in
        rw c (
          checksum_fills_ones (spanned 0) (spanned 65535) (spanned-AllBytes 0)
            (spanned-AllBytes 65535) (length-spanned 0) (length-spanned 65535) none_needed
            (word_sum-spanned 65535 (omega arith)))
    | no some_needed ↦
        let c : nonzero (checksum (spanned 0)) ≡ checksum (spanned 0) = ground arith in
        rw c (
          checksum_fills (spanned 0) (spanned (checksum (spanned 0))) (spanned-AllBytes 0)
            (spanned-AllBytes _) (length-spanned 0) (length-spanned _)
            (word_sum-spanned _ (checksum-lt (spanned 0))))
  ]

-- A datagram that was built from bytes, with ports below 65536 and a length that fits the header,
-- verifies together with its pseudo-header, and never carries the checksum 0.
pub checksum-build_udp :
    (src_ip dst_ip : Ip) (src_port dst_port : ℕ) (payload : List ℕ)
    → IpBytes src_ip × IpBytes dst_ip × AllBytes payload
    → src_port < 65536
    → dst_port < 65536
    → hdr_len + length payload < 65536
    → let dgram = build src_ip dst_ip src_port dst_port payload in
      (checksum (pseudo src_ip dst_ip (length dgram) dgram) ≡ 0) × (0 < be16_at dgram 6)
unfolding build len spanned
checksum-build_udp src_ip dst_ip src_port dst_port payload bytes hs hd h =
    let c : ℕ = checksum (spanned src_ip dst_ip src_port dst_port payload bytes hs hd h 0) in
    let range : (0 < nonzero c) × (nonzero c < 65536) =
      nonzero_range c
        (checksum-lt (spanned src_ip dst_ip src_port dst_port payload bytes hs hd h 0)) in
    let total : (8 + length payload) % 65536
        ≡ length (build src_ip dst_ip src_port dst_port payload) =
      omega arith in
    (
      rw (← total) (checksum-spanned src_ip dst_ip src_port dst_port payload bytes hs hd h),
      rw (be16_round (nonzero c) range.1) (range.0),
    )

pub length-build :
    (src_ip dst_ip : Ip) (src_port dst_port : ℕ) (payload : List ℕ)
    → length (build src_ip dst_ip src_port dst_port payload) ≡ 8 + length payload
unfolding build
length-build src_ip dst_ip src_port dst_port payload = omega arith
