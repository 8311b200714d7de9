-- ===== src/Net/Tests.antt =====
-- Instances for the frame formats of kernel/net.
use light_os_orion_risc_v.Prelude.{ℕ, ◌<◌, ◌≡◌, some, List, [], ◌∷◌, arith, length}
use light_os_orion_risc_v.Net.Wire.{Ip, Mac, be16_at}
use light_os_orion_risc_v.Net.Checksum.{checksum}
use light_os_orion_risc_v.Net.Udp

abbrev host : Ip
host = (10, 0, 2, 15)

abbrev gateway : Ip
gateway = (10, 0, 2, 2)

abbrev host_mac : Mac
host_mac = (0x52, 0x54, 0, 0x12, 0x34, 0x56)

abbrev gateway_mac : Mac
gateway_mac = (0x52, 0x55, 10, 0, 2, 2)

-- An odd number of bytes, so that the checksum pads.
abbrev bytes : List ℕ
bytes = 0x41 ∷ 0xff ∷ 0 ∷ 7 ∷ 0x80 ∷ []

parse-build_udp_example :
    Udp.parse (Udp.build host gateway 49152 53 bytes)
    ≡ some (record { src_port = 49152; dst_port = 53; payload = bytes })
parse-build_udp_example =
    Udp.parse-build_udp host gateway 49152 53 bytes (omega arith) (omega arith) (omega arith)

checksum-build_udp_example :
    let dgram = Udp.build host gateway 49152 53 bytes in
    (checksum (Udp.pseudo host gateway (length dgram) dgram) ≡ 0) × (0 < be16_at dgram 6)
checksum-build_udp_example =
    Udp.checksum-build_udp host gateway 49152 53 bytes (ground arith) (omega arith) (omega arith)
      (omega arith)
