-- ===== src/Net/Icmp.antt =====
-- kernel/net/icmp.rs: ICMP echo messages.
use light_os_orion_risc_v.Prelude.{
  ℕ, ◌+◌, ◌<◌, ◌≤◌, ◌≡◌, List, ◌∷◌, Option, none, some, arith, ltb, if◌then◌else◌, length, get_or,
  drop,
}
use light_os_orion_risc_v.Net.Wire.{put_be16, be16_at, be16_round}
use light_os_orion_risc_v.Net.Checksum.{checksum}
use light_os_orion_risc_v.Net.Checksum.Sum.{
  AllBytes, AllBytes-put_be16, checksum-lt, checksum_fills,
}

abbrev pub type_echo_request : ℕ
type_echo_request = 8

abbrev pub type_echo_reply : ℕ
type_echo_reply = 0

-- The message with `csum` in bytes 2 and 3; `build` fills it with 0 first.
abbrev message : ℕ → ℕ → ℕ → ℕ → List ℕ → List ℕ
message msg_type id seq csum payload =
    msg_type ∷ 0 ∷ put_be16 csum (put_be16 id (put_be16 seq payload))

unfoldable pub build : ℕ → ℕ → ℕ → List ℕ → List ℕ
build msg_type id seq payload =
    message msg_type id seq (checksum (message msg_type id seq 0 payload)) payload

pub record Icmp : Type 0 where
  pub msg_type : ℕ
  pub id : ℕ
  pub seq : ℕ
  pub payload : List ℕ

unfoldable pub parse : List ℕ → Option Icmp
parse bytes =
    if ltb (length bytes) 8
    then none
    else some (record {
      msg_type = get_or bytes 0 0;
      id = be16_at bytes 4;
      seq = be16_at bytes 6;
      payload = drop 8 bytes;
    })

-- A message that was built parses to what it was built from, if identifier and sequence number are
-- below 65536.
pub parse-build_icmp :
    (msg_type id seq : ℕ) (payload : List ℕ)
    → id < 65536
    → seq < 65536
    → parse (build msg_type id seq payload)
      ≡ some (record { msg_type = msg_type; id = id; seq = seq; payload = payload })
unfolding parse build
parse-build_icmp msg_type id seq payload hi hs = ground (arith, be16_round id hi, be16_round seq hs)

-- A message of at most 65535 bytes of payload that was built from bytes and 16-bit fields
-- verifies: its checksum is 0.
pub checksum-build_icmp :
    (msg_type id seq : ℕ) (payload : List ℕ)
    → msg_type < 256
    → id < 65536
    → seq < 65536
    → AllBytes payload
    → length payload ≤ 65535
    → checksum (build msg_type id seq payload) ≡ 0
unfolding build
checksum-build_icmp msg_type id seq payload ht hi hs bytes h =
    let zeroed : List ℕ = message msg_type id seq 0 payload in
    let c : ℕ = checksum zeroed in
    let c_lt : c < 65536 = checksum-lt zeroed in
    let rest : List ℕ = put_be16 id (put_be16 seq payload) in
    let body : AllBytes rest =
      AllBytes-put_be16 id (put_be16 seq payload) (AllBytes-put_be16 seq payload bytes) in
    checksum_fills zeroed (message msg_type id seq c payload)
      (ht, (omega arith, AllBytes-put_be16 0 rest body))
      (ht, (omega arith, AllBytes-put_be16 c rest body)) (omega arith) (omega arith) (omega arith)

pub length-build :
    (msg_type id seq : ℕ) (payload : List ℕ)
    → length (build msg_type id seq payload) ≡ 8 + length payload
unfolding build
length-build msg_type id seq payload = omega arith
