-- ===== src/Net/Checksum.antt =====
-- The internet checksum of kernel/net/ipv4.rs.
pub mod Fold
pub mod Sum
use light_os_orion_risc_v.Prelude.{
  ℕ, zero, suc, ◌+◌, ◌-◌, ◌*◌, ◌/◌, ◌%◌, ◌^◌, List, [], ◌∷◌, ◌==◌, if◌then◌else◌,
}
use light_os_orion_risc_v.Net.Wire.{from_be16}

-- The two loops over the data: words of two bytes, then a last odd byte. A `u32` sum wraps.
pub sum_words : ℕ → List ℕ → ℕ
sum_words sum [] = sum
sum_words sum (a ∷ []) = (sum + a * 256) % 2 ^ 32
sum_words sum (a ∷ b ∷ rest) = sum_words ((sum + from_be16 a b) % 2 ^ 32) rest

-- `while sum >> 16 != 0 { sum = (sum & 0xffff) + (sum >> 16) }`, with fuel.
pub fold_carries : ℕ → ℕ → ℕ
fold_carries zero sum = sum
fold_carries (suc fuel) sum =
    let rest = fold_carries fuel ((sum % 65536 + sum / 65536) % 2 ^ 32) in
    if sum / 65536 == 0 then sum else rest

-- `!(sum as u16)`. Three rounds of the loop are enough for any `u32`.
pub checksum : List ℕ → ℕ
checksum bytes = 65535 - fold_carries 3 (sum_words 0 bytes) % 65536
