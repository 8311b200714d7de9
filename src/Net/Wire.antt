-- ===== src/Net/Wire.antt =====
-- The fixed-size arrays and big-endian numbers that the modules of kernel/net share.
-- A byte is a number; where its range matters it is a hypothesis.
use light_os_orion_risc_v.Prelude.{
  ℕ, ◌+◌, ◌*◌, ◌/◌, ◌%◌, ◌<◌, ◌≡◌, Bool, true, ◌&&◌, List, ◌∷◌, arith, ◌==◌, get_or, take, drop,
  ◌-◌,
}

-- `[u8; 4]`
abbrev pub Ip : Type 0
Ip = ℕ × ℕ × ℕ × ℕ

-- `[u8; 6]`
abbrev pub Mac : Type 0
Mac = ℕ × ℕ × ℕ × ℕ × ℕ × ℕ

-- The bytes of an array in front of what follows it in a buffer.
abbrev pub put_ip : Ip → List ℕ → List ℕ
put_ip (a, b, c, d) rest = a ∷ b ∷ c ∷ d ∷ rest

abbrev pub put_mac : Mac → List ℕ → List ℕ
put_mac (a, b, c, d, e, f) rest = a ∷ b ∷ c ∷ d ∷ e ∷ f ∷ rest

-- `copy_from_slice(&buf[i..i + 4])`, and the same of six bytes.
abbrev pub ip_at : List ℕ → ℕ → Ip
ip_at buf i = let s = drop i buf in (get_or s 0 0, get_or s 1 0, get_or s 2 0, get_or s 3 0)

abbrev pub mac_at : List ℕ → ℕ → Mac
mac_at buf i =
    let s = drop i buf in
    (get_or s 0 0, get_or s 1 0, get_or s 2 0, get_or s 3 0, get_or s 4 0, get_or s 5 0)

-- The comparison of two addresses.
unfoldable pub ip_eq : Ip → Ip → Bool
ip_eq (a, b, c, d) (a', b', c', d') = a == a' && b == b' && c == c' && d == d'

-- `to_be_bytes` of a u16 in front of what follows it, and `from_be_bytes`.
abbrev pub put_be16 : ℕ → List ℕ → List ℕ
put_be16 n rest = (n / 256 % 256) ∷ (n % 256) ∷ rest

abbrev pub from_be16 : ℕ → ℕ → ℕ
from_be16 hi lo = hi * 256 + lo

abbrev pub be16_at : List ℕ → ℕ → ℕ
be16_at buf i = let s = drop i buf in from_be16 (get_or s 0 0) (get_or s 1 0)

-- `&buf[from..to]`
abbrev pub slice : List ℕ → ℕ → ℕ → List ℕ
slice buf from to = take (to - from) (drop from buf)

pub be16_round : (n : ℕ) → n < 65536 → from_be16 (n / 256 % 256) (n % 256) ≡ n
be16_round n h = omega arith

pub ip_eq-eq : (a b : Ip) → ip_eq a b ≡ true → a ≡ b
unfolding ip_eq
ip_eq-eq (a, b, c, d) (a', b', c', d') h = ground arith

pub ip_eq_refl : (a : Ip) → ip_eq a a ≡ true
unfolding ip_eq
ip_eq_refl (a, b, c, d) = ground arith
