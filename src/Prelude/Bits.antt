-- ===== src/Prelude/Bits.antt =====
-- The bits of a machine word, and what the native bitwise operations do to them.
use Prim.Native.Nat.{
  ℕ, zero, suc, ◌+◌, ◌-◌, ◌*◌, ◌/◌, ◌%◌, ◌^◌, ◌≤◌, ◌<◌, min, max, bit_and, bit_or, digits,
  bit_and-bitwise, bit_or-bitwise,
}
use mathlib.Core.Path.{◌≡◌, refl, ◌∙◌}
use mathlib.Core.Logic.{◌≢◌}
use native.Mathlib.Omega.{arith}
use native.Mathlib.Nat.{pow-suc}
use native.Mathlib.Decide.{ℕ_discrete}

module _ (last : ℕ → ℕ) (op : ℕ → ℕ → ℕ) where
  digits_of_zero : (n b : ℕ) → digits last op n 0 b ≡ last b
  digits_of_zero zero b = refl
  digits_of_zero (suc n) b = refl

  -- A number has no more digits than its value, so that much fuel gives what any more does.
  enough : (k n a b : ℕ) → n ≤ k → a ≤ n → digits last op n a b ≡ digits last op a a b
  enough k n zero b hk h = digits_of_zero n b
  enough k zero (suc a) b hk h = absurd (omega arith)
  enough zero (suc n) (suc a) b hk h = absurd (omega arith)
  enough (suc k) (suc n) (suc a) b hk h =
      let half : ℕ = suc a / 2 in
      let by_n = enough k n half (b / 2) (omega arith) (omega arith) in
      let by_a = enough k a half (b / 2) (omega arith) (omega arith) in omega arith

-- The lowest digit of `bit_and`, and the rest.
pub bit_and_step : (a b : ℕ) → bit_and a b ≡ bit_and (a / 2) (b / 2) * 2 + min (a % 2) (b % 2)
bit_and_step zero b = omega (arith, bit_and-bitwise 0 (b / 2), bit_and-bitwise 0 b)
bit_and_step (suc a) b =
    let fuel = enough (λ x. 0) min a a (suc a / 2) (b / 2) (omega arith) (omega arith) in
    omega (arith, bit_and-bitwise (suc a / 2) (b / 2), bit_and-bitwise (suc a) b)

-- The same of `bit_or`.
pub bit_or_step : (a b : ℕ) → bit_or a b ≡ bit_or (a / 2) (b / 2) * 2 + max (a % 2) (b % 2)
bit_or_step zero b = omega (arith, bit_or-bitwise 0 (b / 2), bit_or-bitwise 0 b)
bit_or_step (suc a) b =
    let fuel = enough (λ x. x) max a a (suc a / 2) (b / 2) (omega arith) (omega arith) in
    omega (arith, bit_or-bitwise (suc a / 2) (b / 2), bit_or-bitwise (suc a) b)

-- Bit `i` of a word, `w >> i & 1`.
abbrev pub bit : ℕ → ℕ → ℕ
bit w zero = w % 2
bit w (suc i) = bit (w / 2) i

pub bit_le : (w i : ℕ) → bit w i ≤ 1
bit_le w zero = omega arith
bit_le w (suc i) = bit_le (w / 2) i

pub bit-bit_and : (i a b : ℕ) → bit (bit_and a b) i ≡ min (bit a i) (bit b i)
bit-bit_and zero a b = omega (arith, bit_and_step a b)
bit-bit_and (suc i) a b =
    let e : bit_and a b / 2 ≡ bit_and (a / 2) (b / 2) = omega (arith, bit_and_step a b) in
    rw e (bit-bit_and i (a / 2) (b / 2))

pub bit-bit_or : (i a b : ℕ) → bit (bit_or a b) i ≡ max (bit a i) (bit b i)
bit-bit_or zero a b = omega (arith, bit_or_step a b)
bit-bit_or (suc i) a b =
    let e : bit_or a b / 2 ≡ bit_or (a / 2) (b / 2) = omega (arith, bit_or_step a b) in
    rw e (bit-bit_or i (a / 2) (b / 2))

pow_half : (k : ℕ) → (2 ^ suc k / 2 ≡ 2 ^ k) × (2 ^ suc k % 2 ≡ 0)
pow_half k = (omega (arith, pow-suc 2 k), omega (arith, pow-suc 2 k))

pub zero-bit : (i : ℕ) → bit 0 i ≡ 0
zero-bit zero = refl
zero-bit (suc i) = zero-bit i

pub bit-pow_self : (k : ℕ) → bit (2 ^ k) k ≡ 1
bit-pow_self zero = refl
bit-pow_self (suc k) = rw ((pow_half k).0) (bit-pow_self k)

pub bit-pow_ne : (k i : ℕ) → k ≢ i → bit (2 ^ k) i ≡ 0
bit-pow_ne zero zero h = absurd (h refl)
bit-pow_ne zero (suc i) h = zero-bit i
bit-pow_ne (suc k) zero h = (pow_half k).1
bit-pow_ne (suc k) (suc i) h = rw ((pow_half k).0) (bit-pow_ne k i (omega arith))

bit_and-zero_below : (bound a : ℕ) → a < bound → bit_and a 0 ≡ 0
bit_and-zero_below zero a h = elim h [ ]
bit_and-zero_below (suc bound) a h = elim (ℕ_discrete a 0) [
  | yes none_left ↦ rw none_left refl
  | no more ↦ omega (arith, bit_and-zero_below bound (a / 2) (omega arith), bit_and_step a 0)
]

pub bit_and-zero : (a : ℕ) → bit_and a 0 ≡ 0
bit_and-zero a = bit_and-zero_below (a + 1) a (omega arith)

-- The mask 1 keeps the lowest bit.
pub bit_and-one : (a : ℕ) → bit_and a 1 ≡ a % 2
bit_and-one a = omega (arith, bit_and_step a 1, bit_and-zero (a / 2))

-- The test `w & (1 << k)` reads bit `k`.
pub bit_and-pow : (k w : ℕ) → bit_and w (2 ^ k) ≡ bit w k * 2 ^ k
bit_and-pow zero w = omega (arith, bit_and-one w)
bit_and-pow (suc k) w =
    let e : 2 ^ suc k ≡ 2 * 2 ^ k = omega (arith, pow-suc 2 k) in
    let h : 2 * 2 ^ k / 2 ≡ 2 ^ k = omega arith in
    rw e (rw (bit_and_step w (2 * 2 ^ k), h, bit_and-pow k (w / 2)) (omega arith))

pub pow_pos : (k : ℕ) → 0 < 2 ^ k
pow_pos zero = omega arith
pow_pos (suc k) = omega (arith, pow-suc 2 k, pow_pos k)

-- `!x` of a w-bit word.
abbrev pub complement : ℕ → ℕ → ℕ
complement w x = 2 ^ w - 1 - x

pub bit-complement : (w x i : ℕ) → x < 2 ^ w → i < w → bit (complement w x) i ≡ 1 - bit x i
bit-complement zero x i h lt = absurd (omega arith)
bit-complement (suc w) x zero h lt = omega (arith, pow-suc 2 w)
bit-complement (suc w) x (suc i) h lt =
    let e : (2 ^ suc w - 1 - x) / 2 ≡ 2 ^ w - 1 - x / 2 = omega (arith, pow-suc 2 w) in
    rw e (bit-complement w (x / 2) i (omega (arith, pow-suc 2 w)) (omega arith))

pub pow-lt : (w k : ℕ) → k < w → 2 ^ k < 2 ^ w
pow-lt zero k h = absurd (omega arith)
pow-lt (suc w) zero h = omega (arith, pow-suc 2 w, pow_pos w)
pow-lt (suc w) (suc k) h = omega (arith, pow-suc 2 w, pow-suc 2 k, pow-lt w k (omega arith))

bit_or-zero_below : (bound a : ℕ) → a < bound → bit_or a 0 ≡ a
bit_or-zero_below zero a h = elim h [ ]
bit_or-zero_below (suc bound) a h = elim (ℕ_discrete a 0) [
  | yes none_left ↦ rw none_left refl
  | no more ↦ omega (arith, bit_or-zero_below bound (a / 2) (omega arith), bit_or_step a 0)
]

pub bit_or-zero : (a : ℕ) → bit_or a 0 ≡ a
bit_or-zero a = bit_or-zero_below (a + 1) a (omega arith)

-- Words with no bit in common: `a << k | b` is a sum.
pub bit_or-shift : (k a b : ℕ) → b < 2 ^ k → bit_or (2 ^ k * a) b ≡ 2 ^ k * a + b
bit_or-shift zero a b h =
    let e : b ≡ 0 = omega arith in
    let e' : 1 * a ≡ a = omega arith in rw (e, e', bit_or-zero a) (omega arith)
bit_or-shift (suc k) a b h =
    let e : 2 ^ suc k * a ≡ 2 * (2 ^ k * a) = rw (pow-suc 2 k) (omega arith) in
    let half : 2 * (2 ^ k * a) / 2 ≡ 2 ^ k * a = omega arith in
    rw e (
      rw
        (
          bit_or_step (2 * (2 ^ k * a)) b,
          half,
          bit_or-shift k a (b / 2) (omega (arith, pow-suc 2 k)),
        )
        (omega arith))

-- The lowest `k` bits, bit by bit: `x % 2 ^ k` at a numeral `k`.
abbrev pub low : ℕ → ℕ → ℕ
low zero x = 0
low (suc k) x = low k (x / 2) * 2 + x % 2

-- The bits from `k` up, bit by bit: `x / 2 ^ k * 2 ^ k` at a numeral `k`.
abbrev pub high : ℕ → ℕ → ℕ
high zero x = x
high (suc k) x = high k (x / 2) * 2

-- The mask of `k` ones.
pub bit_and-ones : (k x : ℕ) → bit_and x (2 ^ k - 1) ≡ low k x
bit_and-ones zero x = bit_and-zero x
bit_and-ones (suc k) x =
    let half : (2 ^ suc k - 1) / 2 ≡ 2 ^ k - 1 = omega (arith, pow-suc 2 k, pow_pos k) in
    let odd : (2 ^ suc k - 1) % 2 ≡ 1 = omega (arith, pow-suc 2 k, pow_pos k) in
    rw (bit_and_step x (2 ^ suc k - 1), half, odd, bit_and-ones k (x / 2)) (omega arith)

low_all : (w x : ℕ) → x < 2 ^ w → low w x ≡ x
low_all zero x h = omega arith
low_all (suc w) x h = omega (arith, low_all w (x / 2) (omega (arith, pow-suc 2 w)))

-- The mask `!((1 << k) - 1)` of a w-bit word.
pub bit_and-complement :
    (k w x : ℕ) → k ≤ w → x < 2 ^ w → bit_and x (complement w (2 ^ k - 1)) ≡ high k x
bit_and-complement zero w x h lt =
    let e : 2 ^ w - 1 - 0 ≡ 2 ^ w - 1 = omega arith in rw e (bit_and-ones w x ∙ low_all w x lt)
bit_and-complement (suc k) zero x h lt = absurd (omega arith)
bit_and-complement (suc k) (suc w) x h lt =
    let m : ℕ = 2 ^ suc w - 1 - (2 ^ suc k - 1) in
    let half : m / 2 ≡ 2 ^ w - 1 - (2 ^ k - 1) =
      omega (arith, pow-suc 2 k, pow-suc 2 w, pow_pos k, pow_pos w) in
    let even : m % 2 ≡ 0 = omega (arith, pow-suc 2 k, pow-suc 2 w, pow_pos k, pow_pos w) in
    rw
      (
        bit_and_step x m,
        half,
        even,
        bit_and-complement k w (x / 2) (omega arith) (omega (arith, pow-suc 2 w)),
      )
      (omega arith)

-- What a mask of the lower bits leaves is the next multiple of the power at or below the word.
pub high_bounds : (k x : ℕ) → (high k x ≤ x) × (x < high k x + 2 ^ k)
high_bounds zero x = (omega arith, omega arith)
high_bounds (suc k) x =
    let (below, above) = high_bounds k (x / 2) in (omega arith, omega (arith, pow-suc 2 k))

pub high_multiple : (k x : ℕ) → (q : ℕ) × (high k x ≡ 2 ^ k * q)
high_multiple zero x = (x, omega arith)
high_multiple (suc k) x =
    let (q, e) = high_multiple k (x / 2) in (q, rw (e, pow-suc 2 k) (omega arith))
