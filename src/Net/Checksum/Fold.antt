-- ===== src/Net/Checksum/Fold.antt =====
-- The loop that folds the carries into the low sixteen bits (kernel/net/ipv4.rs, `checksum`).
use light_os_orion_risc_v.Prelude.{
  ℕ, zero, suc, ◌+◌, ◌-◌, ◌/◌, ◌%◌, ◌^◌, ◌≤◌, ◌<◌, ◌≡◌, ◌⊎◌, inl, inr, sym, ◌∙◌, dec_lt, arith,
}
use light_os_orion_risc_v.Net.Checksum.{fold_carries}

-- One's-complement reduction to sixteen bits.
abbrev pub reduce : ℕ → ℕ
reduce zero = 0
reduce (suc n) = n % 65535 + 1

reduce_lem : (n : ℕ) → n < 65536 → reduce n ≡ n
reduce_lem zero h = omega arith
reduce_lem (suc n) h = omega arith

reduce_pos : (n : ℕ) → 0 < n → reduce n ≡ (n - 1) % 65535 + 1
reduce_pos zero h = absurd (omega arith)
reduce_pos (suc n) h = omega arith

-- One round of the loop.
abbrev round : ℕ → ℕ
round sum = (sum % 65536 + sum / 65536) % 2 ^ 32

reduce-round : (sum : ℕ) → sum < 2 ^ 32 → reduce (round sum) ≡ reduce sum
reduce-round zero h = omega arith
reduce-round (suc n) h = omega (arith, reduce_pos (round (suc n)) (omega arith))

fold_carries_done : (fuel sum : ℕ) → sum < 65536 → fold_carries fuel sum ≡ sum
unfolding fold_carries
fold_carries_done zero sum h = omega arith
fold_carries_done (suc fuel) sum h = ground arith

fold_carries_step :
    (fuel sum : ℕ) → 65536 ≤ sum → fold_carries (suc fuel) sum ≡ fold_carries fuel (round sum)
unfolding fold_carries
fold_carries_step fuel sum h = ground arith

-- With `k` rounds for a sum that `k` rounds bring below 2 ^ 16 the loop has ended.
abbrev Settles : ℕ → ℕ → Type 0
Settles zero sum = sum < 65536
Settles (suc k) sum = (sum < 65536) ⊎ ((sum < 2 ^ 32) × Settles k (round sum))

fold_carries-Settles : (k sum : ℕ) → Settles k sum → fold_carries k sum ≡ reduce sum
fold_carries-Settles zero sum h = fold_carries_done zero sum h ∙ sym (reduce_lem sum h)
fold_carries-Settles (suc k) sum (inl h) = fold_carries_done (suc k) sum h ∙ sym (reduce_lem sum h)
fold_carries-Settles (suc k) sum (inr (small, h)) = elim (dec_lt sum 65536) [
  | yes done ↦ fold_carries_done (suc k) sum done ∙ sym (reduce_lem sum done)
  | no more ↦
      fold_carries_step k sum (omega arith)
      ∙ fold_carries-Settles k (round sum) h
      ∙ reduce-round sum small
]

three_rounds : (sum : ℕ) → sum < 2 ^ 32 → Settles 3 sum
three_rounds sum h = inr (h, inr (omega arith, inr (omega arith, omega arith)))

-- Three rounds end the loop for every `u32`: what is left is the sum reduced to sixteen bits.
pub fold_carries-reduce : (sum : ℕ) → sum < 2 ^ 32 → fold_carries 3 sum ≡ reduce sum
fold_carries-reduce sum h = fold_carries-Settles 3 sum (three_rounds sum h)

pub reduce-lt : (n : ℕ) → reduce n < 65536
reduce-lt zero = omega arith
reduce-lt (suc n) = omega arith

-- A sum that is completed by the complement of its reduction reduces to all ones.
pub reduce-complement : (n : ℕ) → reduce (n + (65535 - reduce n)) ≡ 65535
reduce-complement zero = omega arith
reduce-complement (suc n) =
    omega (arith, reduce_pos (suc n + (65535 - (n % 65535 + 1))) (omega arith))

-- So does a sum whose reduction is all ones already, completed by all ones.
pub reduce_ones : (n : ℕ) → reduce n ≡ 65535 → reduce (n + 65535) ≡ 65535
reduce_ones zero h = absurd (omega arith)
reduce_ones (suc n) h = omega (arith, reduce_pos (suc n + 65535) (omega arith))
