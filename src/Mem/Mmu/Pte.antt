-- ===== src/Mem/Mmu/Pte.antt =====
-- The page-table entries of kernel/mem/mmu.rs: what the address and the bits of an entry are.
use Prim.Native.Nat.{bit_and, bit_or}
use light_os_orion_risc_v.Prelude.{
  ℕ, zero, suc, ◌+◌, ◌*◌, ◌/◌, ◌%◌, ◌^◌, ◌<◌, ◌≡◌, refl, true, false, arith,
}
use light_os_orion_risc_v.Prelude.Bits.{
  bit_and_step, bit_or_step, bit_and-one, bit_and-ones, bit_or-zero, low,
}
use light_os_orion_risc_v.Mem.Layout.{usize_mod}
use light_os_orion_risc_v.Mem.Mmu.{
  entry, valid, pte_pa, table_pte, leaf_pte, vpn, pte_r, pte_w, pte_x,
}

-- The part of a word above bit `k`.
abbrev above : ℕ → ℕ → ℕ
above zero x = x
above (suc k) x = above k (x / 2)

or_above : (k a b : ℕ) → above k b ≡ 0 → above k (bit_or a b) ≡ above k a
or_above zero a b h = rw (h, bit_or-zero a) refl
or_above (suc k) a b h =
    let e : bit_or a b / 2 ≡ bit_or (a / 2) (b / 2) = omega (arith, bit_or_step a b) in
    rw e (or_above k (a / 2) (b / 2) h)

-- A bit-wise or with less than 2^10 does not reach the page number.
or_below : (a b : ℕ) → b < 1024 → bit_or a b / 1024 ≡ a / 1024
or_below a b h = omega (arith, or_above 10 a b (omega arith))

pub valid_odd : (pte : ℕ) → pte % 2 ≡ 1 → valid pte ≡ true
unfolding valid
valid_odd pte h = ground (arith, bit_and-one pte)

pub pte_pa-table_pte : (pa : ℕ) → pa % 4096 ≡ 0 → pa < usize_mod → pte_pa (table_pte pa) ≡ pa
unfolding pte_pa table_pte
pte_pa-table_pte pa al h = omega (arith, or_below (pa / 4096 * 1024) 1 (omega arith))

pub valid-table_pte : (pa : ℕ) → valid (table_pte pa) ≡ true
unfolding table_pte
valid-table_pte pa =
    let w : ℕ = pa / 2 ^ 12 * 2 ^ 10 in valid_odd (bit_or w 1) (omega (arith, bit_or_step w 1))

-- An entry that points to a table is no leaf.
pub table_pte-inner : (pa : ℕ) → bit_and (table_pte pa) (pte_r + pte_w + pte_x) ≡ 0
unfolding table_pte
table_pte-inner pa =
    let w : ℕ = pa / 2 ^ 12 * 2 ^ 10 in
    let half : bit_or w 1 / 2 ≡ w / 2 = omega (arith, bit_or_step w 1, bit_or-zero (w / 2)) in
    let rest : bit_and (bit_or w 1 / 2) 7 ≡ low 3 (w / 2) = rw half (bit_and-ones 3 (w / 2)) in
    omega (arith, bit_and_step (bit_or w 1) 14, rest)

pub valid-leaf_pte : (pa flags : ℕ) → valid (leaf_pte pa flags) ≡ true
unfolding leaf_pte
valid-leaf_pte pa flags =
    let w : ℕ = bit_or (bit_or (bit_or (pa / 2 ^ 12 * 2 ^ 10) flags) 64) 128 in
    valid_odd (bit_or w 1) (omega (arith, bit_or_step w 1))

pub pte_pa-leaf_pte :
    (pa flags : ℕ) → pa % 4096 ≡ 0 → pa < usize_mod → flags < 1024 → pte_pa (leaf_pte pa flags) ≡ pa
unfolding pte_pa leaf_pte
pte_pa-leaf_pte pa flags al h lt =
    let w : ℕ = pa / 2 ^ 12 * 2 ^ 10 in
    let w1 : ℕ = bit_or w flags in
    let w2 : ℕ = bit_or w1 64 in
    omega (
      arith,
      or_below w flags lt,
      or_below w1 64 (omega arith),
      or_below w2 128 (omega arith),
      or_below (bit_or w2 128) 1 (omega arith),
    )

pub valid-zero : valid 0 ≡ false
unfolding valid
valid-zero = refl

pub vpn_lem : (va level : ℕ) → vpn va level ≡ low 9 (va / 2 ^ (12 + 9 * level))
unfolding vpn
vpn_lem va level = bit_and-ones 9 (va / 2 ^ (12 + 9 * level))

pub vpn-lt : (va level : ℕ) → vpn va level < 512
vpn-lt va level = omega (arith, vpn_lem va level)

-- Entries of different tables, or different entries of one, are different words.
pub entry_eq :
    (t s i j : ℕ)
    → t % 4096 ≡ 0
    → s % 4096 ≡ 0
    → i < 512
    → j < 512
    → entry t i / 8 ≡ entry s j / 8
    → (t ≡ s) × (i ≡ j)
unfolding entry
entry_eq t s i j ht hs hi hj e = (omega arith, omega arith)

pub pte_pa-aligned : (pte : ℕ) → pte_pa pte % 4096 ≡ 0
unfolding pte_pa
pte_pa-aligned pte = omega arith
