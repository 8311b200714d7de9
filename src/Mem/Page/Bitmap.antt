-- ===== src/Mem/Page/Bitmap.antt =====
-- What the updates of kernel/mem/page.rs do to the frames that the bitmap marks.
use Prim.Native.Nat.{bit_and, bit_or}
use light_os_orion_risc_v.Prelude.{
  ℕ, zero, suc, ◌+◌, ◌*◌, ◌/◌, ◌%◌, ◌^◌, ◌≤◌, ◌<◌, ◌≡◌, ◌≢◌, refl, ap, ◌∙◌, Bool, true, false, not,
  List, arith, ltb, leb, ◌&&◌, ◌==◌, if◌then◌else◌, get_or, length, length-set, get_or-set_self,
  get_or-set_ne, ℕ_discrete,
}
use light_os_orion_risc_v.Prelude.Bits.{
  bit, bit_le, bit_and-pow, bit-bit_or, bit-bit_and, bit-pow_self, bit-pow_ne, bit-complement,
  pow_pos, pow-lt, complement,
}
use light_os_orion_risc_v.Mem.Page.{is_used, set_used, set_free, mark_used, mark_free}

product-eq-zero : (v p : ℕ) → v ≤ 1 → 0 < p → (v * p == 0) ≡ (v == 0)
product-eq-zero zero p h pos = ground arith
product-eq-zero (suc zero) p h pos = ground arith
product-eq-zero (suc (suc v)) p h pos = absurd (omega arith)

-- The test of the code is the bit itself.
pub is_used-bit : (b : List ℕ) (f : ℕ) → is_used b f ≡ not (bit (get_or b (f / 64) 0) (f % 64) == 0)
unfolding is_used
is_used-bit b f =
    let w : ℕ = get_or b (f / 64) 0 in
    rw (bit_and-pow (f % 64) w) (
      ap not
        (product-eq-zero (bit w (f % 64)) (2 ^ (f % 64)) (bit_le w (f % 64)) (pow_pos (f % 64))))

pub length-set_used : (b : List ℕ) (f : ℕ) → length (set_used b f) ≡ length b
unfolding set_used
length-set_used b f = length-set b _ _

pub length-set_free : (b : List ℕ) (f : ℕ) → length (set_free b f) ≡ length b
unfolding set_free
length-set_free b f = length-set b _ _

bit-set_used : (w i j : ℕ) → bit (bit_or w (2 ^ i)) j ≡ (if i == j then 1 else bit w j)
bit-set_used w i j = elim (ℕ_discrete i j) [
  | yes e ↦ rw (← e) (ground (arith, bit-bit_or i w (2 ^ i), bit-pow_self i, bit_le w i))
  | no ne ↦ ground (arith, bit-bit_or j w (2 ^ i), bit-pow_ne i j ne)
]

bit-set_free_self : (w i : ℕ) → i < 64 → bit (bit_and w (complement 64 (2 ^ i))) i ≡ 0
bit-set_free_self w i h = omega (
  arith,
  bit-bit_and i w (complement 64 (2 ^ i)),
  bit-complement 64 (2 ^ i) i (pow-lt 64 i h) h,
  bit-pow_self i,
)

bit-set_free_ne :
    (w i j : ℕ) → i < 64 → j < 64 → i ≢ j → bit (bit_and w (complement 64 (2 ^ i))) j ≡ bit w j
bit-set_free_ne w i j hi hj ne = omega (
  arith,
  bit-bit_and j w (complement 64 (2 ^ i)),
  bit-complement 64 (2 ^ i) j (pow-lt 64 i hi) hj,
  bit-pow_ne i j ne,
  bit_le w j,
)

bit-set_free :
    (w i j : ℕ)
    → i < 64
    → j < 64
    → bit (bit_and w (complement 64 (2 ^ i))) j ≡ (if i == j then 0 else bit w j)
bit-set_free w i j hi hj = elim (ℕ_discrete i j) [
  | yes e ↦ rw (← e) (bit-set_free_self w i hi ∙ ground arith)
  | no ne ↦ ground (arith, bit-set_free_ne w i j hi hj ne)
]

-- Marking a frame changes the mark of that frame and of no other.
pub is_used-set_used :
    (b : List ℕ) (f g : ℕ)
    → f < 64 * length b
    → is_used (set_used b f) g ≡ (if f == g then true else is_used b g)
unfolding set_used
is_used-set_used b f g h =
    let w : ℕ = get_or b (f / 64) 0 in
    let v : ℕ = bit_or w (2 ^ (f % 64)) in
    elim (ℕ_discrete (f / 64) (g / 64)) [
      | yes e ↦
          rw
            (
              is_used-bit,
              is_used-bit,
              ← e,
              get_or-set_self b (f / 64) v 0 (omega arith),
              bit-set_used w (f % 64) (g % 64),
            )
            (ground arith)
      | no ne ↦
          rw (is_used-bit, is_used-bit, get_or-set_ne b (f / 64) (g / 64) v 0 ne) (ground arith)
    ]

-- Freeing a frame changes the mark of that frame and of no other.
pub is_used-set_free :
    (b : List ℕ) (f g : ℕ)
    → f < 64 * length b
    → is_used (set_free b f) g ≡ (if f == g then false else is_used b g)
unfolding set_free
is_used-set_free b f g h =
    let w : ℕ = get_or b (f / 64) 0 in
    let v : ℕ = bit_and w (complement 64 (2 ^ (f % 64))) in
    elim (ℕ_discrete (f / 64) (g / 64)) [
      | yes e ↦
          rw
            (
              is_used-bit,
              is_used-bit,
              ← e,
              get_or-set_self b (f / 64) v 0 (omega arith),
              bit-set_free w (f % 64) (g % 64) (omega arith) (omega arith),
            )
            (ground arith)
      | no ne ↦
          rw (is_used-bit, is_used-bit, get_or-set_ne b (f / 64) (g / 64) v 0 ne) (ground arith)
    ]

-- `g` is one of the `n` frames from `s` on.
abbrev pub in_run : ℕ → ℕ → ℕ → Bool
in_run s n g = leb s g && ltb g (s + n)

pub length-mark_used : (b : List ℕ) (s n : ℕ) → length (mark_used b s n) ≡ length b
unfolding mark_used
length-mark_used b s zero = refl
length-mark_used b s (suc n) = length-mark_used (set_used b s) (s + 1) n ∙ length-set_used b s

pub length-mark_free : (b : List ℕ) (s n : ℕ) → length (mark_free b s n) ≡ length b
unfolding mark_free
length-mark_free b s zero = refl
length-mark_free b s (suc n) = length-mark_free (set_free b s) (s + 1) n ∙ length-set_free b s

pub is_used-mark_used :
    (b : List ℕ) (s n g : ℕ)
    → s + n ≤ 64 * length b
    → is_used (mark_used b s n) g ≡ (if in_run s n g then true else is_used b g)
unfolding mark_used
is_used-mark_used b s zero g h = ground arith
is_used-mark_used b s (suc n) g h = ground (
  arith,
  is_used-mark_used (set_used b s) (s + 1) n g,
  is_used-set_used b s g,
  length-set_used b s,
)

pub is_used-mark_free :
    (b : List ℕ) (s n g : ℕ)
    → s + n ≤ 64 * length b
    → is_used (mark_free b s n) g ≡ (if in_run s n g then false else is_used b g)
unfolding mark_free
is_used-mark_free b s zero g h = ground arith
is_used-mark_free b s (suc n) g h = ground (
  arith,
  is_used-mark_free (set_free b s) (s + 1) n g,
  is_used-set_free b s g,
  length-set_free b s,
)
