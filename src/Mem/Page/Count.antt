-- ===== src/Mem/Page/Count.antt =====
-- How many frames of a range are free, and how marking a run changes that number.
use light_os_orion_risc_v.Prelude.{
  ℕ, zero, suc, ◌+◌, ◌-◌, ◌≤◌, ◌<◌, ◌≡◌, refl, true, false, List, arith, inl, inr, Bool-cases, ◌==◌,
  if◌then◌else◌,
}
use light_os_orion_risc_v.Mem.Page.{is_used}
use light_os_orion_risc_v.Mem.Page.Bitmap.{in_run}
use light_os_orion_risc_v.Mem.Page.Scan.{FreeRun}

pub count_free : List ℕ → ℕ → ℕ → ℕ
count_free b f zero = 0
count_free b f (suc n) = (if is_used b f then 0 else 1) + count_free b (f + 1) n

pub count_free-le : (b : List ℕ) (f n : ℕ) → count_free b f n ≤ n
unfolding count_free
count_free-le b f zero = omega arith
count_free-le b f (suc n) = ground (arith, count_free-le b (f + 1) n)

pub count_free-add :
    (b : List ℕ) (f g m n k : ℕ)
    → f + m ≡ g
    → m + n ≡ k
    → count_free b f k ≡ count_free b f m + count_free b g n
unfolding count_free
count_free-add b f g zero n k e h =
    let e' : f ≡ g = omega arith in let h' : n ≡ k = omega arith in rw (← e', ← h') (omega arith)
count_free-add b f g (suc m) n zero e h = absurd (omega arith)
count_free-add b f g (suc m) n (suc k) e h =
    omega (arith, count_free-add b (f + 1) g m n k (omega arith) (omega arith))

-- Two bitmaps that agree on a range have as many free frames there.
pub count_free-congr :
    (b c : List ℕ) (f n : ℕ)
    → ((g : ℕ) → f ≤ g → g < f + n → is_used b g ≡ is_used c g)
    → count_free b f n ≡ count_free c f n
unfolding count_free
count_free-congr b c f zero h = refl
count_free-congr b c f (suc n) h = ground (
  arith,
  h f (omega arith) (omega arith),
  count_free-congr b c (f + 1) n (λ g lo hi. h g (omega arith) (omega arith)),
)

-- All frames of a run are free.
pub count_free-FreeRun : (b : List ℕ) (f n : ℕ) → FreeRun b f n → count_free b f n ≡ n
unfolding count_free
count_free-FreeRun b f zero h = refl
count_free-FreeRun b f (suc n) h = ground (
  arith,
  h f (omega arith) (omega arith),
  count_free-FreeRun b (f + 1) n (λ g lo hi. h g (omega arith) (omega arith)),
)

-- None of a run is.
pub count_free-used :
    (b : List ℕ) (f n : ℕ)
    → ((g : ℕ) → f ≤ g → g < f + n → is_used b g ≡ true)
    → count_free b f n ≡ 0
unfolding count_free
count_free-used b f zero h = refl
count_free-used b f (suc n) h = ground (
  arith,
  h f (omega arith) (omega arith),
  count_free-used b (f + 1) n (λ g lo hi. h g (omega arith) (omega arith)),
)

pub is_used-of-count :
    (b : List ℕ) (f n g : ℕ) → count_free b f n ≡ 0 → f ≤ g → g < f + n → is_used b g ≡ true
unfolding count_free
is_used-of-count b f zero g h lo hi = absurd (omega arith)
is_used-of-count b f (suc n) g h lo hi = elim (Bool-cases (f == g)) [
  | inl hit ↦ ground arith
  | inr miss ↦ is_used-of-count b (f + 1) n g (ground arith) (ground arith) (omega arith)
]

-- Two bitmaps that agree outside the run `t..t + n` of a range differ there only in the count.
pub count_free-split :
    (b c : List ℕ) (f k t n : ℕ)
    → f ≤ t
    → t + n ≤ f + k
    → ((g : ℕ) → in_run t n g ≡ false → is_used b g ≡ is_used c g)
    → count_free b f k + count_free c t n ≡ count_free c f k + count_free b t n
count_free-split b c f k t n lo hi same = omega (
  arith,
  count_free-add b f t (t - f) (k - (t - f)) k (omega arith) (omega arith),
  count_free-add c f t (t - f) (k - (t - f)) k (omega arith) (omega arith),
  count_free-add b t (t + n) n (k - (t - f) - n) (k - (t - f)) refl (omega arith),
  count_free-add c t (t + n) n (k - (t - f) - n) (k - (t - f)) refl (omega arith),
  count_free-congr b c f (t - f) (λ g p q. same g (ground arith)),
  count_free-congr b c (t + n) (k - (t - f) - n) (λ g p q. same g (ground arith)),
)

-- A free run lies within the count.
pub FreeRun-le-count :
    (b : List ℕ) (f k t n : ℕ) → f ≤ t → t + n ≤ f + k → FreeRun b t n → n ≤ count_free b f k
FreeRun-le-count b f k t n lo hi run = omega (
  arith,
  count_free-add b f t (t - f) (k - (t - f)) k (omega arith) (omega arith),
  count_free-add b t (t + n) n (k - (t - f) - n) (k - (t - f)) refl (omega arith),
  count_free-FreeRun b t n run,
)
