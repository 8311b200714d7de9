-- ===== src/Mem/Page/Scan.antt =====
-- The first-fit scan of `PageAllocator::alloc` (kernel/mem/page.rs).
use light_os_orion_risc_v.Prelude.{
  ℕ, zero, suc, ◌+◌, ◌≤◌, ◌<◌, ◌≡◌, true, false, none, some, List, arith, inl, inr, Bool-cases,
  ◌==◌, dec_lt,
}
use light_os_orion_risc_v.Mem.Page.{is_used, scan}

-- The `n` frames from `s` on are free.
abbrev pub FreeRun : List ℕ → ℕ → ℕ → Type 0
FreeRun b s n = (g : ℕ) → s ≤ g → g < s + n → is_used b g ≡ false

FreeRun-suc :
    (b : List ℕ) (s n f : ℕ) → s + n ≡ f → is_used b f ≡ false → FreeRun b s n → FreeRun b s (n + 1)
FreeRun-suc b s n f e free run g lo hi = elim (Bool-cases (g == f)) [
  | inl hit ↦ let h : g ≡ f = ground arith in rw h free
  | inr miss ↦ run g lo (ground arith)
]

pub scan-FreeRun :
    (b : List ℕ) (n left frame run start s : ℕ)
    → start + run ≡ frame
    → run < n
    → FreeRun b start run
    → scan b n left frame run start ≡ some s
    → FreeRun b s n × (start ≤ s) × (s + n ≤ frame + left)
unfolding scan
scan-FreeRun b n zero frame run start s e lt h found = cc
scan-FreeRun b n (suc left) frame run start s e lt h found = elim (Bool-cases (is_used b frame)) [
  | inl used ↦
      let found' : scan b n left (frame + 1) 0 (frame + 1) ≡ some s = ground arith in
      let (a, lo, hi) =
        scan-FreeRun b n left (frame + 1) 0 (frame + 1) s (omega arith) (omega arith)
          (λ g p q. absurd (omega arith)) found' in
      (a, omega arith, omega arith)
  | inr free ↦ elim (Bool-cases (run + 1 == n)) [
    | inl last ↦
        let here : start ≡ s = ground arith in
        let all : run + 1 ≡ n = ground arith in
        rw (← here) (rw (← all) (FreeRun-suc b start run frame e free h, omega arith, omega arith))
    | inr more ↦
        let found' : scan b n left (frame + 1) (run + 1) start ≡ some s = ground arith in
        let (a, lo, hi) =
          scan-FreeRun b n left (frame + 1) (run + 1) start s (omega arith) (ground arith)
            (FreeRun-suc b start run frame e free h) found' in
        (a, lo, omega arith)
  ]
]

-- A run that covers a used frame is not free.
used-not-FreeRun :
    (b : List ℕ) (t n f : ℕ) → t ≤ f → f < t + n → is_used b f ≡ true → ¬ FreeRun b t n
used-not-FreeRun b t n f lo hi used run = cc (used, run f lo hi)

-- Where the scan fails, no run of `n` free frames starts at `start` or behind it.
pub scan-none :
    (b : List ℕ) (n left frame run start : ℕ)
    → start + run ≡ frame
    → run < n
    → scan b n left frame run start ≡ none
    → (t : ℕ) → start ≤ t
    → t + n ≤ frame + left
    → ¬ FreeRun b t n
unfolding scan
scan-none b n zero frame run start e lt h t lo hi = absurd (omega arith)
scan-none b n (suc left) frame run start e lt h t lo hi = elim (Bool-cases (is_used b frame)) [
  | inl used ↦ elim (dec_lt frame t) [
    | yes beyond ↦
        scan-none b n left (frame + 1) 0 (frame + 1) (omega arith) (omega arith) (ground arith) t
          (omega arith) (omega arith)
    | no covers ↦ used-not-FreeRun b t n frame (omega arith) (omega arith) used
  ]
  | inr free ↦ elim (Bool-cases (run + 1 == n)) [
    | inl last ↦ absurd (ground arith)
    | inr more ↦
        scan-none b n left (frame + 1) (run + 1) start (omega arith) (ground arith) (ground arith) t
          lo (omega arith)
  ]
]

-- Where it finds a run, no run of `n` free frames starts before that one.
pub scan-first :
    (b : List ℕ) (n left frame run start s : ℕ)
    → start + run ≡ frame
    → run < n
    → scan b n left frame run start ≡ some s
    → (t : ℕ) → start ≤ t
    → t < s
    → ¬ FreeRun b t n
unfolding scan
scan-first b n zero frame run start s e lt h t lo hi = cc
scan-first b n (suc left) frame run start s e lt h t lo hi = elim (Bool-cases (is_used b frame)) [
  | inl used ↦ elim (dec_lt frame t) [
    | yes beyond ↦
        scan-first b n left (frame + 1) 0 (frame + 1) s (omega arith) (omega arith) (ground arith) t
          (omega arith) (omega arith)
    | no covers ↦ used-not-FreeRun b t n frame (omega arith) (omega arith) used
  ]
  | inr free ↦ elim (Bool-cases (run + 1 == n)) [
    | inl last ↦ absurd (ground arith)
    | inr more ↦
        scan-first b n left (frame + 1) (run + 1) start s (omega arith) (ground arith)
          (ground arith) t lo hi
  ]
]
