-- ===== src/Mem/Page/Inv.antt =====
-- The invariant of the page-frame allocator (kernel/mem/page.rs), and what its operations promise.
use light_os_orion_risc_v.Prelude.{
  ℕ, ◌+◌, ◌-◌, ◌*◌, ◌≤◌, ◌<◌, ◌≡◌, ◌≢◌, ◌↔◌, ◌⊎◌, refl, ◌∙◌, true, List, arith, inl, inr, Option,
  none, some, Option-cases, if◌then◌else◌, length, ℕ_discrete, dec_lt,
}
use light_os_orion_risc_v.Mem.Layout.{page_size, ram_start}
use light_os_orion_risc_v.Mem.Page.{
  PageAllocator, max_frames, bitmap_words, frame_to_addr, is_used, scan, mark_used, alloc,
}
use light_os_orion_risc_v.Mem.Page.Bitmap.{in_run, is_used-mark_used, length-mark_used}
use light_os_orion_risc_v.Mem.Page.Scan.{FreeRun, scan-FreeRun, scan-none, scan-first}
use light_os_orion_risc_v.Mem.Page.Count.{
  count_free, count_free-FreeRun, count_free-used, count_free-congr, count_free-split,
  FreeRun-le-count,
}

-- The counter is the number of free frames, and what lies below the first frame is never free.
pub record IsValid (a : PageAllocator) : Type 0 where
  pub words : length a.bitmap ≡ bitmap_words
  pub first_in : a.first_frame ≤ max_frames
  pub counted : a.free_frames ≡ count_free a.bitmap a.first_frame (max_frames - a.first_frame)
  pub reserved : count_free a.bitmap 0 a.first_frame ≡ 0

-- What a successful `alloc` of `n` frames did: it took the first free run that is long enough.
pub record Allocated (a : PageAllocator) (n s addr : ℕ) (a' : PageAllocator) : Type 0 where
  pub asked : n ≢ 0
  pub address : addr ≡ ram_start + s * page_size
  pub in_ram : s + n ≤ max_frames
  pub above : a.first_frame ≤ s
  pub was_free : FreeRun a.bitmap s n
  pub first_fit : (t : ℕ) → a.first_frame ≤ t → t < s → ¬ FreeRun a.bitmap t n
  pub marks : (g : ℕ) → is_used a'.bitmap g ≡ (if in_run s n g then true else is_used a.bitmap g)
  pub count : a'.free_frames + n ≡ a.free_frames
  pub same_first : a'.first_frame ≡ a.first_frame
  pub valid : IsValid a'

-- Marking a free run as used keeps the invariant.
mark_used-IsValid :
    (a : PageAllocator) (s n : ℕ)
    → IsValid a
    → a.first_frame ≤ s
    → s + n ≤ max_frames
    → FreeRun a.bitmap s n
    → n ≤ a.free_frames
    → IsValid (record a { bitmap = mark_used a.bitmap s n; free_frames = a.free_frames - n })
mark_used-IsValid a s n v lo hi run enough = record {
  words = length-mark_used b s n ∙ v.words;
  first_in = v.first_in;
  counted = omega (
    arith,
    v.counted,
    count_free-split c b a.first_frame (max_frames - a.first_frame) s n lo
        (omega (arith, v.first_in)) (λ g out. ground (arith, marks g)),
    count_free-FreeRun b s n run,
    count_free-used c s n (λ g p q. ground (arith, marks g)),
  );
  reserved = count_free-congr c b 0 a.first_frame (λ g p q. ground (arith, marks g)) ∙ v.reserved;
}
  where
    b : List ℕ
    b = a.bitmap

    c : List ℕ
    c = mark_used b s n

    marks : (g : ℕ) → is_used c g ≡ (if in_run s n g then true else is_used b g)
    marks g = is_used-mark_used b s n g (omega (arith, v.words))

first_run : PageAllocator → ℕ → Option ℕ
first_run a n = scan a.bitmap n (max_frames - a.first_frame) a.first_frame 0 a.first_frame

-- The allocator after it took the run of `n` frames from `s` on.
taken : PageAllocator → ℕ → ℕ → PageAllocator
taken a n s = record a { bitmap = mark_used a.bitmap s n; free_frames = a.free_frames - n }

taken-Allocated :
    (a : PageAllocator) (n s : ℕ)
    → IsValid a
    → first_run a n ≡ some s
    → n ≢ 0
    → n ≤ a.free_frames
    → Allocated a n s (frame_to_addr s) (taken a n s)
unfolding first_run taken frame_to_addr
taken-Allocated a n s v found pos enough = record {
  asked = pos;
  address = refl;
  in_ram = in_ram;
  above = above;
  was_free = run;
  first_fit = scan-first b n left first 0 first s (omega arith) (omega arith) found;
  marks = λ g. is_used-mark_used b s n g (omega (arith, v.words, in_ram));
  count = omega arith;
  same_first = refl;
  valid = mark_used-IsValid a s n v above in_ram run enough;
}
  where
    open a use {bitmap as b, first_frame as first}

    left : ℕ
    left = max_frames - first

    found_run : FreeRun b s n × (first ≤ s) × (s + n ≤ first + left)
    found_run =
        scan-FreeRun b n left first 0 first s (omega arith) (omega arith)
          (λ g p q. absurd (omega arith)) found

    run : FreeRun b s n
    run = found_run.0

    above : first ≤ s
    above = found_run.1

    in_ram : s + n ≤ max_frames
    in_ram = omega (arith, found_run.2, v.first_in)

-- From a valid allocator a successful `alloc` hands out the first free run of `n` frames, marks it
-- used, lowers the counter by `n` and leaves the allocator valid.
pub alloc-Allocated :
    (a a' : PageAllocator) (n addr : ℕ)
    → IsValid a
    → alloc a n ≡ some (addr, a')
    → (s : ℕ) × Allocated a n s addr a'
unfolding alloc first_run taken
alloc-Allocated a a' n addr v e = elim (Option-cases (first_run a n)) [
  | inl failed ↦ absurd (ground arith)
  | inr (s, found) ↦
      let pos : n ≢ 0 = ground arith in
      let enough : n ≤ a.free_frames = ground arith in
      let at : frame_to_addr s ≡ addr = ground arith in
      let after : taken a n s ≡ a' = ground arith in
      (s, rw (← at, ← after) (taken-Allocated a n s v found pos enough))
]

-- No run of `n` free frames is left.
abbrev pub NoRun : PageAllocator → ℕ → Type 0
NoRun a n = (t : ℕ) → a.first_frame ≤ t → t + n ≤ max_frames → ¬ FreeRun a.bitmap t n

scan_fails : (a : PageAllocator) (n : ℕ) → IsValid a → n ≢ 0 → first_run a n ≡ none → NoRun a n
unfolding first_run
scan_fails a n v pos failed t lo hi =
    scan-none a.bitmap n (max_frames - a.first_frame) a.first_frame 0 a.first_frame (omega arith)
      (omega arith) failed t lo (omega (arith, v.first_in))

few_free : (a : PageAllocator) (n : ℕ) → IsValid a → a.free_frames < n → NoRun a n
few_free a n v few t lo hi run = omega (
  arith,
  v.counted,
  v.first_in,
  FreeRun-le-count a.bitmap a.first_frame (max_frames - a.first_frame) t n lo
      (omega (arith, v.first_in)) run,
)

none_for_zero : (a : PageAllocator) (n : ℕ) → n ≡ 0 → alloc a n ≡ none
unfolding alloc
none_for_zero a n e = ground arith

none_without_run : (a : PageAllocator) (n : ℕ) → IsValid a → NoRun a n → alloc a n ≡ none
none_without_run a n v h = elim (Option-cases (alloc a n)) [
  | inl e ↦ e
  | inr ((addr, a'), e) ↦
      let (s, r) = alloc-Allocated a a' n addr v e in absurd (h s r.above r.in_ram r.was_free)
]

none_cases : (a : PageAllocator) (n : ℕ) → IsValid a → alloc a n ≡ none → (n ≡ 0) ⊎ NoRun a n
unfolding alloc first_run
none_cases a n v e = elim (ℕ_discrete n 0) [
  | yes z ↦ inl z
  | no pos ↦ elim (dec_lt a.free_frames n) [
    | yes few ↦ inr (few_free a n v few)
    | no enough ↦ elim (Option-cases (first_run a n)) [
      | inl failed ↦ inr (scan_fails a n v pos failed)
      | inr (s, found) ↦ absurd (ground arith)
    ]
  ]
]

-- In a valid allocator `alloc` fails exactly when it is asked for no frame or no run of that many
-- free frames is left.
pub alloc-eq-none_iff :
    (a : PageAllocator) (n : ℕ) → IsValid a → (alloc a n ≡ none) ↔ ((n ≡ 0) ⊎ NoRun a n)
alloc-eq-none_iff a n v = (
  none_cases a n v,
  λ h. elim h [ inl z ↦ none_for_zero a n z | inr r ↦ none_without_run a n v r ],
)
