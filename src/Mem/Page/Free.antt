-- ===== src/Mem/Page/Free.antt =====
-- What `free` of the page-frame allocator promises (kernel/mem/page.rs).
use light_os_orion_risc_v.Prelude.{
  ℕ, ◌+◌, ◌-◌, ◌*◌, ◌%◌, ◌≤◌, ◌<◌, ◌≡◌, ◌⊎◌, refl, ◌∙◌, max, true, false, List, arith, inl, inr,
  some, Bool-cases, if◌then◌else◌, dec_le,
}
use light_os_orion_risc_v.Mem.Layout.{page_size, ram_start, usize_mod}
use light_os_orion_risc_v.Mem.Page.{
  PageAllocator, max_frames, addr_to_frame, is_used, mark_free, alloc, free,
}
use light_os_orion_risc_v.Mem.Page.Bitmap.{in_run, is_used-mark_free, length-mark_free}
use light_os_orion_risc_v.Mem.Page.Count.{
  count_free, count_free-le, count_free-FreeRun, count_free-used, count_free-congr,
  count_free-split,
}
use light_os_orion_risc_v.Mem.Page.Inv.{IsValid, alloc-Allocated}

-- All frames of a run are in use.
abbrev pub UsedRun : List ℕ → ℕ → ℕ → Type 0
UsedRun b s n = (g : ℕ) → s ≤ g → g < s + n → is_used b g ≡ true

-- What `free` of the `n` frames from `s` on did.
pub record Freed (a : PageAllocator) (s n : ℕ) (a' : PageAllocator) : Type 0 where
  pub marks : (g : ℕ) → is_used a'.bitmap g ≡ (if in_run s n g then false else is_used a.bitmap g)
  pub count : a'.free_frames ≡ a.free_frames + n
  pub same_first : a'.first_frame ≡ a.first_frame
  pub valid : IsValid a'

returned : PageAllocator → ℕ → ℕ → PageAllocator
returned a s n = record a { bitmap = mark_free a.bitmap s n; free_frames = a.free_frames + n }

module _ (a : PageAllocator) (s n : ℕ) (v : IsValid a) (lo : a.first_frame ≤ s)
    (hi : s + n ≤ max_frames) (run : UsedRun a.bitmap s n) where
  open a use {bitmap as b, first_frame as first}

  freed_marks :
      (g : ℕ) → is_used (mark_free b s n) g ≡ (if in_run s n g then false else is_used b g)
  freed_marks g = is_used-mark_free b s n g (omega (arith, v.words))

  freed_count :
      count_free (mark_free b s n) first (max_frames - first)
      ≡ count_free b first (max_frames - first) + n
  freed_count = omega (
    arith,
    count_free-split (mark_free b s n) b first (max_frames - first) s n lo
        (omega (arith, v.first_in)) (λ g out. ground (arith, freed_marks g)),
    count_free-FreeRun (mark_free b s n) s n (λ g p q. ground (arith, freed_marks g)),
    count_free-used b s n run,
  )

  returned-Freed : Freed a s n (returned a s n)
  unfolding returned
  returned-Freed = record {
    marks = freed_marks;
    count = refl;
    same_first = refl;
    valid = record {
      words = length-mark_free b s n ∙ v.words;
      first_in = v.first_in;
      counted = omega (arith, v.counted, freed_count);
      reserved =
          count_free-congr (mark_free b s n) b 0 first (λ g p q. ground (arith, freed_marks g))
          ∙ v.reserved;
    };
  }

  returned_fields :
      ((s + n) % usize_mod ≡ s + n)
      × (s + n - s ≡ n)
      × ((a.free_frames + n) % usize_mod ≡ a.free_frames + n)
  returned_fields = omega (arith, hi, v.counted, count_free-le b first (max_frames - first))

  free-eq : (addr : ℕ) → addr_to_frame addr ≡ s → free a addr n ≡ some (returned a s n)
  unfolding free returned
  free-eq addr e =
      rw (e, returned_fields.0, returned_fields.1, returned_fields.2) (ground (arith, v.words))

addr_to_frame_lem :
    (addr s : ℕ) → s ≤ max_frames → addr ≡ ram_start + s * page_size → addr_to_frame addr ≡ s
unfolding addr_to_frame
addr_to_frame_lem addr s h e = omega arith

-- In a valid allocator, freeing a run of used frames at its address succeeds, frees those frames
-- and no other, adds their number to the counter and keeps the allocator valid.
pub free-Freed :
    (a : PageAllocator) (s n addr : ℕ)
    → IsValid a
    → addr ≡ ram_start + s * page_size
    → a.first_frame ≤ s
    → s + n ≤ max_frames
    → UsedRun a.bitmap s n
    → (a' : PageAllocator) × (free a addr n ≡ some a') × Freed a s n a'
free-Freed a s n addr v e lo hi run = (
  returned a s n,
  free-eq a s n v lo hi run addr (addr_to_frame_lem addr s (omega arith) e),
  returned-Freed a s n v lo hi run,
)

-- In a valid allocator, freeing what `alloc` handed out brings every mark and the counter back.
pub free-alloc :
    (a a' : PageAllocator) (n addr : ℕ)
    → IsValid a
    → alloc a n ≡ some (addr, a')
    → (a'' : PageAllocator) × (free a' addr n ≡ some a'')
      × IsValid a''
      × ((g : ℕ) → is_used a''.bitmap g ≡ is_used a.bitmap g)
      × (a''.free_frames ≡ a.free_frames)
free-alloc a a' n addr v e =
    let (s, r) = alloc-Allocated a a' n addr v e in
    let (a'', f, d) =
      free-Freed a' s n addr r.valid r.address (rw r.same_first r.above) r.in_ram
        (λ g lo hi. ground (arith, r.marks g)) in
    (
      a'',
      f,
      d.valid,
      λ g. elim (Bool-cases (in_run s n g)) [
        | inl within ↦ ground (arith, d.marks g, r.was_free g)
        | inr outside ↦ ground (arith, d.marks g, r.marks g)
      ],
      omega (arith, d.count, r.count),
    )

-- Two blocks that a valid allocator hands out one after the other do not overlap.
pub alloc_twice_disjoint :
    (a a' a'' : PageAllocator) (n m x y : ℕ)
    → IsValid a
    → alloc a n ≡ some (x, a')
    → alloc a' m ≡ some (y, a'')
    → (x + n * page_size ≤ y) ⊎ (y + m * page_size ≤ x)
alloc_twice_disjoint a a' a'' n m x y v e e' =
    let (s, r) = alloc-Allocated a a' n x v e in
    let (t, r') = alloc-Allocated a' a'' m y r.valid e' in
    elim (dec_le (s + n) t) [
      | yes below ↦ inl (omega (arith, r.address, r'.address))
      | no above ↦ elim (dec_le (t + m) s) [
        | yes over ↦ inr (omega (arith, r.address, r'.address))
        | no clash ↦
            let shared : is_used a'.bitmap (max s t) ≡ true =
              ground (arith, r.marks (max s t), r.asked, r'.asked) in
            let free : is_used a'.bitmap (max s t) ≡ false =
              r'.was_free (max s t) (omega arith) (omega (arith, r.asked, r'.asked)) in
            cc
      ]
    ]
