-- ===== src/Mem/Page/Init.antt =====
-- What `init` of the page-frame allocator establishes (kernel/mem/page.rs).
use light_os_orion_risc_v.Prelude.{
  ℕ, ◌+◌, ◌-◌, ◌*◌, ◌/◌, ◌%◌, ◌^◌, ◌≤◌, ◌<◌, ◌≡◌, ◌∙◌, true, List, arith, ltb, length, get_or, sym,
  length-replicate, get_or-replicate,
}
use light_os_orion_risc_v.Prelude.Bits.{bit-complement, zero-bit}
use light_os_orion_risc_v.Mem.Layout.{page_size, ram_start, ram_end, page_up, page_up_lem}
use light_os_orion_risc_v.Mem.Page.{
  max_frames, bitmap_words, allocator, addr_to_frame, is_used, mark_free, init,
}
use light_os_orion_risc_v.Mem.Page.Bitmap.{is_used-bit, is_used-mark_free, length-mark_free}
use light_os_orion_risc_v.Mem.Page.Count.{count_free-FreeRun, count_free-used}
use light_os_orion_risc_v.Mem.Page.Inv.{IsValid}

get_or-allocator : (i : ℕ) → i < bitmap_words → get_or allocator.bitmap i 0 ≡ 2 ^ 64 - 1
unfolding allocator
get_or-allocator i h = get_or-replicate bitmap_words i (2 ^ 64 - 1) 0 h

-- Before `init` every frame is marked used.
is_used-allocator : (g : ℕ) → g < max_frames → is_used allocator.bitmap g ≡ true
is_used-allocator g h =
    rw (is_used-bit, get_or-allocator (g / 64) (omega arith))
      (ground (arith, bit-complement 64 0 (g % 64) (omega arith) (omega arith), zero-bit (g % 64)))

length-allocator : length allocator.bitmap ≡ bitmap_words
unfolding allocator
length-allocator = length-replicate bitmap_words (2 ^ 64 - 1)

at_boundary :
    (h : ℕ)
    → ram_start ≤ h
    → h ≤ ram_end
    → ram_start + addr_to_frame (page_up h) * page_size ≡ page_up h
unfolding addr_to_frame
at_boundary h lo hi = omega (arith, page_up_lem h (omega arith))

-- `init` frees every frame from the first page boundary after the kernel image on, keeps the frames
-- below reserved, and establishes the invariant.
pub init-IsValid :
    (heap_start : ℕ)
    → ram_start ≤ heap_start
    → heap_start ≤ ram_end
    → let a = init allocator heap_start in
      IsValid a
      × (ram_start + a.first_frame * page_size ≡ page_up heap_start)
      × ((g : ℕ) → g < max_frames → is_used a.bitmap g ≡ ltb g a.first_frame)
unfolding init
init-IsValid heap_start lo hi = (
  record {
    words = length-mark_free b first (max_frames - first) ∙ length-allocator;
    first_in = first_in;
    counted = sym (
        count_free-FreeRun _ first (max_frames - first)
          (λ g p q. ground (arith, marks g (omega (arith, first_in)))));
    reserved =
        count_free-used _ 0 first (λ g p q. ground (arith, marks g (omega (arith, first_in))));
  },
  at,
  λ g h. marks g h,
)
  where
    b : List ℕ
    b = allocator.bitmap

    first : ℕ
    first = addr_to_frame (page_up heap_start)

    at : ram_start + first * page_size ≡ page_up heap_start
    at = at_boundary heap_start lo hi

    first_in : first ≤ max_frames
    first_in = omega (arith, at, page_up_lem heap_start (omega arith))

    marks :
        (g : ℕ) → g < max_frames → is_used (mark_free b first (max_frames - first)) g ≡ ltb g first
    marks g h = ground (
      arith,
      is_used-mark_free b first (max_frames - first) g,
      length-allocator,
      is_used-allocator g h,
      first_in,
    )
