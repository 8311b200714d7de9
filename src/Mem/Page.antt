-- ===== src/Mem/Page.antt =====
-- kernel/mem/page.rs: the page-frame allocator, a bitmap over all frames of RAM.
-- The bitmap is the array of 512 words; a set bit is a frame in use. The lock around the allocator
-- makes each operation one step, so an operation is a function from the state to the state.
-- `debug_assert!` is compiled out, as in the release build that the image is made from.
pub mod Bitmap
pub mod Scan
pub mod Count
pub mod Inv
pub mod Free
pub mod Init
mod Tests
use Prim.Native.Nat.{bit_and, bit_or}
use light_os_orion_risc_v.Prelude.{
  ℕ, zero, suc, ◌+◌, ◌-◌, ◌*◌, ◌/◌, ◌%◌, ◌^◌, Bool, not, ◌||◌, Option, none, some, List, arith, ltb,
  leb, ◌==◌, if◌then◌else◌, get_or, set, replicate, length,
}
use light_os_orion_risc_v.Prelude.Bits.{complement}
use light_os_orion_risc_v.Mem.Layout.{page_size, ram_start, ram_size, usize_mod, page_up}

abbrev pub max_frames : ℕ
max_frames = ram_size / page_size

abbrev pub bitmap_words : ℕ
bitmap_words = max_frames / 64

pub record PageAllocator : Type 0 where
  pub bitmap : List ℕ
  pub first_frame : ℕ
  pub free_frames : ℕ

-- The static before `init`: every frame is marked used.
unfoldable pub allocator : PageAllocator
allocator = record {
  bitmap = replicate bitmap_words (2 ^ 64 - 1);
  first_frame = 0;
  free_frames = 0;
}

unfoldable pub frame_to_addr : ℕ → ℕ
frame_to_addr frame = ram_start + frame * page_size

-- `addr - RAM_START` wraps below RAM.
unfoldable pub addr_to_frame : ℕ → ℕ
addr_to_frame addr = (addr + usize_mod - ram_start) % usize_mod / page_size

-- The test and the updates of one bit of the bitmap. The callers stay inside the array.
unfoldable pub is_used : List ℕ → ℕ → Bool
is_used bitmap frame = not (bit_and (get_or bitmap (frame / 64) 0) (2 ^ (frame % 64)) == 0)

unfoldable pub set_used : List ℕ → ℕ → List ℕ
set_used bitmap frame =
    set bitmap (frame / 64) (bit_or (get_or bitmap (frame / 64) 0) (2 ^ (frame % 64)))

unfoldable pub set_free : List ℕ → ℕ → List ℕ
set_free bitmap frame =
    set bitmap (frame / 64)
      (bit_and (get_or bitmap (frame / 64) 0) (complement 64 (2 ^ (frame % 64))))

-- `for f in start..start + n { set_used(f) }`
unfoldable pub mark_used : List ℕ → ℕ → ℕ → List ℕ
mark_used bitmap start zero = bitmap
mark_used bitmap start (suc n) = mark_used (set_used bitmap start) (start + 1) n

-- `for f in start..start + n { set_free(f) }`
unfoldable pub mark_free : List ℕ → ℕ → ℕ → List ℕ
mark_free bitmap start zero = bitmap
mark_free bitmap start (suc n) = mark_free (set_free bitmap start) (start + 1) n

-- The first-fit scan of `alloc`, with `left` frames to go from `frame`; the start of the run that
-- it finds.
unfoldable pub scan : List ℕ → ℕ → ℕ → ℕ → ℕ → ℕ → Option ℕ
scan bitmap n zero frame run start = none
scan bitmap n (suc left) frame run start =
    let restart = scan bitmap n left (frame + 1) 0 (frame + 1) in
    let go_on = scan bitmap n left (frame + 1) (run + 1) start in
    if is_used bitmap frame then restart else if run + 1 == n then some start else go_on

-- The address and the allocator after it; `none` leaves the allocator as it was.
unfoldable pub alloc : PageAllocator → ℕ → Option (ℕ × PageAllocator)
alloc a n =
    if n == 0 || ltb a.free_frames n
    then none
    else elim (scan a.bitmap n (max_frames - a.first_frame) a.first_frame 0 a.first_frame) [
      | none ↦ none
      | some start ↦ some (
        frame_to_addr start,
        record a { bitmap = mark_used a.bitmap start n; free_frames = a.free_frames - n },
      )
    ]

-- `none` is the panic of an index outside the bitmap.
pub free : PageAllocator → ℕ → ℕ → Option PageAllocator
free a addr n =
    let start = addr_to_frame addr in
    let stop = (start + n) % usize_mod in
    if leb stop start || leb stop (64 * length a.bitmap)
    then some (record a {
      bitmap = mark_free a.bitmap start (stop - start);
      free_frames = (a.free_frames + n) % usize_mod;
    })
    else none

unfoldable pub init : PageAllocator → ℕ → PageAllocator
init a heap_start =
    let first = addr_to_frame (page_up heap_start) in
    record {
      bitmap = mark_free a.bitmap first (max_frames - first);
      first_frame = first;
      free_frames = max_frames - first;
    }
