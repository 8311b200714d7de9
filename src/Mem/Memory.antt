-- ===== src/Mem/Memory.antt =====
-- The physical memory that the kernel reads and writes through its identity map, as 64-bit words
-- by their number (address / 8), with the page allocator that owns its frames; and the byte copies
-- of `core::ptr` on it (little-endian words).
pub mod Bytes
use light_os_orion_risc_v.Prelude.{
  ℕ, zero, suc, ◌+◌, ◌-◌, ◌*◌, ◌/◌, ◌%◌, ◌<◌, ◌≡◌, ◌≢◌, refl, Option, none, some, List, [], ◌∷◌,
  arith, ltb, leb, ◌&&◌, ◌==◌, if◌then◌else◌, ne→==, ==_refl,
}
use light_os_orion_risc_v.Mem.Page.{PageAllocator, alloc, free}

pub record Memory : Type 0 where
  pub words : ℕ → ℕ
  pub frames : PageAllocator

unfoldable pub read_word : (ℕ → ℕ) → ℕ → ℕ
read_word words addr = words (addr / 8)

unfoldable pub write_word : (ℕ → ℕ) → ℕ → ℕ → ℕ → ℕ
write_word words addr value = λ w. if w == addr / 8 then value else words w

-- `write_bytes(ptr, 0, n * PAGE_SIZE)`
unfoldable pub zero_pages : (ℕ → ℕ) → ℕ → ℕ → ℕ → ℕ
zero_pages words addr n = λ w. if leb (addr / 8) w && ltb w (addr / 8 + n * 512) then 0 else words w

-- `copy_nonoverlapping(src, dst, PAGE_SIZE)` between frames.
pub copy_page : (ℕ → ℕ) → ℕ → ℕ → ℕ → ℕ
copy_page words src dst = λ w.
    if leb (dst / 8) w && ltb w (dst / 8 + 512) then words (src / 8 + (w - dst / 8)) else words w

-- kernel/mem/page.rs: frames from the allocator, zeroed.
unfoldable pub page_alloc : Memory → ℕ → Option (ℕ × Memory)
page_alloc m n = elim (alloc m.frames n) [
  | none ↦ none
  | some (addr, frames) ↦ some (addr, record { words = zero_pages m.words addr n; frames = frames })
]

-- `none` is the panic of an index outside the bitmap.
unfoldable pub page_free : Memory → ℕ → ℕ → Option Memory
page_free m addr n = elim (free m.frames addr n) [
  | none ↦ none
  | some frames ↦ some (record m { frames = frames })
]

-- Byte `i` of a word, and the word with that byte replaced.
unfoldable pub byte_of : ℕ → ℕ → ℕ
byte_of zero w = w % 256
byte_of (suc i) w = byte_of i (w / 256)

unfoldable pub with_byte : ℕ → ℕ → ℕ → ℕ
with_byte zero w b = w / 256 * 256 + b
with_byte (suc i) w b = with_byte i (w / 256) b * 256 + w % 256

unfoldable pub read_byte : (ℕ → ℕ) → ℕ → ℕ
read_byte words addr = byte_of (addr % 8) (words (addr / 8))

unfoldable pub write_byte : (ℕ → ℕ) → ℕ → ℕ → ℕ → ℕ
write_byte words addr b = write_word words addr (with_byte (addr % 8) (words (addr / 8)) b)

-- `copy_nonoverlapping` of a slice into memory and of memory into a slice.
unfoldable pub write_bytes : (ℕ → ℕ) → ℕ → List ℕ → ℕ → ℕ
write_bytes words addr [] = words
write_bytes words addr (b ∷ rest) = write_bytes (write_byte words addr b) (addr + 1) rest

unfoldable pub read_bytes : (ℕ → ℕ) → ℕ → ℕ → List ℕ
read_bytes words addr zero = []
read_bytes words addr (suc n) = read_byte words addr ∷ read_bytes words (addr + 1) n

pub read-write_word_self :
    (words : ℕ → ℕ) (a v b : ℕ) → a / 8 ≡ b / 8 → read_word (write_word words a v) b ≡ v
unfolding read_word write_word
read-write_word_self words a v b e = rw (e, ==_refl (b / 8)) refl

pub read-write_word_ne :
    (words : ℕ → ℕ) (a v b : ℕ)
    → a / 8 ≢ b / 8
    → read_word (write_word words a v) b ≡ read_word words b
unfolding read_word write_word
read-write_word_ne words a v b ne = rw (ne→== (b / 8) (a / 8) (λ e. ne (omega arith))) refl
