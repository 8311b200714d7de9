-- ===== src/Mem/Kalloc/Owned.antt =====
-- The kernel heap of kernel/mem/kalloc.rs on top of the page allocator: what it owns.
use light_os_orion_risc_v.Prelude.{
  ℕ, ◌+◌, ◌-◌, ◌*◌, ◌/◌, ◌%◌, ◌^◌, ◌<◌, ◌≤◌, ◌≡◌, ◌∙◌, true, List, arith, some,
}
use light_os_orion_risc_v.Prelude.Bits.{
  bit_and-complement, high, high_bounds, high_multiple, pow_pos, pow-lt,
}
use light_os_orion_risc_v.Mem.Layout.{ram_start, ram_end, usize_mod}
use light_os_orion_risc_v.Mem.Page.{is_used}
use light_os_orion_risc_v.Mem.Page.Inv.{IsValid}
use light_os_orion_risc_v.Mem.Kalloc.{Block, Heap, align_down, align_up, take_block, block_size}
use light_os_orion_risc_v.Mem.Kalloc.Blocks.{free_byte, Separated, Taken}
use light_os_orion_risc_v.Mem.Kalloc.Take.{take_block-HandedOut}

-- Alignment to a power of two rounds up to the next multiple.
pub align_up_lem :
    (k start : ℕ)
    → k < 64
    → start + 2 ^ k ≤ usize_mod
    → (start ≤ align_up start (2 ^ k))
      × (align_up start (2 ^ k) < start + 2 ^ k)
      × ((q : ℕ) × (align_up start (2 ^ k) ≡ 2 ^ k * q))
unfolding align_up align_down
align_up_lem k start lt fit =
    let x : ℕ = start + 2 ^ k - 1 in
    let pos = pow_pos k in
    let small : x % usize_mod ≡ x = omega arith in
    let e : align_up start (2 ^ k) ≡ high k x =
      rw (small, align_up, align_down) (bit_and-complement k 64 x (omega arith) (omega arith)) in
    let (below, above) = high_bounds k x in
    let (q, m) = high_multiple k x in (omega arith, omega arith, (q, e ∙ m))

-- The frame of an address in RAM.
abbrev pub frame_of : ℕ → ℕ
frame_of x = (x - ram_start) / 4096

-- The free list is in order, and every free byte lies in a frame of RAM that the heap was given.
pub record IsHeap (h : Heap) : Type 0 where
  pub apart : Separated 0 h.free
  pub in_ram : (x : ℕ) → free_byte h.free x ≡ true → (ram_start ≤ x) × (x < ram_end)
  pub owned :
      (x : ℕ) → free_byte h.free x ≡ true → is_used h.memory.frames.bitmap (frame_of x) ≡ true
  pub frames : IsValid h.memory.frames

pub block_size-pos : (size : ℕ) → 0 < block_size size
unfolding block_size
block_size-pos size = omega arith

pub heap-up :
    (k : ℕ) (h : Heap)
    → k ≤ 30
    → IsHeap h
    → (x : ℕ) → free_byte h.free x ≡ true
    → x ≤ align_up x (2 ^ k)
heap-up k h small valid x free =
    let (lo, hi) = valid.in_ram x free in
    let bound = pow-lt 31 k (omega arith) in (align_up_lem k x (omega arith) (omega arith)).0

-- What `alloc` of a size at an alignment gives: a block whose bytes are the heap's and free no more.
pub record Given (size k p : ℕ) (h' : Heap) : Type 0 where
  pub heap : IsHeap h'
  pub aligned : (q : ℕ) × (p ≡ 2 ^ k * q)
  pub taken : Taken h'.free p size
  pub inside :
      (x : ℕ)
      → p ≤ x
      → x < p + size
      → (ram_start ≤ x) × (x < ram_end) × (is_used h'.memory.frames.bitmap (frame_of x) ≡ true)

pub taken-Given :
    (h : Heap) (size k p : ℕ) (rest : List Block)
    → k ≤ 30
    → IsHeap h
    → take_block h.free size (2 ^ k) ≡ some (p, rest)
    → Given size k p (record h { free = rest })
taken-Given h size k p rest small valid e =
    let (r, (start, free, at)) =
      take_block-HandedOut 0 h.free size (2 ^ k) p rest valid.apart (heap-up k h small valid) e in
    let (lo, hi) = valid.in_ram start free in
    let bound = pow-lt 31 k (omega arith) in
    let (le, lt, (q, m)) = align_up_lem k start (omega arith) (omega arith) in
    record {
      heap = record {
        apart = r.apart;
        in_ram = λ x f. valid.in_ram x (let b = r.bytes x in ground (arith, b));
        owned = λ x f. valid.owned x (let b = r.bytes x in ground (arith, b));
        frames = valid.frames;
      };
      aligned = (q, at ∙ m);
      taken = r.taken;
      inside = λ x from upto.
          let f : free_byte h.free x ≡ true = (let b = r.bytes x in ground (arith, b)) in
          let (lo', hi') = valid.in_ram x f in (lo', hi', valid.owned x f);
    }
