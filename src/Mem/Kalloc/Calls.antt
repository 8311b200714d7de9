-- ===== src/Mem/Kalloc/Calls.antt =====
-- `alloc` and `dealloc` of kernel/mem/kalloc.rs: growth by pages, what a layout is given, and that it
-- can be given back.
use light_os_orion_risc_v.Prelude.{
  ℕ, ◌+◌, ◌*◌, ◌^◌, ◌<◌, ◌≤◌, ◌≡◌, ◌≢◌, sym, ap, ◌∙◌, arith, Bool-cases, true, Option, none, some,
  Option-cases, inl, inr, max,
}
use light_os_orion_risc_v.Mem.Layout.{page_size, ram_start}
use light_os_orion_risc_v.Mem.Page.{alloc}
use light_os_orion_risc_v.Mem.Page.Inv.{alloc-Allocated}
use light_os_orion_risc_v.Mem.Memory.{Memory, zero_pages, page_alloc}
use light_os_orion_risc_v.Mem.Kalloc.{
  Heap, insert, take_block, block_size, min_block, grow_pages, heap_alloc, heap_dealloc,
}
use light_os_orion_risc_v.Mem.Kalloc.Blocks.{free_byte, Taken, Added}
use light_os_orion_risc_v.Mem.Kalloc.Insert.{insert-Inserted}
use light_os_orion_risc_v.Mem.Kalloc.Canonical.{insert-take_block}
use light_os_orion_risc_v.Mem.Kalloc.Owned.{
  IsHeap, Given, frame_of, block_size-pos, heap-up, taken-Given,
}

-- More pages for the heap, and none of its free bytes lost.
grown-IsHeap :
    (h : Heap) (n mem : ℕ) (memory : Memory)
    → IsHeap h
    → page_alloc h.memory n ≡ some (mem, memory)
    → IsHeap (record { free = insert h.free mem (n * page_size); memory = memory })
      × ((x : ℕ)
          → free_byte h.free x ≡ true
          → free_byte (insert h.free mem (n * page_size)) x ≡ true)
unfolding page_alloc
grown-IsHeap h n mem memory valid e = elim (Option-cases (alloc h.memory.frames n)) [
  | inl failed ↦ absurd (ground arith)
  | inr ((addr, after), ok) ↦
      let (s, r) = alloc-Allocated h.memory.frames after n addr valid.frames ok in
      let same : addr ≡ mem = ground arith in
      let at : mem ≡ ram_start + s * 4096 = sym same ∙ r.address in
      let now : record { words = zero_pages h.memory.words addr n; frames = after } ≡ memory =
        ground arith in
      let new = r.asked in
      let taken : Taken h.free mem (n * page_size) = (λ x lo hi.
        elim (Bool-cases (free_byte h.free x)) [
          | inr not_free ↦ not_free
          | inl free ↦
              let used = valid.owned x free in
              let unused = r.was_free (frame_of x) (omega (arith, at)) (omega (arith, at)) in
              absurd cc
        ]) in
      let i =
        insert-Inserted 0 mem (n * page_size) h.free valid.apart (omega (arith, at))
          (omega (arith, new)) taken in
      (
        rw (← now) (record {
          apart = i.apart;
          in_ram = λ x f. elim (Bool-cases (free_byte h.free x)) [
            | inl free ↦ valid.in_ram x free
            | inr out ↦
                let b = i.bytes x in
                let lo : mem ≤ x = ground (arith, b) in
                let hi : x < mem + n * page_size = ground (arith, b) in
                (omega (arith, at), omega (arith, at, r.in_ram))
          ];
          owned = λ x f. elim (Bool-cases (free_byte h.free x)) [
            | inl free ↦
                let u = valid.owned x free in let m = r.marks (frame_of x) in ground (arith, u, m)
            | inr out ↦
                let b = i.bytes x in
                let lo : mem ≤ x = ground (arith, b) in
                let hi : x < mem + n * page_size = ground (arith, b) in
                let m = r.marks (frame_of x) in
                let a : s ≤ frame_of x = omega (arith, at) in
                let z : frame_of x < s + n = omega (arith, at) in ground (arith, m, a, z)
          ];
          frames = r.valid;
        }),
        λ x f. let b = i.bytes x in ground arith,
      )
]

-- What an answer of `alloc` says of the heap after it: a block is given, or the bytes that were free
-- still are.
pub record AllocDone (h h' : Heap) (size k : ℕ) (r : Option ℕ) : Type 0 where
  pub heap : IsHeap h'
  pub given : (p : ℕ) → r ≡ some p → Given size k p h'
  pub refused : r ≡ none → (x : ℕ) → free_byte h.free x ≡ true → free_byte h'.free x ≡ true

Given-AllocDone : (h h' : Heap) (size k p : ℕ) → Given size k p h' → AllocDone h h' size k (some p)
Given-AllocDone h h' size k p g = record {
  heap = g.heap;
  given = λ q e. let same : p ≡ q = cc in rw (← same) g;
  refused = λ e. absurd (cc);
}

-- For a heap in order and a layout whose alignment, at least 16, is a power of two of at most 2^30,
-- `alloc` leaves the heap in order, whether it gives a block or not. A block that it gives is
-- aligned, its bytes lie in frames that the heap owns, and none of them is free any more; if it
-- gives none, every byte that was free still is.
pub heap_alloc-Given :
    (h h' : Heap) (size align k : ℕ) (r : Option ℕ)
    → IsHeap h
    → max align min_block ≡ 2 ^ k
    → k ≤ 30
    → heap_alloc h size align ≡ (r, h')
    → AllocDone h h' (block_size size) k r
unfolding heap_alloc
heap_alloc-Given h h' size align k r valid al small e =
    elim (Option-cases (take_block h.free (block_size size) (max align min_block))) [
      | inr ((q, rest), found) ↦
          let same : some q ≡ r = ground arith in
          let after : record h { free = rest } ≡ h' = ground arith in
          rw (← same, ← after)
            (Given-AllocDone h (record h { free = rest }) (block_size size) k q
              (taken-Given h (block_size size) k q rest small valid (rw (← al) found)))
      | inl nothing ↦
          let n : ℕ = grow_pages (block_size size) (max align min_block) in
          elim (Option-cases (page_alloc h.memory n)) [
            | inl failed ↦
                let same : none ≡ r = ground arith in
                let after : h ≡ h' = ground arith in
                rw (← same, ← after)
                  (record { heap = valid; given = λ p e'. absurd (cc); refused = λ e' x f. f })
            | inr ((mem, memory), more) ↦
                let free = insert h.free mem (n * page_size) in
                let grown : Heap = record { free = free; memory = memory } in
                let (ordered, kept) = grown-IsHeap h n mem memory valid more in
                elim (Option-cases
                  (take_block grown.free (block_size size) (max align min_block))) [
                    | inl failed ↦
                        let same : none ≡ r = ground arith in
                        let after : grown ≡ h' = ground arith in
                        rw (← same, ← after)
                          (record {
                            heap = ordered;
                            given = λ p e'. absurd (cc);
                            refused = λ e'. kept;
                          })
                    | inr ((q, rest), found) ↦
                        let same : some q ≡ r = ground arith in
                        let after : record grown { free = rest } ≡ h' = ground arith in
                        rw (← same, ← after)
                          (Given-AllocDone h (record grown { free = rest }) (block_size size) k q
                            (taken-Given grown (block_size size) k q rest small ordered
                              (rw (← al) found)))
                  ]
          ]
    ]

-- In a heap in order, an aligned block with bytes that the heap owns and that are not free can be
-- given back: the heap is in order afterwards, and exactly the bytes of the block are free in
-- addition.
pub heap_dealloc-IsHeap :
    (h : Heap) (size k p : ℕ)
    → Given (block_size size) k p h
    → IsHeap (heap_dealloc h p size) × Added h.free p (block_size size) (heap_dealloc h p size).free
unfolding heap_dealloc
heap_dealloc-IsHeap h size k p g =
    let (lo, hi, used) = g.inside p (omega arith) (omega (arith, block_size-pos size)) in
    let i =
      insert-Inserted 0 p (block_size size) h.free g.heap.apart (omega arith) (block_size-pos size)
        g.taken in
    (
      record {
        apart = i.apart;
        in_ram = λ x f. elim (Bool-cases (free_byte h.free x)) [
          | inl free ↦ g.heap.in_ram x free
          | inr out ↦
              let b = i.bytes x in
              let (l, u, o) = g.inside x (ground (arith, b)) (ground (arith, b)) in (l, u)
        ];
        owned = λ x f. elim (Bool-cases (free_byte h.free x)) [
          | inl free ↦ g.heap.owned x free
          | inr out ↦
              let b = i.bytes x in
              let (l, u, o) = g.inside x (ground (arith, b)) (ground (arith, b)) in o
        ];
        frames = g.heap.frames;
      },
      i.bytes,
    )

-- In a heap in order that has room for a layout without growing, for an alignment that, raised to
-- at least 16, is a power of two of at most 2^30, freeing what `alloc` gave leaves the heap as it
-- was before.
pub heap_dealloc-alloc :
    (h h' : Heap) (size align k p : ℕ)
    → IsHeap h
    → max align min_block ≡ 2 ^ k
    → k ≤ 30
    → take_block h.free (block_size size) (max align min_block) ≢ none
    → heap_alloc h size align ≡ (some p, h')
    → heap_dealloc h' p size ≡ h
unfolding heap_alloc heap_dealloc
heap_dealloc-alloc h h' size align k p valid al small fits e =
    elim (Option-cases (take_block h.free (block_size size) (max align min_block))) [
      | inl nothing ↦ absurd (fits nothing)
      | inr ((q, rest), found) ↦
          let same : q ≡ p = ground arith in
          let after : record h { free = rest } ≡ h' = ground arith in
          let back =
            insert-take_block h.free (block_size size) (2 ^ k) q rest valid.apart
              (block_size-pos size) (heap-up k h small valid) (rw (← al) found) in
          rw (← same, ← after) (ap (λ f. record h { free = f }) back)
    ]
