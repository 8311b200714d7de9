-- ===== src/Mem/Kalloc/Insert.antt =====
-- `insert` of kernel/mem/kalloc.rs: the list stays in order without touching blocks, and the bytes
-- of the new block are free too.
use light_os_orion_risc_v.Prelude.{
  ℕ, ◌+◌, ◌<◌, ◌≤◌, ◌≡◌, refl, List, [], ◌∷◌, arith, dec_lt, ℕ_discrete, ==_refl, ne→==, lt→ltb,
  le→ltb,
}
use light_os_orion_risc_v.Mem.Kalloc.{
  Block, block, merge_forward, merge_backward, insert_after, insert,
}
use light_os_orion_risc_v.Mem.Kalloc.Blocks.{
  Separated, alone, before, Separated-below, Taken, Added,
}

-- The new block and what follows it, after the merge forward.
record Joined (addr size : ℕ) (l : List Block) : Type 0 where
  total : ℕ
  next : List Block
  shape : merge_forward addr size l ≡ block addr total ∷ next
  grew : size ≤ total
  apart : Separated (addr + total) next
  bytes : Added l addr size (block addr total ∷ next)

-- No block of the list starts below the address.
data Ahead (addr : ℕ) : List Block → Type 0 where
  end : Ahead addr []
  at : {b : Block} {rest : List Block} → addr ≤ b.addr → Ahead addr (b ∷ rest)

merge_forward-Joined :
    (low addr size : ℕ) (l : List Block)
    → Separated low l
    → Ahead addr l
    → Taken l addr size
    → Joined addr size l
unfolding merge_forward
merge_forward-Joined low addr size [] s a taken = record {
  total = size;
  next = [];
  shape = refl;
  grew = omega arith;
  apart = alone;
  bytes = λ x. refl;
}
merge_forward-Joined low addr size (cur ∷ next) (before h pos s) (at le) taken =
    elim (dec_lt cur.addr (addr + size)) [
      | yes clash ↦ let no_byte = taken cur.addr le clash in absurd (ground arith)
      | no clear ↦ elim (ℕ_discrete (addr + size) cur.addr) [
        | yes touch ↦ record {
          total = size + cur.size;
          next = next;
          shape = rw (touch, ==_refl cur.addr) refl;
          grew = omega arith;
          apart =
              Separated-below (cur.addr + cur.size) (addr + (size + cur.size)) next (omega arith) s;
          bytes = λ x. ground arith;
        }
        | no gap ↦ record {
          total = size;
          next = cur ∷ next;
          shape = rw (ne→== (addr + size) cur.addr gap) refl;
          grew = omega arith;
          apart = before (omega arith) pos s;
          bytes = λ x. refl;
        }
      ]
    ]

-- What an insertion gives.
pub record Inserted (low : ℕ) (l : List Block) (addr size : ℕ) (l' : List Block) : Type 0 where
  pub apart : Separated low l'
  pub bytes : Added l addr size l'

merge_backward-Inserted :
    (low addr size : ℕ) (prev : Block) (l : List Block)
    → Separated low (prev ∷ l)
    → prev.addr < addr
    → 0 < size
    → Ahead addr l
    → Taken (prev ∷ l) addr size
    → Inserted low (prev ∷ l) addr size (merge_backward prev (merge_forward addr size l))
unfolding merge_backward
merge_backward-Inserted low addr size prev l (before h pos s) lt positive ahead taken =
    let f =
      merge_forward-Joined (prev.addr + prev.size) addr size l s ahead
        (λ x p q. let t = taken x p q in ground arith) in
    elim (dec_lt addr (prev.addr + prev.size)) [
      | yes clash ↦ let no_byte = taken addr (omega arith) (omega arith) in absurd (ground arith)
      | no clear ↦ elim (ℕ_discrete (prev.addr + prev.size) addr) [
        | yes touch ↦
            rw (f.shape, touch, ==_refl addr, merge_backward)
              (record {
                apart = before h (omega (arith, f.grew)) (
                    Separated-below (addr + f.total) (prev.addr + (prev.size + f.total)) f.next
                      (omega arith) f.apart);
                bytes = λ x. let e = f.bytes x in ground (arith, e);
              })
        | no gap ↦
            rw (f.shape, ne→== (prev.addr + prev.size) addr gap, merge_backward)
              (record {
                apart = before h pos (before (omega arith) (omega (arith, f.grew)) f.apart);
                bytes = λ x. let e = f.bytes x in ground (arith, e);
              })
      ]
    ]

insert_after-Inserted :
    (low addr size : ℕ) (prev : Block) (l : List Block)
    → Separated low (prev ∷ l)
    → prev.addr < addr
    → 0 < size
    → Taken (prev ∷ l) addr size
    → Inserted low (prev ∷ l) addr size (insert_after prev l addr size)
unfolding insert_after
insert_after-Inserted low addr size prev [] s lt pos taken =
    merge_backward-Inserted low addr size prev [] s lt pos end taken
insert_after-Inserted low addr size prev (cur ∷ next) (before h p s) lt pos taken =
    elim (dec_lt cur.addr addr) [
      | yes further ↦
          let r =
            insert_after-Inserted (prev.addr + prev.size) addr size cur next s further pos
              (λ x lo hi. let t = taken x lo hi in ground arith) in
          rw (lt→ltb cur.addr addr further, insert_after)
            (record {
              apart = before h p r.apart;
              bytes = λ x. let e = r.bytes x in ground (arith, e);
            })
      | no here ↦
          rw (le→ltb cur.addr addr (omega arith), insert_after)
            (merge_backward-Inserted low addr size prev (cur ∷ next) (before h p s) lt pos
              (at (omega arith)) taken)
    ]

-- Inserting a block of which no byte is free, above the address `low`, keeps the order and the gaps
-- of the list, and makes exactly the bytes of the block free in addition.
pub insert-Inserted :
    (low addr size : ℕ) (l : List Block)
    → Separated low l
    → low < addr
    → 0 < size
    → Taken l addr size
    → Inserted low l addr size (insert l addr size)
unfolding insert merge_forward
insert-Inserted low addr size [] s lt pos taken = record {
  apart = before lt pos alone;
  bytes = λ x. refl;
}
insert-Inserted low addr size (cur ∷ next) s lt pos taken = elim (dec_lt cur.addr addr) [
  | yes further ↦
      rw (lt→ltb cur.addr addr further, insert)
        (insert_after-Inserted low addr size cur next s further pos taken)
  | no here ↦
      let f = merge_forward-Joined low addr size (cur ∷ next) s (at (omega arith)) taken in
      rw (le→ltb cur.addr addr (omega arith), insert, f.shape)
        (record { apart = before lt (omega (arith, f.grew)) f.apart; bytes = f.bytes })
]
