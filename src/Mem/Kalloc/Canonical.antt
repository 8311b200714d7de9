-- ===== src/Mem/Kalloc/Canonical.antt =====
-- A free list of kernel/mem/kalloc.rs is determined by its free bytes, so a block that is taken
-- and put back leaves the list as it was.
use light_os_orion_risc_v.Prelude.{
  ℕ, ◌+◌, ◌<◌, ◌≤◌, ◌≡◌, refl, sym, ap₂, ◌∙◌, true, false, List, [], ◌∷◌, arith, Bool-cases, dec_lt,
  inl, inr, some,
}
use light_os_orion_risc_v.Mem.Kalloc.{Block, block, insert, align_up, take_block}
use light_os_orion_risc_v.Mem.Kalloc.Blocks.{free_byte, Separated, before, free_byte-above}
use light_os_orion_risc_v.Mem.Kalloc.Insert.{insert-Inserted}
use light_os_orion_risc_v.Mem.Kalloc.Take.{take_block-HandedOut}

above_free : (low x : ℕ) (l : List Block) → Separated low l → x ≤ low → free_byte l x ≡ false
above_free low x l s le = elim (Bool-cases (free_byte l x)) [
  | inr taken ↦ taken
  | inl free ↦ absurd (omega (arith, free_byte-above low x l s free))
]

-- The first block does not start after that of a list with the same free bytes, nor end after it.
starts_first :
    (low : ℕ) (b c : Block) (rest others : List Block)
    → Separated low (b ∷ rest)
    → Separated low (c ∷ others)
    → ((x : ℕ) → free_byte (b ∷ rest) x ≡ free_byte (c ∷ others) x)
    → c.addr ≤ b.addr
starts_first low b c rest others (before h pos s) (before h' pos' s') same =
    elim (dec_lt b.addr c.addr) [
      | no le ↦ omega arith
      | yes lt ↦
          let e = same b.addr in
          let far = above_free (c.addr + c.size) b.addr others s' (omega arith) in
          absurd (ground (arith, e, far))
    ]

ends_first :
    (low : ℕ) (b c : Block) (rest others : List Block)
    → Separated low (b ∷ rest)
    → Separated low (c ∷ others)
    → b.addr ≡ c.addr
    → ((x : ℕ) → free_byte (b ∷ rest) x ≡ free_byte (c ∷ others) x)
    → c.size ≤ b.size
ends_first low b c rest others (before h pos s) (before h' pos' s') at same =
    elim (dec_lt b.size c.size) [
      | no le ↦ omega arith
      | yes lt ↦
          let e = same (b.addr + b.size) in
          let far = above_free (b.addr + b.size) (b.addr + b.size) rest s (omega arith) in
          absurd (ground (arith, e, far))
    ]

-- Separated lists with the same free bytes are equal.
pub same_blocks :
    (low : ℕ) (l l' : List Block)
    → Separated low l
    → Separated low l'
    → ((x : ℕ) → free_byte l x ≡ free_byte l' x)
    → l ≡ l'
same_blocks low [] [] s s' same = refl
same_blocks low [] (c ∷ others) s (before h pos s') same =
    let e = same c.addr in absurd (ground (arith, e))
same_blocks low (b ∷ rest) [] (before h pos s) s' same =
    let e = same b.addr in absurd (ground (arith, e))
same_blocks low (b ∷ rest) (c ∷ others) (before h pos s) (before h' pos' s') same =
    let back = (λ (x : ℕ). sym (same x)) in
    let one = starts_first low b c rest others (before h pos s) (before h' pos' s') same in
    let two = starts_first low c b others rest (before h' pos' s') (before h pos s) back in
    let at : b.addr ≡ c.addr = omega arith in
    let three = ends_first low b c rest others (before h pos s) (before h' pos' s') at same in
    let four = ends_first low c b others rest (before h' pos' s') (before h pos s) (sym at) back in
    let size : b.size ≡ c.size = omega arith in
    let end : b.addr + b.size ≡ c.addr + c.size = omega arith in
    ap₂ (λ x r. x ∷ r) (ap₂ block at size)
      (same_blocks (b.addr + b.size) rest others s (rw end s') (λ x.
        elim (dec_lt (b.addr + b.size) x) [
          | no low_x ↦
              above_free (b.addr + b.size) x rest s (omega arith)
              ∙ sym (above_free (c.addr + c.size) x others s' (omega arith))
          | yes high_x ↦ let e = same x in ground (arith, e)
        ]))

-- Taking a block and putting it back gives the free list it was taken from.
pub insert-take_block :
    (l : List Block) (size align p : ℕ) (l' : List Block)
    → Separated 0 l
    → 0 < size
    → ((x : ℕ) → free_byte l x ≡ true → x ≤ align_up x align)
    → take_block l size align ≡ some (p, l')
    → insert l' p size ≡ l
insert-take_block l size align p l' s pos up e =
    let r = (take_block-HandedOut 0 l size align p l' s up e).0 in
    let i = insert-Inserted 0 p size l' r.apart r.above pos r.taken in
    same_blocks 0 (insert l' p size) l i.apart s (λ x. i.bytes x ∙ sym (r.bytes x))
