-- ===== src/Mem/Kalloc/Blocks.antt =====
-- The free lists of kernel/mem/kalloc.rs: which bytes are free, and the order and the gaps that
-- `insert` keeps.
use light_os_orion_risc_v.Prelude.{
  ℕ, ◌+◌, ◌<◌, ◌≤◌, ◌≡◌, Bool, true, false, ◌&&◌, ◌||◌, List, [], ◌∷◌, arith, ltb, leb, Bool-cases,
  inl, inr,
}
use light_os_orion_risc_v.Mem.Kalloc.{Block, block}

abbrev pub covers : Block → ℕ → Bool
covers b x = leb b.addr x && ltb x (b.addr + b.size)

abbrev pub free_byte : List Block → ℕ → Bool
free_byte [] x = false
free_byte (b ∷ rest) x = covers b x || free_byte rest x

-- Above `low` the blocks stand in the order of their addresses, none is empty, and no two touch.
pub data Separated : ℕ → List Block → Type 0 where
  alone : {low : ℕ} → Separated low []
  before :
      {low : ℕ} {b : Block} {rest : List Block}
      → low < b.addr
      → 0 < b.size
      → Separated (b.addr + b.size) rest
      → Separated low (b ∷ rest)

pub Separated-below :
    (low low' : ℕ) (l : List Block) → low' ≤ low → Separated low l → Separated low' l
Separated-below low low' [] le s = alone
Separated-below low low' (b ∷ rest) le (before h pos s) = before (omega arith) pos s

pub free_byte-above :
    (low x : ℕ) (l : List Block) → Separated low l → free_byte l x ≡ true → low < x
free_byte-above low x [] s e = absurd cc
free_byte-above low x (b ∷ rest) (before h pos s) e = elim (Bool-cases (covers b x)) [
  | inl here ↦ ground arith
  | inr away ↦
      let ih = free_byte-above (b.addr + b.size) x rest s (ground arith) in omega (arith, ih)
]

-- No byte of the range is free.
abbrev pub Taken : List Block → ℕ → ℕ → Type 0
Taken l addr size = (x : ℕ) → addr ≤ x → x < addr + size → free_byte l x ≡ false

-- The bytes of the range are free too.
abbrev pub Added : List Block → ℕ → ℕ → List Block → Type 0
Added l addr size l' = (x : ℕ) → free_byte l' x ≡ (covers (block addr size) x || free_byte l x)
