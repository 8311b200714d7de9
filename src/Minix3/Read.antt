-- ===== src/Minix3/Read.antt =====
-- Reading a file (kernel/fs/minix3.rs, `read_at`): what arrives is the file's bytes, byte by byte.
use light_os_orion_risc_v.Prelude.{
  ℕ, zero, suc, ◌+◌, ◌-◌, ◌/◌, ◌%◌, ◌<◌, ◌≤◌, ◌≡◌, inl, inr, refl, ap, sym, ◌∙◌, Option, none, some,
  List, [], ◌++◌, arith, ◌==◌, if◌then◌else◌, length, get_or, take, drop, replicate, min,
  length-take, length-drop, length-append, length-replicate, get_or-replicate, get_or-take,
  get_or-drop, get_or-append_left, get_or-append_right, Option-cases, dec_lt, ℕ_discrete,
}
use light_os_orion_risc_v.Minix3.Zones.{zone_of, file_zone_lem}
use light_os_orion_risc_v.Minix3.{Disk, ok, Inode, block_size, read_part, read_loop, read_at}

-- Byte `pos` of a file, if the zone that the on-disk format gives its block can be found and read; a
-- hole is zeros.
abbrev pub file_byte : Disk → Inode → ℕ → Option ℕ
file_byte disk i pos = elim (zone_of disk i (pos / block_size)) [
  | none ↦ none
  | some z ↦
      if z == 0
      then some 0
      else elim (disk z) [ none ↦ none | some block ↦ some (get_or block (pos % block_size) 0) ]
]

-- The device answers with whole blocks.
abbrev pub WholeBlocks : Disk → Type 0
WholeBlocks disk = (b : ℕ) (block : List ℕ) → disk b ≡ some block → length block ≡ block_size

-- `bytes` are the `n` bytes of the file from `pos` on.
pub record Holds (disk : Disk) (i : Inode) (pos n : ℕ) (bytes : List ℕ) : Type 0 where
  pub size : length bytes ≡ n
  pub each : (k : ℕ) → k < n → file_byte disk i (pos + k) ≡ some (get_or bytes k 0)

-- A part within one block is read if its first byte can be.
read_part-Holds :
    (disk : Disk) (i : Inode) (pos n x : ℕ)
    → WholeBlocks disk
    → pos % block_size + n ≤ block_size
    → file_byte disk i pos ≡ some x
    → (bytes : List ℕ) × (read_part disk i pos n ≡ ok bytes) × Holds disk i pos n bytes
unfolding read_part
read_part-Holds disk i pos n x whole fits first =
    let same : (k : ℕ) → k < n → (pos + k) / block_size ≡ pos / block_size = λ k h. omega arith in
    let at : (k : ℕ) → k < n → (pos + k) % block_size ≡ pos % block_size + k = λ k h. omega arith in
    elim (Option-cases (zone_of disk i (pos / block_size))) [
      | inl bad ↦ absurd (ground arith)
      | inr (z, listed) ↦
          let found = file_zone_lem disk i (pos / block_size) z listed in
          elim (ℕ_discrete z 0) [
            | yes hole ↦ (
              replicate n 0,
              ground arith,
              record {
                size = length-replicate {A = ℕ} n 0;
                each = λ k h. ground (arith, same k h, get_or-replicate {A = ℕ} n k 0 0 h);
              },
            )
            | no data_zone ↦ elim (Option-cases (disk z)) [
              | inl gone ↦ absurd (ground arith)
              | inr (block, there) ↦ (
                take n (drop (pos % block_size) block),
                ground arith,
                record {
                  size = omega (
                    arith,
                    length-take n (drop (pos % block_size) block),
                    length-drop (pos % block_size) block,
                    whole z block there,
                  );
                  each = λ k h. ground (
                    arith,
                    same k h,
                    at k h,
                    get_or-take n k (drop (pos % block_size) block) 0 h,
                    get_or-drop (pos % block_size) k block 0,
                  );
                },
              )
            ]
          ]
    ]

-- Two runs of bytes, one behind the other.
append-Holds :
    (disk : Disk) (i : Inode) (pos m n total : ℕ) (xs ys : List ℕ)
    → m + n ≡ total
    → Holds disk i pos m xs
    → Holds disk i (pos + m) n ys
    → Holds disk i pos total (xs ++ ys)
append-Holds disk i pos m n total xs ys sum hx hy = record {
  size = omega (arith, length-append xs ys, hx.size, hy.size);
  each = λ k h. elim (dec_lt k m) [
    | yes front ↦
        hx.each k front ∙ ap some (sym (get_or-append_left xs ys k 0 (omega (arith, hx.size))))
    | no back ↦
        let j : ℕ = k - m in
        let at : length xs + j ≡ k = omega (arith, hx.size) in
        let pos_at : pos + k ≡ pos + m + j = omega arith in
        ap (λ p. file_byte disk i p) pos_at
        ∙ hy.each j (omega arith)
        ∙ ap some (sym (get_or-append_right xs ys j 0) ∙ ap (λ l. get_or (xs ++ ys) l 0) at)
  ];
}

-- All of the `n` bytes from `pos` on can be read from the device.
abbrev pub Readable : Disk → Inode → ℕ → ℕ → Type 0
Readable disk i pos n = (k : ℕ) → k < n → (x : ℕ) × (file_byte disk i (pos + k) ≡ some x)

read_loop-Holds :
    (disk : Disk) (i : Inode) (rounds pos left : ℕ)
    → WholeBlocks disk
    → left ≤ rounds
    → Readable disk i pos left
    → (bytes : List ℕ) × (read_loop disk i rounds pos left ≡ ok bytes) × Holds disk i pos left bytes
unfolding read_loop
read_loop-Holds disk i zero pos left whole h r =
    ([], refl, record { size = omega arith; each = λ k lt. absurd (omega arith) })
read_loop-Holds disk i (suc rounds) pos left whole h r = elim (ℕ_discrete left 0) [
  | yes done ↦
      ([], ground arith, record { size = omega arith; each = λ k lt. absurd (omega arith) })
  | no more ↦
      let n : ℕ = min (block_size - pos % block_size) left in
      let (x, first) = r 0 (omega arith) in
      let here : pos + 0 ≡ pos = omega arith in
      let (xs, ex, hx) =
        read_part-Holds disk i pos n x whole (omega arith)
          (ap (λ p. file_byte disk i p) (sym here) ∙ first) in
      let later : Readable disk i (pos + n) (left - n) = λ k lt.
        let (y, ey) = r (n + k) (omega arith) in
        let at : pos + n + k ≡ pos + (n + k) = omega arith in
        (y, ap (λ p. file_byte disk i p) at ∙ ey) in
      let (ys, ey, hy) =
        read_loop-Holds disk i rounds (pos + n) (left - n) whole (omega arith) later in
      let all : n + (left - n) ≡ left = omega arith in
      (xs ++ ys, ground arith, append-Holds disk i pos n (left - n) left xs ys all hx hy)
]

-- The bytes of a file are those of the zones that the on-disk format lists for it, seven in the inode
-- and 256 in its indirect block, and zeros in a hole. If the device answers with whole blocks and the bytes of the file from `offset` on can be read,
-- as many as the buffer takes and the file has, `read_at` succeeds, and what it returns is exactly
-- those bytes.
pub read_at-Holds :
    (disk : Disk) (i : Inode) (offset len : ℕ)
    → WholeBlocks disk
    → Readable disk i offset (min len (i.size - offset))
    → (bytes : List ℕ) × (read_at disk i offset len ≡ ok bytes)
      × Holds disk i offset (min len (i.size - offset)) bytes
unfolding read_at
read_at-Holds disk i offset len whole r = elim (dec_lt offset i.size) [
  | yes inside ↦
      let want : ℕ = min len (i.size - offset) in
      let (bytes, e, h) = read_loop-Holds disk i want offset want whole (omega arith) r in
      (bytes, ground arith, h)
  | no behind ↦
      ([], ground arith, record { size = omega arith; each = λ k lt. absurd (omega arith) })
]
