-- ===== src/Minix3.antt =====
-- kernel/fs/minix3.rs: the read-only Minix3 file system. The block device is not part of it: `disk`
-- gives the bytes of a block, or `none` where the driver fails.
pub mod Zones
pub mod Read
pub mod Dir
pub mod Lookup
mod Tests
use light_os_orion_risc_v.Prelude.{
  ℕ, zero, suc, ◌+◌, ◌-◌, ◌*◌, ◌/◌, ◌%◌, Bool, true, false, ◌&&◌, not, Option, none, some, List, [],
  ◌∷◌, ◌++◌, ltb, leb, ◌==◌, if◌then◌else◌, length, get_or, take, drop, replicate, min,
}

abbrev pub block_size : ℕ
block_size = 1024

abbrev pub magic_v3 : ℕ
magic_v3 = 0x4d5a

abbrev pub inode_size : ℕ
inode_size = 64

abbrev pub zones_per_block : ℕ
zones_per_block = 256

abbrev pub s_ifdir : ℕ
s_ifdir = 0o040000

abbrev pub s_ifreg : ℕ
s_ifreg = 0o100000

abbrev pub s_ifmt : ℕ
s_ifmt = 0o170000

-- The block device: the 1024 bytes of a block.
abbrev pub Disk : Type 0
Disk = ℕ → Option (List ℕ)

-- The errors of this file, `io` being one of the driver.
pub data FsError : Type 0 where
  io bad_magic bad_block_size inode_out_of_range too_large not_a_directory : FsError

pub data Result {ℓ} (A : Type ℓ) : Type ℓ where
  ok : A → Result A
  err : FsError → Result A

pub record Inode : Type 0 where
  pub ino : ℕ
  pub mode : ℕ
  pub nlinks : ℕ
  pub size : ℕ
  pub zones : List ℕ

pub record MinixFs : Type 0 where
  pub imap_blocks : ℕ
  pub zmap_blocks : ℕ
  pub ninodes : ℕ
  pub zones : ℕ

abbrev pub byte_at : List ℕ → ℕ → ℕ
byte_at b off = get_or b off 0

abbrev pub le16 : List ℕ → ℕ → ℕ
le16 b off = byte_at b off + 256 * byte_at b (off + 1)

abbrev pub le32 : List ℕ → ℕ → ℕ
le32 b off =
    byte_at b off
    + 256 * byte_at b (off + 1)
    + 65536 * byte_at b (off + 2)
    + 16777216 * byte_at b (off + 3)

unfoldable pub mount : Disk → Result MinixFs
mount disk = elim (disk 1) [
  | none ↦ err io
  | some sb ↦
      if not (le16 sb 24 == magic_v3)
      then err bad_magic
      else if not (le16 sb 28 == block_size)
      then err bad_block_size
      else ok (record {
        imap_blocks = le16 sb 6;
        zmap_blocks = le16 sb 8;
        ninodes = le32 sb 0;
        zones = le32 sb 20;
      })
]

abbrev pub inode_table_block : MinixFs → ℕ
inode_table_block fs = 2 + fs.imap_blocks + fs.zmap_blocks

abbrev inode_zones : List ℕ → ℕ → ℕ → ℕ → List ℕ
inode_zones buf off i zero = []
inode_zones buf off i (suc left) = le32 buf (off + 24 + i * 4) ∷ inode_zones buf off (i + 1) left

unfoldable pub inode : Disk → MinixFs → ℕ → Result Inode
inode disk fs ino =
    if ino == 0
    then err inode_out_of_range
    else if ltb fs.ninodes ino
    then err inode_out_of_range
    else elim (disk (inode_table_block fs + (ino - 1) / 16)) [
      | none ↦ err io
      | some buf ↦
          let off = (ino - 1) % 16 * inode_size in
          ok (record {
            ino = ino;
            mode = le16 buf off;
            nlinks = le16 buf (off + 2);
            size = le32 buf (off + 8);
            zones = inode_zones buf off 0 10;
          })
    ]

-- `inode.zones[n]` for n below 10.
abbrev pub zone : Inode → ℕ → ℕ
zone i n = get_or i.zones n 0

unfoldable pub file_zone : Disk → Inode → ℕ → Result ℕ
file_zone disk i n =
    if ltb n 7
    then ok (zone i n)
    else if ltb (n - 7) zones_per_block
    then (if zone i 7 == 0
        then ok 0
        else elim (disk (zone i 7)) [ none ↦ err io | some buf ↦ ok (le32 buf ((n - 7) * 4)) ])
    else err too_large

-- The bytes of the file from `pos` on, `n` of them, all in one block.
unfoldable pub read_part : Disk → Inode → ℕ → ℕ → Result (List ℕ)
read_part disk i pos n = elim (file_zone disk i (pos / block_size)) [
  | err e ↦ err e
  | ok z ↦ if z == 0 then ok (replicate n 0) else elim (disk z) [
    | none ↦ err io
    | some block ↦ ok (take n (drop (pos % block_size) block))
  ]
]

-- The loop of `read_at`, with the rounds and the bytes left.
unfoldable pub read_loop : Disk → Inode → ℕ → ℕ → ℕ → Result (List ℕ)
read_loop disk i zero pos left = ok []
read_loop disk i (suc rounds) pos left =
    let n = min (block_size - pos % block_size) left in
    let rest = read_loop disk i rounds (pos + n) (left - n) in
    if left == 0 then ok [] else elim (read_part disk i pos n) [
      | err e ↦ err e
      | ok bytes ↦ elim rest [ err e ↦ err e | ok more ↦ ok (bytes ++ more) ]
    ]

-- The bytes that `read_at` puts into a buffer of `len` bytes. A round reads at least one byte.
unfoldable pub read_at : Disk → Inode → ℕ → ℕ → Result (List ℕ)
read_at disk i offset len =
    let want = min len (i.size - offset) in
    if leb i.size offset then ok [] else read_loop disk i want offset want

unfoldable pub read_file : Disk → Inode → Result (List ℕ)
read_file disk i = read_at disk i 0 i.size
