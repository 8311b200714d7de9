-- ===== src/Minix3/Tests.antt =====
-- Runs and instances for the Minix3 file system (kernel/fs/minix3.rs): a file of 1030 bytes whose
-- second zone is a hole.
use light_os_orion_risc_v.Prelude.{
  ◌⊎◌, ◌++◌, ℕ, zero, suc, ◌≡◌, refl, none, some, List, [], ◌∷◌, arith, ◌==◌, if◌then◌else◌,
  replicate, length-replicate, Bool-cases, inl, inr,
}
use light_os_orion_risc_v.Minix3.Dir.{
  Entry, is_dir, is_utf8, utf8_from, utf8_step, utf8_start, until_zero, decode, entries, readdir,
  dir_lookup, last_named, walk, split, components, same_name,
}
use light_os_orion_risc_v.Minix3.Lookup.{Unnamed, LastNamed, dir_lookup_lem, Walked, walk-Walked}
use light_os_orion_risc_v.Minix3.{
  MinixFs, Disk, ok, Inode, inode, block_size, file_zone, read_part, read_loop, read_at,
}
use light_os_orion_risc_v.Minix3.Zones.{zone_of, numbers, indirect_zones}
use light_os_orion_risc_v.Minix3.Read.{WholeBlocks, Readable, Holds, read_at-Holds}

-- Block 5 is full of sevens, block 6 is an indirect block that names it first, and no other block can
-- be read.
abbrev disk : Disk
disk b =
    if b == 5
    then some (replicate block_size 7)
    else if b == 6
    then some (5 ∷ replicate 1023 0)
    else none

abbrev file : Inode
file = record {
  ino = 2;
  mode = 0o100644;
  nlinks = 1;
  size = 7200;
  zones = 5 ∷ (replicate 6 0 ++ (6 ∷ replicate 2 0));
}

disk-WholeBlocks : WholeBlocks disk
disk-WholeBlocks b block e = elim (Bool-cases (b == 5)) [
  | inl five ↦ ground (arith, length-replicate {A = ℕ} block_size 7)
  | inr other ↦ elim (Bool-cases (b == 6)) [
    | inl six ↦ ground (arith, length-replicate {A = ℕ} 1023 0)
    | inr neither ↦ absurd (ground arith)
  ]
]

-- The last byte of a hole in the seventh zone and the first one behind the indirect block.
both_bytes : Readable disk file 7167 2
unfolding zone_of numbers indirect_zones
both_bytes zero h = (0, refl)
both_bytes (suc zero) h = (7, refl)
both_bytes (suc (suc k)) h = absurd (omega arith)

read_run : read_at disk file 7167 2 ≡ ok (0 ∷ 7 ∷ [])
unfolding read_at read_loop read_part file_zone
read_run = refl

read_at-Holds_example :
    (bytes : List ℕ) × (read_at disk file 7167 2 ≡ ok bytes) × Holds disk file 7167 2 bytes
read_at-Holds_example = read_at-Holds disk file 7167 2 disk-WholeBlocks both_bytes

-- A root directory with two entries, "a" twice.
abbrev dir_entries : List Entry
dir_entries = (97 ∷ [], 4) ∷ (98 ∷ [], 5) ∷ (97 ∷ [], 6) ∷ []

abbrev entry_bytes : ℕ → ℕ → List ℕ
entry_bytes name ino = ino ∷ 0 ∷ 0 ∷ 0 ∷ name ∷ replicate 59 0

abbrev dir_disk : Disk
dir_disk b =
    if b == 9
    then some (entry_bytes 97 4 ++ (entry_bytes 98 5 ++ (entry_bytes 97 6 ++ replicate 832 0)))
    else none

abbrev dir : Inode
dir = record { ino = 1; mode = 0o040755; nlinks = 2; size = 192; zones = 9 ∷ replicate 9 0 }

readdir_run : readdir dir_disk dir ≡ ok dir_entries
unfolding readdir entries decode is_utf8 utf8_from utf8_step utf8_start until_zero is_dir read_at
    read_loop read_part file_zone
readdir_run = refl

dir_lookup_lem_example :
    ((dir_lookup dir_disk dir (97 ∷ []) ≡ ok none) × Unnamed (97 ∷ []) dir_entries)
    ⊎ ((ino : ℕ) × (dir_lookup dir_disk dir (97 ∷ []) ≡ ok (some ino))
        × LastNamed (97 ∷ []) dir_entries ino)
dir_lookup_lem_example = dir_lookup_lem dir_disk dir (97 ∷ []) dir_entries readdir_run

abbrev mounted : MinixFs
mounted = record { imap_blocks = 1; zmap_blocks = 1; ninodes = 64; zones = 64 }

-- The directory, and an inode table with a file as inode 6.
abbrev tree_disk : Disk
tree_disk b =
    if b == 4 then some (replicate 320 0 ++ (0xa4 ∷ 0x81 ∷ 1 ∷ replicate 701 0)) else dir_disk b

abbrev leaf : Inode
leaf = record { ino = 6; mode = 0o100644; nlinks = 1; size = 0; zones = replicate 10 0 }

walk_run : walk tree_disk mounted dir ((97 ∷ []) ∷ []) ≡ ok (some leaf)
unfolding walk dir_lookup last_named same_name inode readdir entries decode is_utf8 utf8_from
    utf8_step utf8_start until_zero is_dir read_at read_loop read_part file_zone
walk_run = refl

-- "a/b": "a" is a file.
walk-Walked_example :
    Walked tree_disk mounted dir
      ((97 ∷ []) ∷ (98 ∷ []) ∷ [])
      (walk tree_disk mounted dir ((97 ∷ []) ∷ (98 ∷ []) ∷ []))
walk-Walked_example = walk-Walked tree_disk mounted dir ((97 ∷ []) ∷ (98 ∷ []) ∷ [])

components_run :
    components (split (47 ∷ 97 ∷ 47 ∷ 46 ∷ 47 ∷ 98 ∷ []) []) ≡ (97 ∷ []) ∷ ((98 ∷ []) ∷ [])
unfolding components split same_name
components_run = refl
