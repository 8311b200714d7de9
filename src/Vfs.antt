-- ===== src/Vfs.antt =====
-- kernel/fs/mod.rs and kernel/fs/ramfs.rs: the mounted root, and where programs come from. `files`
-- stands for FILES, whose images the build makes.
mod Tests
use light_os_orion_risc_v.Prelude.{
  ℕ, Bool, true, false, Option, none, some, List, [], ◌∷◌, if◌then◌else◌,
}
use light_os_orion_risc_v.Minix3.{Disk, FsError, Result, ok, err, Inode, MinixFs, mount, read_file}
use light_os_orion_risc_v.Minix3
use light_os_orion_risc_v.Minix3.Dir.{is_file, same_name}
use light_os_orion_risc_v.Minix3.Dir

-- The programs that are embedded in the kernel: names and images.
abbrev pub Files : Type 0
Files = List (List ℕ × List ℕ)

unfoldable pub ramfs_lookup : Files → List ℕ → Option (List ℕ)
ramfs_lookup [] name = none
ramfs_lookup ((n, image) ∷ r) name =
    let rest = ramfs_lookup r name in if same_name n name then some image else rest

-- `device` is whether the block device is there. The new root, and whether there is one.
unfoldable pub mount_root : Bool → Disk → Option MinixFs → Option MinixFs × Bool
mount_root device disk root =
    if device
    then elim (mount disk) [ err e ↦ (root, false) | ok fs ↦ (some fs, true) ]
    else (root, false)

-- `none` is the error that no root is mounted.
unfoldable pub lookup : Disk → Option MinixFs → List ℕ → Option (Result (Option Inode))
lookup disk root path = elim root [ none ↦ none | some fs ↦ some (Dir.lookup disk fs path) ]

-- The regular file that a path leads to.
unfoldable pub regular_file : Disk → Option MinixFs → List ℕ → Option Inode
regular_file disk root path = elim (lookup disk root path) [
  | none ↦ none
  | some found ↦ elim found [
    | err e ↦ none
    | ok there ↦ elim there [ none ↦ none | some i ↦ if is_file i then some i else none ]
  ]
]

-- "disk first, embedded ramfs as fallback"
unfoldable pub load_program : Files → Disk → Option MinixFs → List ℕ → Option (List ℕ)
load_program files disk root path = elim (regular_file disk root path) [
  | none ↦ ramfs_lookup files path
  | some i ↦ elim (read_file disk i) [ err e ↦ ramfs_lookup files path | ok bytes ↦ some bytes ]
]
