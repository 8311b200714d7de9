-- ===== src/Vfs/Tests.antt =====
-- Runs of kernel/fs/mod.rs: without a root the embedded program is loaded.
use light_os_orion_risc_v.Prelude.{◌≡◌, refl, none, some, [], ◌∷◌, false}
use light_os_orion_risc_v.Minix3.Dir.{same_name}
use light_os_orion_risc_v.Vfs.{Files, ramfs_lookup, mount_root, lookup, regular_file, load_program}

abbrev files : Files
files = (105 ∷ [], 1 ∷ []) ∷ (104 ∷ [], 2 ∷ []) ∷ []

embedded_run : load_program files (λ b. none) none (104 ∷ []) ≡ some (2 ∷ [])
unfolding load_program regular_file lookup ramfs_lookup same_name
embedded_run = refl

no_device_run : mount_root false (λ b. none) none ≡ (none, false)
unfolding mount_root
no_device_run = refl
