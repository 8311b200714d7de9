-- ===== src/Syscall/Files.antt =====
-- kernel/syscall/posix.rs: `sys_openat`, reads of files and devices, and `sys_getdents64`.
use Prim.Native.Nat.{bit_and}
use light_os_orion_risc_v.Prelude.{
  ℕ, zero, suc, ◌+◌, ◌-◌, ◌*◌, ◌/◌, ◌%◌, not, ◌&&◌, Option, none, some, List, [], ◌∷◌, ◌++◌, ltb,
  leb, ◌==◌, if◌then◌else◌, length, take, drop, set, min, replicate,
}
use light_os_orion_risc_v.Prelude.Text.{strip_prefix, parse_usize}
use light_os_orion_risc_v.Mem.Layout.{usize_mod}
use light_os_orion_risc_v.Mem.Uaccess.{got, got_fails, got_panics, copy_in_cstr}
use light_os_orion_risc_v.Minix3
use light_os_orion_risc_v.Minix3.{Result, ok, err, Inode, Disk, MinixFs, read_at}
use light_os_orion_risc_v.Minix3.Dir.{is_dir, Entry, readdir}
use light_os_orion_risc_v.Vfs
use light_os_orion_risc_v.Nce.{count}
use light_os_orion_risc_v.Nce.Describe.{describe}
use light_os_orion_risc_v.Sched.{Process, FdKind, file, nce, socket, OpenFile}
use light_os_orion_risc_v.Sched.Files.{place, open_file}
use light_os_orion_risc_v.Syscall.State.{
  Kernel, Answer, value, Call, returns, panic, with_current, set_process, to_user, le_bytes, ebadf,
  efault, enoent, enotdir, eisdir, eio,
}

abbrev pub o_directory : ℕ
o_directory = 0o200000

-- `fs::inode`; `none` is an error.
abbrev pub inode_of : Kernel → ℕ → Option Inode
inode_of k ino = elim k.root_fs [
  | none ↦ none
  | some fs ↦ elim (Minix3.inode k.disk fs ino) [ err e ↦ none | ok i ↦ some i ]
]

-- What a path stands for, or the error.
pub data Opened : Type 0 where
  opens : FdKind → Opened
  refuses : Answer → Opened

-- "/dev/nce"
abbrev pub nce_prefix : List ℕ
nce_prefix = 47 ∷ 100 ∷ 101 ∷ 118 ∷ 47 ∷ 110 ∷ 99 ∷ 101 ∷ []

unfoldable pub open_kind : Kernel → List ℕ → ℕ → Opened
open_kind k path flags =
    let directory = not (bit_and flags o_directory == 0) in
    elim (strip_prefix nce_prefix path) [
      | some rest ↦ elim (parse_usize rest) [
        | none ↦ refuses enoent
        | some n ↦
            if leb (count k.nces) n
            then refuses enoent
            else if directory
            then refuses enotdir
            else opens (nce n)
      ]
      | none ↦ elim (Vfs.lookup k.disk k.root_fs path) [
        | none ↦ refuses enoent
        | some answer ↦ elim answer [
          | err e ↦ refuses enoent
          | ok there ↦ elim there [
            | none ↦ refuses enoent
            | some i ↦ if directory && not (is_dir i) then refuses enotdir else opens (file i.ino)
          ]
        ]
      ]
    ]

unfoldable pub sys_openat : Kernel → ℕ → ℕ → Call
sys_openat k path_uva flags = with_current k (λ cur p.
    elim (copy_in_cstr k.memory p.root_pa path_uva 128) [
      | got_fails e ↦ returns efault k
      | got_panics ↦ panic
      | got path ↦ elim (open_kind k path flags) [
        | refuses e ↦ returns e k
        | opens kind ↦
            let placed = place p.files (record { kind = kind; pos = 0 }) in
            returns (value (placed.1 + 3)) (set_process k cur (record p { files = placed.0 }))
      ]
    ])

-- `f.pos = pos` for an open descriptor.
abbrev pub set_pos : Kernel → ℕ → Process → ℕ → OpenFile → ℕ → Kernel
set_pos k cur p fd f pos =
    set_process k cur (record p { files = set p.files (fd - 3) (some (record f { pos = pos })) })

-- The loop of `file_read`, with `left` bytes to go; what follows gets the bytes that were read.
unfoldable pub read_chunks : ℕ → Kernel → ℕ → Inode → ℕ → ℕ → ℕ → ℕ → (Kernel → ℕ → Call) → Call
read_chunks zero k root inode pos uva left so_far finish = finish k so_far
read_chunks (suc rounds) k root inode pos uva left so_far finish =
    if left == 0
    then finish k so_far
    else elim (read_at k.disk inode (pos + so_far) (min 512 left)) [
      | err e ↦ returns eio k
      | ok bytes ↦
          if length bytes == 0
          then finish k so_far
          else to_user k root ((uva + so_far) % usize_mod) bytes (λ k'.
            if ltb (length bytes) (min 512 left)
            then finish k' (so_far + length bytes)
            else read_chunks rounds k' root inode pos uva (left - length bytes)
                (so_far + length bytes) finish)
    ]

-- A read of a device: its text from the position on.
unfoldable pub device_read : Kernel → ℕ → Process → ℕ → OpenFile → ℕ → ℕ → ℕ → Call
device_read k cur p fd f n uva len = elim (describe k.nces n) [
  | none ↦ returns ebadf k
  | some text ↦
      let rest = drop f.pos text in
      let m = min len (length rest) in
      if leb (length text) f.pos
      then returns (value 0) k
      else to_user k p.root_pa uva (take m rest)
          (λ k'. returns (value m) (set_pos k' cur p fd f (f.pos + m)))
]

unfoldable pub file_read : Kernel → ℕ → ℕ → ℕ → Call
file_read k fd uva len = with_current k (λ cur p. elim (open_file p fd) [
  | none ↦ returns ebadf k
  | some f ↦ elim f.kind [
    | socket idx ↦ returns ebadf k
    | nce n ↦ device_read k cur p fd f n uva len
    | file ino ↦ elim (inode_of k ino) [
      | none ↦ returns ebadf k
      | some i ↦
          if is_dir i
          then returns eisdir k
          else read_chunks len k p.root_pa i f.pos uva len 0
              (λ k' n. returns (value n) (set_pos k' cur p fd f (f.pos + n)))
    ]
  ]
])

-- The length of a record: header, name and NUL, to a multiple of eight.
abbrev pub reclen : List ℕ → ℕ
reclen name = (length name + 27) / 8 * 8

unfoldable pub dirent : Kernel → Entry → ℕ → List ℕ
dirent k (name, ino) seq =
    let kind : ℕ = elim (inode_of k ino) [ none ↦ 8 | some i ↦ if is_dir i then 4 else 8 ] in
    le_bytes 8 ino
    ++ le_bytes 8 seq
    ++ le_bytes 2 (reclen name)
    ++ (kind ∷ name)
    ++ replicate (reclen name - (length name + 19)) 0

-- The records that fit, and how many they are.
unfoldable pub dirents : Kernel → List Entry → ℕ → ℕ → List ℕ × ℕ
dirents k [] seq room = ([], 0)
dirents k ((name, ino) ∷ rest) seq room =
    let later = dirents k rest (seq + 1) (room - reclen name) in
    if ltb room (reclen name) then ([], 0) else (dirent k (name, ino) seq ++ later.0, later.1 + 1)

unfoldable pub sys_getdents64 : Kernel → ℕ → ℕ → ℕ → Call
sys_getdents64 k fd uva len =
    if ltb fd 3
    then returns ebadf k
    else with_current k (λ cur p. elim (open_file p fd) [
      | none ↦ returns ebadf k
      | some f ↦ elim f.kind [
        | socket idx ↦ returns enotdir k
        | nce n ↦ returns enotdir k
        | file ino ↦ elim (inode_of k ino) [
          | none ↦ returns ebadf k
          | some dir ↦ if not (is_dir dir) then returns enotdir k else elim (readdir k.disk dir) [
            | err e ↦ returns eio k
            | ok all ↦
                let out = dirents k (take 32 (drop f.pos all)) (f.pos + 1) (min 512 len) in
                let finish = λ (k' : Kernel).
                  returns (value (length out.0)) (set_pos k' cur p fd f (f.pos + out.1)) in
                if length out.0 == 0 then finish k else to_user k p.root_pa uva out.0 finish
          ]
        ]
      ]
    ])
