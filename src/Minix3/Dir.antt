-- ===== src/Minix3/Dir.antt =====
-- Directories and paths (kernel/fs/minix3.rs, `readdir`, `dir_lookup` and `lookup`). A name is the
-- list of its bytes.
use Prim.Native.Nat.{bit_and}
use light_os_orion_risc_v.Prelude.{
  ℕ, zero, suc, ◌+◌, ◌-◌, ◌/◌, Bool, true, false, ◌&&◌, not, Option, none, some, List, [], ◌∷◌,
  ◌++◌, ltb, leb, ◌==◌, if◌then◌else◌, length, drop,
}
use light_os_orion_risc_v.Minix3.{
  Disk, not_a_directory, Result, ok, err, Inode, MinixFs, s_ifdir, s_ifreg, s_ifmt, le32, inode,
  read_at,
}

abbrev pub dirent_size : ℕ
dirent_size = 64

abbrev pub root_ino : ℕ
root_ino = 1

unfoldable pub is_dir : Inode → Bool
is_dir i = bit_and i.mode s_ifmt == s_ifdir

unfoldable pub is_file : Inode → Bool
is_file i = bit_and i.mode s_ifmt == s_ifreg

-- Where a UTF-8 decoder stands: whether all was well, how many bytes are to come, and the bounds of
-- the next.
pub record Utf8State : Type 0 where
  pub valid : Bool
  pub need : ℕ
  pub lo : ℕ
  pub hi : ℕ

abbrev expect : ℕ → ℕ → ℕ → Utf8State
expect need lo hi = record { valid = true; need = need; lo = lo; hi = hi }

unfoldable pub utf8_start : ℕ → Utf8State
utf8_start b =
    if ltb b 0x80
    then expect 0 0 0
    else if leb 0xc2 b && leb b 0xdf
    then expect 1 0x80 0xbf
    else if b == 0xe0
    then expect 2 0xa0 0xbf
    else if b == 0xed
    then expect 2 0x80 0x9f
    else if leb 0xe1 b && leb b 0xef
    then expect 2 0x80 0xbf
    else if b == 0xf0
    then expect 3 0x90 0xbf
    else if leb 0xf1 b && leb b 0xf3
    then expect 3 0x80 0xbf
    else if b == 0xf4
    then expect 3 0x80 0x8f
    else record { valid = false; need = 0; lo = 0; hi = 0 }

unfoldable pub utf8_step : Utf8State → ℕ → Utf8State
utf8_step s b =
    if s.need == 0
    then utf8_start b
    else if leb s.lo b && leb b s.hi
    then expect (s.need - 1) 0x80 0xbf
    else record s { valid = false }

unfoldable pub utf8_from : Utf8State → List ℕ → Bool
utf8_from s [] = s.need == 0
utf8_from s (b ∷ r) = let next = utf8_step s b in next.valid && utf8_from next r

-- Whether `core::str::from_utf8` succeeds.
unfoldable pub is_utf8 : List ℕ → Bool
is_utf8 bytes = utf8_from (expect 0 0 0) bytes

-- The bytes before the first 0.
unfoldable pub until_zero : List ℕ → List ℕ
until_zero [] = []
until_zero (b ∷ r) = let rest = until_zero r in if b == 0 then [] else b ∷ rest

abbrev pub Entry : Type 0
Entry = List ℕ × ℕ

-- What the callback of `readdir` is called with for one directory entry.
unfoldable pub decode : List ℕ → List Entry
decode entry =
    let name = until_zero (drop 4 entry) in
    if le32 entry 0 == 0 then [] else if is_utf8 name then (name, le32 entry 0) ∷ [] else []

-- The loop of `readdir`, with the rounds left.
unfoldable pub entries : Disk → Inode → ℕ → ℕ → Result (List Entry)
entries disk dir zero offset = ok []
entries disk dir (suc rounds) offset =
    let rest = entries disk dir rounds (offset + dirent_size) in
    if not (leb (offset + dirent_size) dir.size)
    then ok []
    else elim (read_at disk dir offset dirent_size) [
      | err e ↦ err e
      | ok entry ↦
          if ltb (length entry) dirent_size
          then ok []
          else elim rest [ err e ↦ err e | ok more ↦ ok (decode entry ++ more) ]
    ]

-- The calls of the callback, in order.
unfoldable pub readdir : Disk → Inode → Result (List Entry)
readdir disk dir =
    if not (is_dir dir) then err not_a_directory else entries disk dir (dir.size / dirent_size) 0

unfoldable pub same_name : List ℕ → List ℕ → Bool
same_name [] [] = true
same_name [] (y ∷ ys) = false
same_name (x ∷ xs) [] = false
same_name (x ∷ xs) (y ∷ ys) = x == y && same_name xs ys

-- The callback of `dir_lookup`: a later entry of the same name overwrites an earlier one.
unfoldable pub last_named : List ℕ → List Entry → Option ℕ → Option ℕ
last_named name [] found = found
last_named name ((entry_name, ino) ∷ r) found =
    last_named name r (if same_name entry_name name then some ino else found)

unfoldable pub dir_lookup : Disk → Inode → List ℕ → Result (Option ℕ)
dir_lookup disk dir name = elim (readdir disk dir) [
  | err e ↦ err e
  | ok es ↦ ok (last_named name es none)
]

-- The loop of `lookup` over the components of a path.
unfoldable pub walk : Disk → MinixFs → Inode → List (List ℕ) → Result (Option Inode)
walk disk fs i [] = ok (some i)
walk disk fs i (comp ∷ r) = if not (is_dir i) then ok none else elim (dir_lookup disk i comp) [
  | err e ↦ err e
  | ok found ↦ elim found [
    | none ↦ ok none
    | some ino ↦ elim (inode disk fs ino) [ err e ↦ err e | ok next ↦ walk disk fs next r ]
  ]
]

-- `path.split('/')`, with the component that is being read.
unfoldable pub split : List ℕ → List ℕ → List (List ℕ)
split [] comp = comp ∷ []
split (b ∷ r) comp = if b == 47 then comp ∷ split r [] else split r (comp ++ (b ∷ []))

-- `filter(|c| !c.is_empty() && *c != ".")`
unfoldable pub components : List (List ℕ) → List (List ℕ)
components [] = []
components (c ∷ r) =
    if not (length c == 0) && not (same_name c (46 ∷ [])) then c ∷ components r else components r

unfoldable pub lookup : Disk → MinixFs → List ℕ → Result (Option Inode)
lookup disk fs path = elim (inode disk fs root_ino) [
  | err e ↦ err e
  | ok root ↦ walk disk fs root (components (split path []))
]
