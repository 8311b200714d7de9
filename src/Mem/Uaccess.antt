-- ===== src/Mem/Uaccess.antt =====
-- kernel/mem/uaccess.rs: copies between the kernel and the user window of a process, page by page
-- through the software walk. The rounds of the loops are counted by the bytes that are left, of
-- which every round takes one at least.
pub mod Window
pub mod Copies
pub mod RoundTrip
pub mod Space
pub mod Tests
use light_os_orion_risc_v.Prelude.{
  ℕ, zero, suc, ◌+◌, ◌-◌, ◌%◌, Option, none, some, List, [], ◌∷◌, ◌++◌, ltb, leb, ◌||◌, ◌==◌,
  if◌then◌else◌, length, take, drop, min,
}
use light_os_orion_risc_v.Mem.Layout.{page_size, usize_mod}
use light_os_orion_risc_v.Mem.Memory.{Memory, write_bytes, read_bytes}
use light_os_orion_risc_v.Mem.Mmu.{found, missing, superpage, virt_to_phys}
use light_os_orion_risc_v.Minix3.Dir.{is_utf8}

abbrev pub user_va_start : ℕ
user_va_start = 0x4000_0000

abbrev pub user_va_end : ℕ
user_va_end = 0x8000_0000

pub data AccessFault : Type 0 where
  address_overflow : AccessFault
  outside_window : AccessFault
  unmapped_address : AccessFault
  invalid_utf8 : AccessFault
  too_long : AccessFault

-- The `Err` of `check_range`.
pub check_range : ℕ → ℕ → Option AccessFault
check_range uva len =
    if leb usize_mod (uva + len)
    then some address_overflow
    else if ltb uva user_va_start || ltb user_va_end (uva + len)
    then some outside_window
    else none

-- What a copy to the user gives, with the memory after it, and what a copy from the user gives.
pub data Put : Type 0 where
  put : Memory → Put
  put_fails : AccessFault → Memory → Put
  put_panics : Put

pub data Got : Type 0 where
  got : List ℕ → Got
  got_fails : AccessFault → Got
  got_panics : Got

-- The bytes of a round: to the end of the page, or all that are left.
pub chunk : ℕ → ℕ → ℕ
chunk va left = min (page_size - va % page_size) left

pub put_pages : ℕ → Memory → ℕ → ℕ → List ℕ → Put
put_pages zero m root va src = put m
put_pages (suc fuel) m root va src =
    if length src == 0 then put m else elim (virt_to_phys m root va) [
      | found pa m' ↦
          let n = chunk va (length src) in
          put_pages fuel (record m' { words = write_bytes m'.words pa (take n src) }) root (va + n)
            (drop n src)
      | missing m' ↦ put_fails unmapped_address m'
      | superpage ↦ put_panics
    ]

pub copy_out : Memory → ℕ → ℕ → List ℕ → Put
copy_out m root uva src = elim (check_range uva (length src)) [
  | some e ↦ put_fails e m
  | none ↦ put_pages (length src) m root uva src
]

-- The bytes read so far stand before those of the next rounds.
abbrev pub after_bytes : List ℕ → Got → Got
after_bytes bytes (got rest) = got (bytes ++ rest)
after_bytes bytes (got_fails e) = got_fails e
after_bytes bytes got_panics = got_panics

pub get_pages : ℕ → Memory → ℕ → ℕ → ℕ → Got
get_pages zero m root va left = got []
get_pages (suc fuel) m root va left = if left == 0 then got [] else elim (virt_to_phys m root va) [
  | found pa m' ↦
      let n = chunk va left in
      after_bytes (read_bytes m'.words pa n) (get_pages fuel m' root (va + n) (left - n))
  | missing m' ↦ got_fails unmapped_address
  | superpage ↦ got_panics
]

pub copy_in : Memory → ℕ → ℕ → ℕ → Got
copy_in m root uva len = elim (check_range uva len) [
  | some e ↦ got_fails e
  | none ↦ get_pages len m root uva len
]

-- The loop of `copy_in_cstr`, with the bytes that were read and `left` that may follow.
pub cstr_bytes : ℕ → Memory → ℕ → ℕ → List ℕ → Got
cstr_bytes zero m root uva bytes = got_fails too_long
cstr_bytes (suc left) m root uva bytes = elim (copy_in m root uva 1) [
  | got [] ↦ got_panics
  | got (zero ∷ rest) ↦ if is_utf8 bytes then got bytes else got_fails invalid_utf8
  | got (suc b ∷ rest) ↦ cstr_bytes left m root ((uva + 1) % usize_mod) (bytes ++ suc b ∷ [])
  | got_fails e ↦ got_fails e
  | got_panics ↦ got_panics
]

-- Into a buffer of `len` bytes, one at least.
pub copy_in_cstr : Memory → ℕ → ℕ → ℕ → Got
copy_in_cstr m root uva len = cstr_bytes (len - 1) m root uva []
