-- ===== src/Mem/Uaccess/RoundTrip.antt =====
-- Reads of the user window (kernel/mem/uaccess.rs): `copy_in`, alone and after `copy_out`.
use light_os_orion_risc_v.Prelude.{
  ℕ, zero, suc, ◌+◌, ◌-◌, ◌*◌, ◌/◌, ◌%◌, ◌^◌, ◌<◌, ◌≤◌, ◌≡◌, ◌≢◌, refl, sym, ap, ap₂, ◌∙◌, none,
  some, List, [], ◌∷◌, ◌++◌, arith, length, get_or, take, drop, min, Option-cases, inl, inr,
  length-drop, get_or-drop, ne→==,
}
use light_os_orion_risc_v.Mem.Memory.{Memory, read_bytes, read_byte}
use light_os_orion_risc_v.Mem.Memory.Bytes.{Bytes, read_bytes-take}
use light_os_orion_risc_v.Mem.Mmu.{found, virt_to_phys}
use light_os_orion_risc_v.Mem.Mmu.Tree.{Owner, IsTree}
use light_os_orion_risc_v.Mem.Mmu.Translate.{translation, page_of, virt_to_phys_cases}
use light_os_orion_risc_v.Mem.Uaccess.{
  user_va_start, user_va_end, check_range, chunk, put, got, get_pages, after_bytes, copy_out,
  copy_in,
}
use light_os_orion_risc_v.Mem.Uaccess.Window.{
  Window, translation_offset, user_byte, user_byte-mapped, user_byte-unmapped,
}
use light_os_orion_risc_v.Mem.Uaccess.Copies.{copy_out-PutDone}

pub take-append-drop : (n : ℕ) (l : List ℕ) → take n l ++ drop n l ≡ l
take-append-drop zero l = refl
take-append-drop (suc n) [] = refl
take-append-drop (suc n) (x ∷ l) = ap (λ r. x ∷ r) (take-append-drop n l)

some_injective : (a b : ℕ) → some a ≡ some b → a ≡ b
some_injective a b e = cc

-- The byte at a distance within the page.
page_byte :
    (m : Memory) (root : ℕ) (owner : Owner) (va pa i b : ℕ)
    → IsTree m root owner
    → translation m root va ≡ some pa
    → va % 4096 + i < 4096
    → user_byte m root (va + i) ≡ some b
    → read_byte m.words (pa + i) ≡ b
page_byte m root owner va pa i b tree mapped lt h =
    let same : (va + i) / 4096 ≡ va / 4096 = omega arith in
    let page : page_of (va + i) ≡ page_of va = ap (λ x. x % 2 ^ 27) same in
    let (there, offset) = translation_offset m root owner va pa (va + i) tree mapped page in
    let at : pa / 4096 * 4096 + (va + i) % 4096 ≡ pa + i = omega arith in
    some_injective (read_byte m.words (pa + i)) b
      (sym (user_byte-mapped m root (va + i) (pa + i) (there ∙ ap some at)) ∙ h)

get_pages-found :
    (fuel : ℕ) (m : Memory) (root va left pa : ℕ)
    → left ≢ 0
    → virt_to_phys m root va ≡ found pa m
    → get_pages (suc fuel) m root va left
      ≡ after_bytes
          (read_bytes m.words pa (chunk va left))
          (get_pages fuel m root (va + chunk va left) (left - chunk va left))
unfolding get_pages
get_pages-found fuel m root va left pa ne e = rw (ne→== left 0 ne, e, get_pages) refl

-- Bytes of the window that are all there are read as they are.
get_pages-got :
    (fuel : ℕ) (m : Memory) (root : ℕ) (owner : Owner) (va left : ℕ) (src : List ℕ)
    → Window m root owner
    → left ≡ length src
    → left ≤ fuel
    → ((i : ℕ) → i < length src → user_byte m root (va + i) ≡ some (get_or src i 0))
    → get_pages fuel m root va left ≡ got src
unfolding get_pages chunk
get_pages-got zero m root owner va left [] w len le h = refl
get_pages-got zero m root owner va left (b ∷ rest) w len le h = absurd (omega arith)
get_pages-got (suc fuel) m root owner va left [] w len le h = rw (len, get_pages) refl
get_pages-got (suc fuel) m root owner va left (b ∷ rest) w len le h =
    let src : List ℕ = b ∷ rest in
    elim (virt_to_phys_cases m root owner va w.tree) [
      | inl (gone, e') ↦
          let start : va ≡ va + 0 = omega arith in
          let there = ap (user_byte m root) start ∙ h 0 (omega arith) in
          let not_there = user_byte-unmapped m root va gone in absurd cc
      | inr (pa, mapped, e') ↦
          let n : ℕ = min (4096 - va % 4096) left in
          let read : read_bytes m.words pa n ≡ take n src =
            read_bytes-take n m.words pa src (omega arith) (λ i lt.
              page_byte m root owner va pa i (get_or src i 0) w.tree mapped (omega arith)
                (h i (omega arith))) in
          let rest_left : left - n ≡ length (drop n src) = omega (arith, length-drop n src) in
          let ih =
            get_pages-got fuel m root owner (va + n) (left - n) (drop n src) w rest_left
              (omega arith)
              (λ i lt.
                let e : va + n + i ≡ va + (n + i) = omega arith in
                let d = get_or-drop n i src 0 in
                ap (user_byte m root) e
                ∙ h (n + i) (omega (arith, length-drop n src))
                ∙ ap some (sym d)) in
          get_pages-found fuel m root va left pa (omega arith) e'
          ∙ ap₂ after_bytes read ih
          ∙ ap got (take-append-drop n src)
    ]

-- `copy_in` of a range of the window gives the bytes that are there.
pub copy_in-got :
    (m : Memory) (root : ℕ) (owner : Owner) (uva : ℕ) (src : List ℕ)
    → Window m root owner
    → user_va_start ≤ uva
    → uva + length src ≤ user_va_end
    → ((i : ℕ) → i < length src → user_byte m root (uva + i) ≡ some (get_or src i 0))
    → copy_in m root uva (length src) ≡ got src
unfolding copy_in check_range
copy_in-got m root owner uva src w lo hi bytes =
    let free : check_range uva (length src) ≡ none = ground arith in
    rw (free, copy_in)
      (get_pages-got (length src) m root owner uva (length src) src w refl (omega arith) bytes)

-- In a window in which every mapped page has a frame of its own and no frame is a table, where
-- `copy_out` of bytes below 256 to an address succeeded, `copy_in` of as many bytes from that
-- address gives them back.
pub copy_in-copy_out :
    (m m' : Memory) (root : ℕ) (owner : Owner) (uva : ℕ) (src : List ℕ)
    → Window m root owner
    → Bytes src
    → copy_out m root uva src ≡ put m'
    → copy_in m' root uva (length src) ≡ got src
unfolding copy_in copy_out
copy_in-copy_out m m' root owner uva src w bytes e =
    elim (Option-cases (check_range uva (length src))) [
      | inr (f, refused) ↦ absurd (ground arith)
      | inl free ↦
          let (lo, hi, r) = copy_out-PutDone m m' root owner uva src w bytes e in
          rw (free, copy_in)
            (get_pages-got (length src) m' root owner uva (length src) src r.window refl
              (omega arith)
              (λ i lt.
                let b = r.bytes (uva + i) (omega arith, omega arith) in
                let at : uva + i - uva ≡ i = omega arith in
                let v : get_or src (uva + i - uva) 0 ≡ get_or src i 0 = rw at refl in
                ground (arith, b, v)))
    ]
