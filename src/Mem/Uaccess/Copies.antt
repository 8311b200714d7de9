-- ===== src/Mem/Uaccess/Copies.antt =====
-- `copy_out` and `copy_in` of kernel/mem/uaccess.rs: what they do to the bytes of the process.
use light_os_orion_risc_v.Prelude.{
  ℕ, zero, suc, ◌+◌, ◌-◌, ◌%◌, ◌<◌, ◌≤◌, ◌≡◌, ◌≢◌, refl, sym, ◌∙◌, none, some, List, arith, ltb,
  leb, ◌&&◌, if◌then◌else◌, length, get_or, take, drop, min, Option-cases, ℕ_discrete, dec_lt, inl,
  inr, length-take, length-drop, get_or-take, get_or-drop, ne→==,
}
use light_os_orion_risc_v.Mem.Memory.{Memory, write_bytes}
use light_os_orion_risc_v.Mem.Memory.Bytes.{Bytes}
use light_os_orion_risc_v.Mem.Mmu.{found, virt_to_phys}
use light_os_orion_risc_v.Mem.Mmu.Tree.{Owner}
use light_os_orion_risc_v.Mem.Mmu.Translate.{translation, virt_to_phys_cases}
use light_os_orion_risc_v.Mem.Uaccess.{
  user_va_start, user_va_end, check_range, chunk, put, put_pages, copy_out,
}
use light_os_orion_risc_v.Mem.Uaccess.Window.{
  InWindow, Window, user_byte, wrote-translation, wrote-Window, wrote-user_byte,
}

Bytes-take : (n : ℕ) (l : List ℕ) → Bytes l → Bytes (take n l)
Bytes-take n l h i lt =
    let small : i < min n (length l) = rw (← length-take n l) lt in
    rw (get_or-take n i l 0 (omega arith)) (h i (omega arith))

Bytes-drop : (n : ℕ) (l : List ℕ) → Bytes l → Bytes (drop n l)
Bytes-drop n l h i lt =
    let small : i < length l - n = rw (← length-drop n l) lt in
    rw (get_or-drop n i l 0) (h (n + i) (omega arith))

-- What the bytes of the window are after a slice was written.
abbrev pub Wrote : Memory → Memory → ℕ → ℕ → List ℕ → Type 0
Wrote m m' root va src =
    (x : ℕ)
    → InWindow x
    → user_byte m' root x ≡ (
        if leb va x && ltb x (va + length src)
        then some (get_or src (x - va) 0)
        else user_byte m root x)

-- What a copy to the window keeps and changes.
pub record PutDone (m : Memory) (root : ℕ) (owner : Owner) (va : ℕ) (src : List ℕ) (m' : Memory)
    : Type 0 where
  pub window : Window m' root owner
  pub same : (x : ℕ) → translation m' root x ≡ translation m root x
  pub bytes : Wrote m m' root va src

PutDone-empty :
    (m : Memory) (root : ℕ) (owner : Owner) (va : ℕ) (src : List ℕ)
    → Window m root owner
    → length src ≡ 0
    → PutDone m root owner va src m
PutDone-empty m root owner va src w e = record {
  window = w;
  same = λ x. refl;
  bytes = λ x i. ground arith;
}

-- A round and the rest of the rounds.
PutDone-step :
    (m m' : Memory) (root : ℕ) (owner : Owner) (va pa n : ℕ) (src : List ℕ)
    → (w : Window m root owner) → InWindow va
    → translation m root va ≡ some pa
    → va % 4096 + n ≤ 4096
    → n ≤ length src
    → Bytes src
    → PutDone
        (record m { words = write_bytes m.words pa (take n src) })
        root
        owner
        (va + n)
        (drop n src)
        m'
    → PutDone m root owner va src m'
PutDone-step m m' root owner va pa n src w within mapped fits le bytes rest = record {
  window = rest.window;
  same = λ x.
      rest.same x
      ∙ wrote-translation m root owner w va pa (take n src) within mapped fits'
          (Bytes-take n src bytes) x;
  bytes = λ x i.
      let first =
        wrote-user_byte m root owner w va pa (take n src) within mapped fits'
          (Bytes-take n src bytes) x i in
      let after = rest.bytes x i in
      elim (dec_lt x (va + n)) [
        | yes early ↦ elim (dec_lt x va) [
          | yes before ↦ ground (arith, first, after, len)
          | no inside ↦
              let v = get_or-take n (x - va) src 0 (omega arith) in
              ground (arith, first, after, len, v)
        ]
        | no late ↦
            let v = get_or-drop n (x - (va + n)) src 0 in
            let e : n + (x - (va + n)) ≡ x - va = omega arith in
            let v' : get_or (drop n src) (x - (va + n)) 0 ≡ get_or src (x - va) 0 = rw (← e) v in
            ground (arith, first, after, len, len', v')
      ];
}
  where
    len : length (take n src) ≡ n
    len = omega (arith, length-take n src)

    len' : length (drop n src) ≡ length src - n
    len' = length-drop n src

    fits' : va % 4096 + length (take n src) ≤ 4096
    fits' = omega (arith, len)

put_pages-found :
    (fuel : ℕ) (m : Memory) (root va pa : ℕ) (src : List ℕ)
    → length src ≢ 0
    → virt_to_phys m root va ≡ found pa m
    → put_pages (suc fuel) m root va src
      ≡ put_pages fuel
          (record m { words = write_bytes m.words pa (take (chunk va (length src)) src) })
          root
          (va + chunk va (length src))
          (drop (chunk va (length src)) src)
unfolding put_pages
put_pages-found fuel m root va pa src ne e = rw (ne→== (length src) 0 ne, e, put_pages) refl

put_pages-PutDone :
    (fuel : ℕ) (m m' : Memory) (root : ℕ) (owner : Owner) (va : ℕ) (src : List ℕ)
    → Window m root owner
    → length src ≤ fuel
    → user_va_start ≤ va
    → va + length src ≤ user_va_end
    → Bytes src
    → put_pages fuel m root va src ≡ put m'
    → PutDone m root owner va src m'
unfolding put_pages chunk
put_pages-PutDone zero m m' root owner va src w le lo hi bytes e =
    let same : m ≡ m' = ground arith in
    rw (← same) (PutDone-empty m root owner va src w (omega arith))
put_pages-PutDone (suc fuel) m m' root owner va src w le lo hi bytes e =
    elim (ℕ_discrete (length src) 0) [
      | yes empty ↦
          let same : m ≡ m' = ground arith in
          rw (← same) (PutDone-empty m root owner va src w empty)
      | no more ↦ elim (virt_to_phys_cases m root owner va w.tree) [
        | inl (gone, e') ↦ let f = ne→== (length src) 0 more in absurd (ground arith)
        | inr (pa, mapped, e') ↦
            let n : ℕ = min (4096 - va % 4096) (length src) in
            let len = length-drop n src in
            let fits : va % 4096 + length (take n src) ≤ 4096 = omega (arith, length-take n src) in
            let w' =
              wrote-Window m root owner w va pa (take n src) (lo, omega arith) mapped fits
                (Bytes-take n src bytes) in
            PutDone-step m m' root owner va pa n src w (lo, omega arith) mapped (omega arith)
              (omega arith) bytes
              (put_pages-PutDone fuel (record m { words = write_bytes m.words pa (take n src) }) m'
                root owner (va + n) (drop n src) w' (omega (arith, len)) (omega arith)
                (omega (arith, len)) (Bytes-drop n src bytes)
                (sym (put_pages-found fuel m root va pa src more e') ∙ e))
      ]
    ]

in_range :
    (uva len : ℕ) → check_range uva len ≡ none → (user_va_start ≤ uva) × (uva + len ≤ user_va_end)
unfolding check_range
in_range uva len e = (ground arith, ground arith)

-- A successful `copy_out` of bytes was into the user window. It writes them to the addresses from
-- `uva` on, changes no other byte of the window and no translation, and the window's pages are
-- still frames of their own.
pub copy_out-PutDone :
    (m m' : Memory) (root : ℕ) (owner : Owner) (uva : ℕ) (src : List ℕ)
    → Window m root owner
    → Bytes src
    → copy_out m root uva src ≡ put m'
    → (user_va_start ≤ uva) × (uva + length src ≤ user_va_end) × PutDone m root owner uva src m'
unfolding copy_out
copy_out-PutDone m m' root owner uva src w bytes e =
    elim (Option-cases (check_range uva (length src))) [
      | inr (f, refused) ↦ absurd (ground arith)
      | inl free ↦
          let (lo, hi) = in_range uva (length src) free in
          (
            lo,
            hi,
            put_pages-PutDone (length src) m m' root owner uva src w (omega arith) lo hi bytes
                (ground arith),
          )
    ]
