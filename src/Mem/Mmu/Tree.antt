-- ===== src/Mem/Mmu/Tree.antt =====
-- The tables of kernel/mem/mmu.rs that one root reaches, as a tree: which table stands where, what
-- a walk through them finds, and what a new table changes.
use Prim.Native.Nat.{bit_and}
use light_os_orion_risc_v.Prelude.{
  ℕ, zero, suc, ◌+◌, ◌*◌, ◌%◌, ◌<◌, ◌≡◌, ◌≢◌, refl, sym, ap, ◌∙◌, true, false, Option, none, some,
  arith, Bool-cases, inl, inr, if◌then◌else◌, Bool-cases,
}
use light_os_orion_risc_v.Mem.Layout.{ram_start}
use light_os_orion_risc_v.Mem.Page.{PageAllocator, max_frames, is_used}
use light_os_orion_risc_v.Mem.Page.Inv.{IsValid}
use light_os_orion_risc_v.Mem.Memory.{
  Memory, read_word, write_word, zero_pages, read-write_word_self, read-write_word_ne,
}
use light_os_orion_risc_v.Mem.Mmu.{entry, valid, pte_pa, table_pte, vpn, pte_r, pte_w, pte_x}
use light_os_orion_risc_v.Mem.Mmu.Pte.{entry_eq, vpn-lt, valid-zero}

-- Which frames are tables: the level of each, and the upper bits of the page numbers below it.
abbrev pub Owner : Type 0
Owner = ℕ → Option (ℕ × ℕ)

-- A frame of RAM that the allocator has handed out.
pub record IsFrame (a : PageAllocator) (t : ℕ) : Type 0 where
  pub number : ℕ
  pub address : t ≡ ram_start + number * 4096
  pub in_ram : number < max_frames
  pub used : is_used a.bitmap number ≡ true

pub record IsTree (m : Memory) (root : ℕ) (owner : Owner) : Type 0 where
  pub at_root : owner root ≡ some (2, 0)
  pub frame : (t : ℕ) (o : ℕ × ℕ) → owner t ≡ some o → IsFrame m.frames t
  pub child :
      (t l p i : ℕ)
      → owner t ≡ some (suc l, p)
      → i < 512
      → valid (read_word m.words (entry t i)) ≡ true
      → owner (pte_pa (read_word m.words (entry t i))) ≡ some (l, p * 512 + i)
  pub inner :
      (t l p i : ℕ)
      → owner t ≡ some (suc l, p)
      → i < 512
      → valid (read_word m.words (entry t i)) ≡ true
      → bit_and (read_word m.words (entry t i)) (pte_r + pte_w + pte_x) ≡ 0
  pub allocator : IsValid m.frames

pub aligned : (a : PageAllocator) (t : ℕ) → IsFrame a t → t % 4096 ≡ 0
aligned a t f = omega (arith, f.address)

-- The address of the leaf entry for `va` below a table at a level, and what it holds, 0 if a table
-- is missing on the way.
unfoldable pub find : (ℕ → ℕ) → ℕ → ℕ → ℕ → Option ℕ
find words zero t va = some (entry t (vpn va 0))
find words (suc l) t va =
    let pte = read_word words (entry t (vpn va (suc l))) in
    let below = find words l (pte_pa pte) va in if valid pte then below else none

unfoldable pub leaf : (ℕ → ℕ) → ℕ → ℕ → ℕ → ℕ
leaf words l t va = elim (find words l t va) [ none ↦ 0 | some at ↦ read_word words at ]

pub find-step :
    (words : ℕ → ℕ) (l t va : ℕ)
    → valid (read_word words (entry t (vpn va (suc l)))) ≡ true
    → find words (suc l) t va
      ≡ find words l (pte_pa (read_word words (entry t (vpn va (suc l))))) va
unfolding find
find-step words l t va h = rw (h, find) refl

pub find-end :
    (words : ℕ → ℕ) (l t va : ℕ)
    → valid (read_word words (entry t (vpn va (suc l)))) ≡ false
    → find words (suc l) t va ≡ none
unfolding find
find-end words l t va h = rw (h, find) refl

pub leaf-zero :
    (words : ℕ → ℕ) (t va : ℕ) → leaf words 0 t va ≡ read_word words (entry t (vpn va 0))
unfolding leaf find
leaf-zero words t va = refl

pub leaf-step :
    (words : ℕ → ℕ) (l t va : ℕ)
    → valid (read_word words (entry t (vpn va (suc l)))) ≡ true
    → leaf words (suc l) t va
      ≡ leaf words l (pte_pa (read_word words (entry t (vpn va (suc l))))) va
unfolding leaf find
leaf-step words l t va h = rw (h, leaf) refl

pub leaf-end :
    (words : ℕ → ℕ) (l t va : ℕ)
    → valid (read_word words (entry t (vpn va (suc l)))) ≡ false
    → leaf words (suc l) t va ≡ 0
unfolding leaf find
leaf-end words l t va h = rw (h, leaf) refl

-- What an address leads to stays the same while the tables that have an owner keep their entries.
pub leaf_same :
    (m : Memory) (root : ℕ) (owner : Owner) (words : ℕ → ℕ)
    → IsTree m root owner
    → ((t j : ℕ) (o : ℕ × ℕ)
        → owner t ≡ some o
        → j < 512
        → read_word words (entry t j) ≡ read_word m.words (entry t j))
    → (l t p va : ℕ) → owner t ≡ some (l, p)
    → leaf words l t va ≡ leaf m.words l t va
leaf_same m root owner words tree same zero t p va h =
    leaf-zero words t va ∙ same t (vpn va 0) (0, p) h (vpn-lt va 0) ∙ sym (leaf-zero m.words t va)
leaf_same m root owner words tree same (suc l) t p va h =
    let i : ℕ = vpn va (suc l) in
    let e = same t i (suc l, p) h (vpn-lt va (suc l)) in
    elim (Bool-cases (valid (read_word m.words (entry t i)))) [
      | inl v ↦
          let c = tree.child t l p i h (vpn-lt va (suc l)) v in
          leaf-step words l t va (ap valid e ∙ v)
          ∙ ap (λ x. leaf words l x va) (ap pte_pa e)
          ∙ leaf_same m root owner words tree same l (pte_pa (read_word m.words (entry t i)))
              (p * 512 + i) va c
          ∙ sym (leaf-step m.words l t va v)
      | inr v ↦ leaf-end words l t va (ap valid e ∙ v) ∙ sym (leaf-end m.words l t va v)
    ]

-- A table of zeros has no entry.
pub leaf-empty :
    (words : ℕ → ℕ) (n va : ℕ)
    → ((j : ℕ) → j < 512 → read_word words (entry n j) ≡ 0)
    → (l : ℕ) → leaf words l n va ≡ 0
leaf-empty words n va h zero = leaf-zero words n va ∙ h (vpn va 0) (vpn-lt va 0)
leaf-empty words n va h (suc l) =
    leaf-end words l n va (ap valid (h (vpn va (suc l)) (vpn-lt va (suc l))) ∙ valid-zero)

-- The words after table `n` was zero_entry and linked at entry `i` of table `t`.
pub record Linked (old : ℕ → ℕ) (t i n : ℕ) (new : ℕ → ℕ) : Type 0 where
  pub fresh : (j : ℕ) → j < 512 → read_word new (entry n j) ≡ 0
  pub link : read_word new (entry t i) ≡ table_pte n
  pub others :
      (s j : ℕ)
      → s % 4096 ≡ 0
      → j < 512
      → s ≢ n
      → ((s ≡ t) → j ≢ i)
      → read_word new (entry s j) ≡ read_word old (entry s j)

pub zero_entry :
    (words : ℕ → ℕ) (n j : ℕ)
    → n % 4096 ≡ 0
    → j < 512
    → read_word (zero_pages words n 1) (entry n j) ≡ 0
unfolding read_word zero_pages entry
zero_entry words n j al h = ground arith

pub untouched :
    (words : ℕ → ℕ) (n s j : ℕ)
    → n % 4096 ≡ 0
    → s % 4096 ≡ 0
    → j < 512
    → s ≢ n
    → read_word (zero_pages words n 1) (entry s j) ≡ read_word words (entry s j)
unfolding read_word zero_pages entry
untouched words n s j al al' h ne = ground arith

pub link-Linked :
    (words : ℕ → ℕ) (t i n : ℕ)
    → t % 4096 ≡ 0
    → n % 4096 ≡ 0
    → i < 512
    → t ≢ n
    → Linked words t i n (write_word (zero_pages words n 1) (entry t i) (table_pte n))
link-Linked words t i n ht hn hi ne = record {
  fresh = λ j h.
      read-write_word_ne (zero_pages words n 1) (entry t i) (table_pte n) (entry n j)
        (λ e. ne ((entry_eq t n i j ht hn hi h e).0))
      ∙ zero_entry words n j hn h;
  link = read-write_word_self (zero_pages words n 1) (entry t i) (table_pte n) (entry t i) refl;
  others = λ s j hs hj sn st.
      read-write_word_ne (zero_pages words n 1) (entry t i) (table_pte n) (entry s j)
        (λ e. let both = entry_eq t s i j ht hs hi hj e in st (sym (both.0)) (sym (both.1)))
      ∙ untouched words n s j hn hs hj sn;
}
