-- ===== src/Mem/Uaccess/Window.antt =====
-- The user window of a root (kernel/mem/uaccess.rs): its pages are frames of their own, so a copy
-- into one of them changes no table and no other page.
use Prim.Native.Nat.{bit_and}
use light_os_orion_risc_v.Prelude.{
  ℕ, suc, ◌+◌, ◌-◌, ◌*◌, ◌/◌, ◌%◌, ◌<◌, ◌≤◌, ◌≡◌, ◌≢◌, refl, sym, ap, ◌∙◌, false, Option, none,
  some, List, arith, ltb, leb, ◌&&◌, if◌then◌else◌, length, get_or, Option-cases, Bool-cases,
  ℕ_discrete, inl, inr,
}
use light_os_orion_risc_v.Mem.Memory.{Memory, read_word, write_bytes, read_byte}
use light_os_orion_risc_v.Mem.Memory.Bytes.{Bytes, read-write_bytes, write_bytes-outside}
use light_os_orion_risc_v.Mem.Mmu.{entry, valid, pte_pa, pte_r, pte_w, pte_x}
use light_os_orion_risc_v.Mem.Mmu.Pte.{pte_pa-aligned}
use light_os_orion_risc_v.Mem.Mmu.Tree.{Owner, IsTree, aligned, leaf, leaf_same}
use light_os_orion_risc_v.Mem.Mmu.Translate.{
  translation, translation-leaf, translation_congr, page_of,
}
use light_os_orion_risc_v.Mem.Mmu.Mapping.{same_leaf_entry}
use light_os_orion_risc_v.Mem.Uaccess.{user_va_start, user_va_end}

abbrev pub InWindow : ℕ → Type 0
InWindow va = (user_va_start ≤ va) × (va < user_va_end)

pub record Window (m : Memory) (root : ℕ) (owner : Owner) : Type 0 where
  pub tree : IsTree m root owner
  pub no_table :
      (va pa : ℕ) → InWindow va → translation m root va ≡ some pa → owner (pa / 4096 * 4096) ≡ none
  pub apart :
      (va va' pa pa' : ℕ)
      → InWindow va
      → InWindow va'
      → translation m root va ≡ some pa
      → translation m root va' ≡ some pa'
      → pa / 4096 ≡ pa' / 4096
      → page_of va ≡ page_of va'

-- Addresses of one page keep their distance.
pub translation_offset :
    (m : Memory) (root : ℕ) (owner : Owner) (va pa va' : ℕ)
    → IsTree m root owner
    → translation m root va ≡ some pa
    → page_of va' ≡ page_of va
    → (translation m root va' ≡ some (pa / 4096 * 4096 + va' % 4096)) × (pa % 4096 ≡ va % 4096)
translation_offset m root owner va pa va' tree e page =
    elim (Bool-cases (valid (leaf m.words 2 root va))) [
      | inr v ↦
          let no_way : translation m root va ≡ none =
            rw (translation-leaf m root owner va tree, v) refl in
          absurd cc
      | inl v ↦
          let frame : ℕ = pte_pa (leaf m.words 2 root va) in
          let now : translation m root va ≡ some (frame + va % 4096) =
            rw (translation-leaf m root owner va tree, v) refl in
          let at : frame + va % 4096 ≡ pa = ground arith in
          let al : frame % 4096 ≡ 0 = pte_pa-aligned (leaf m.words 2 root va) in
          let base : frame ≡ pa / 4096 * 4096 = omega arith in
          (
            rw
                (
                  translation-leaf m root owner va' tree,
                  same_leaf_entry m.words root va' va page,
                  v,
                  base,
                )
                refl,
            omega arith,
          )
    ]

-- The byte that an address of the process stands for.
pub user_byte : Memory → ℕ → ℕ → Option ℕ
user_byte m root va = elim (translation m root va) [
  | none ↦ none
  | some pa ↦ some (read_byte m.words pa)
]

pub user_byte-mapped :
    (m : Memory) (root va pa : ℕ)
    → translation m root va ≡ some pa
    → user_byte m root va ≡ some (read_byte m.words pa)
unfolding user_byte
user_byte-mapped m root va pa e = rw (e, user_byte) refl

pub user_byte-unmapped :
    (m : Memory) (root va : ℕ) → translation m root va ≡ none → user_byte m root va ≡ none
unfolding user_byte
user_byte-unmapped m root va e = rw (e, user_byte) refl

-- A write of bytes within one page of the window.
module _ (m : Memory) (root : ℕ) (owner : Owner) (w : Window m root owner) (va pa : ℕ)
    (src : List ℕ) (within : InWindow va) (mapped : translation m root va ≡ some pa)
    (fits : va % 4096 + length src ≤ 4096) (bytes : Bytes src) where
  abbrev pub wrote : Memory
  wrote = record m { words = write_bytes m.words pa src }

  offset : pa % 4096 ≡ va % 4096
  offset = (translation_offset m root owner va pa va w.tree mapped refl).1

  tables_same :
      (t j : ℕ) (o : ℕ × ℕ)
      → owner t ≡ some o
      → j < 512
      → read_word wrote.words (entry t j) ≡ read_word m.words (entry t j)
  unfolding read_word entry
  tables_same t j o h lt =
      let al = aligned m.frames t (w.tree.frame t o h) in
      write_bytes-outside src m.words pa ((t + 8 * j) / 8) (λ i small e.
        let same : pa / 4096 * 4096 ≡ t = omega (arith, offset) in
        let free : owner t ≡ none = ap owner (sym same) ∙ w.no_table va pa within mapped in
        absurd cc)

  wrote-IsTree : IsTree wrote root owner
  wrote-IsTree = record {
    at_root = w.tree.at_root;
    frame = w.tree.frame;
    child = λ t l p j h lt v.
        let e = tables_same t j (suc l, p) h lt in
        ap owner (ap pte_pa e) ∙ w.tree.child t l p j h lt (sym (ap valid e) ∙ v);
    inner = λ t l p j h lt v.
        let e = tables_same t j (suc l, p) h lt in
        ap (λ y. bit_and y (pte_r + pte_w + pte_x)) e
        ∙ w.tree.inner t l p j h lt (sym (ap valid e) ∙ v);
    allocator = w.tree.allocator;
  }

  pub wrote-translation : (x : ℕ) → translation wrote root x ≡ translation m root x
  wrote-translation x =
      translation_congr m wrote root owner owner x w.tree wrote-IsTree
        (leaf_same m root owner wrote.words w.tree tables_same 2 root 0 x w.tree.at_root)

  pub wrote-Window : Window wrote root owner
  wrote-Window = record {
    tree = wrote-IsTree;
    no_table = λ x px i e. w.no_table x px i (sym (wrote-translation x) ∙ e);
    apart = λ x y px py i j e f.
        w.apart x y px py i j (sym (wrote-translation x) ∙ e) (sym (wrote-translation y) ∙ f);
  }

  -- A byte of the window is the one written to its address, or what it was.
  pub wrote-user_byte :
      (x : ℕ)
      → InWindow x
      → user_byte wrote root x ≡ (
          if leb va x && ltb x (va + length src)
          then some (get_or src (x - va) 0)
          else user_byte m root x)
  wrote-user_byte x i = elim (Option-cases (translation m root x)) [
    | inl gone ↦
        let out : (leb va x && ltb x (va + length src)) ≡ false =
          (elim (Bool-cases (leb va x && ltb x (va + length src))) [
            | inr outside ↦ outside
            | inl inside ↦
                let page : page_of x ≡ page_of va = ground arith in
                let there = (translation_offset m root owner va pa x w.tree mapped page).0 in
                absurd cc
          ]) in
        user_byte-unmapped wrote root x (wrote-translation x ∙ gone)
        ∙ sym (rw out (user_byte-unmapped m root x gone))
    | inr (px, e) ↦
        let now = user_byte-mapped wrote root x px (wrote-translation x ∙ e) in
        let was = user_byte-mapped m root x px e in
        let r = read-write_bytes src m.words pa px bytes in
        elim (ℕ_discrete (page_of x) (page_of va)) [
          | yes page ↦
              let there = (translation_offset m root owner va pa x w.tree mapped page).0 in
              let at : px ≡ pa / 4096 * 4096 + x % 4096 = ground arith in
              let same : x / 4096 ≡ va / 4096 = omega arith in
              let d : px - pa ≡ x - va = omega (arith, offset) in
              let c : px + va ≡ pa + x = omega (arith, offset) in ground (arith, now, was, r, c, d)
          | no other ↦
              let apart : px / 4096 ≢ pa / 4096 =
                (λ f. other (w.apart x va px pa i within e mapped f)) in
              let far : x / 4096 ≢ va / 4096 = omega arith in
              ground (arith, now, was, r, apart, far, offset)
        ]
  ]
