-- ===== src/Mem/Mmu/Grow.antt =====
-- A new table below an entry of the tree of kernel/mem/mmu.rs.
use Prim.Native.Nat.{bit_and}
use light_os_orion_risc_v.Prelude.{
  ℕ, zero, suc, ◌+◌, ◌*◌, ◌%◌, ◌<◌, ◌≡◌, ◌≢◌, refl, sym, ap, ◌∙◌, true, false, none, some, arith,
  ◌==◌, if◌then◌else◌, Bool-cases, Option-cases, ℕ_discrete, ==_refl, ne→==, ◌⊎◌, inl, inr,
}
use light_os_orion_risc_v.Mem.Page.{is_used, alloc}
use light_os_orion_risc_v.Mem.Page.Inv.{IsValid, alloc-Allocated}
use light_os_orion_risc_v.Mem.Memory.{Memory, read_word, zero_pages, page_alloc}
use light_os_orion_risc_v.Mem.Mmu.{entry, valid, pte_pa, table_pte, vpn, pte_r, pte_w, pte_x}
use light_os_orion_risc_v.Mem.Mmu.Pte.{
  valid-table_pte, pte_pa-table_pte, table_pte-inner, vpn-lt, valid-zero,
}
use light_os_orion_risc_v.Mem.Mmu.Tree.{
  Owner, IsFrame, IsTree, aligned, leaf, leaf-zero, leaf-step, leaf-end, leaf-empty, Linked,
}

-- What `page_alloc` of one frame gives.
pub record NewFrame (m : Memory) (n : ℕ) (m' : Memory) : Type 0 where
  pub words : m'.words ≡ zero_pages m.words n 1
  pub frame : IsFrame m'.frames n
  pub kept : (t : ℕ) → IsFrame m.frames t → IsFrame m'.frames t × (t ≢ n)
  pub allocator : IsValid m'.frames

pub page_alloc-NewFrame :
    (m m' : Memory) (n : ℕ) → IsValid m.frames → page_alloc m 1 ≡ some (n, m') → NewFrame m n m'
unfolding page_alloc
page_alloc-NewFrame m m' n v e = elim (Option-cases (alloc m.frames 1)) [
  | inl failed ↦ absurd (ground arith)
  | inr ((addr, after), ok) ↦
      let (s, r) = alloc-Allocated m.frames after 1 addr v ok in
      let at : addr ≡ n = ground arith in
      let now : record { words = zero_pages m.words n 1; frames = after } ≡ m' = ground arith in
      rw (← now) (record {
        words = refl;
        frame = record {
          number = s;
          address = omega (arith, r.address);
          in_ram = omega (arith, r.in_ram);
          used = ground (arith, r.marks s);
        };
        kept = λ t f. (
          record {
            number = f.number;
            address = f.address;
            in_ram = f.in_ram;
            used = ground (arith, r.marks f.number, f.used);
          },
          λ same.
              let num : f.number ≡ s = omega (arith, f.address, r.address) in
              let free = r.was_free s (omega arith) (omega arith) in
              let used : is_used m.frames.bitmap s ≡ true =
                ap (is_used m.frames.bitmap) (sym num) ∙ f.used in
              cc,
        );
        allocator = r.valid;
      })
]

-- What a step of a walk that may allocate tables keeps: the tables there are, the valid entries in
-- them, and what every address leads to.
pub record Extends (m : Memory) (owner : Owner) (m' : Memory) (owner' : Owner) : Type 0 where
  pub same_owner : (t : ℕ) (o : ℕ × ℕ) → owner t ≡ some o → owner' t ≡ some o
  pub same_entry :
      (t j : ℕ) (o : ℕ × ℕ)
      → owner t ≡ some o
      → j < 512
      → valid (read_word m.words (entry t j)) ≡ true
      → read_word m'.words (entry t j) ≡ read_word m.words (entry t j)
  pub same_leaf :
      (l t p va : ℕ) → owner t ≡ some (l, p) → leaf m'.words l t va ≡ leaf m.words l t va
  pub same_frame : (x : ℕ) → IsFrame m.frames x → IsFrame m'.frames x
  -- A frame that was taken for something else does not become a table.
  pub same_use : (x : ℕ) → IsFrame m.frames x → owner' x ≡ owner x

pub Extends-refl : (m : Memory) (owner : Owner) → Extends m owner m owner
Extends-refl m owner = record {
  same_owner = λ t o h. h;
  same_entry = λ t j o h lt v. refl;
  same_leaf = λ l t p va h. refl;
  same_frame = λ x f. f;
  same_use = λ x f. refl;
}

pub Extends-trans :
    (m m' m'' : Memory) (o o' o'' : Owner)
    → Extends m o m' o'
    → Extends m' o' m'' o''
    → Extends m o m'' o''
Extends-trans m m' m'' o o' o'' a b = record {
  same_owner = λ t x h. b.same_owner t x (a.same_owner t x h);
  same_entry = λ t j x h lt v.
      let first = a.same_entry t j x h lt v in
      b.same_entry t j x (a.same_owner t x h) lt (ap valid first ∙ v) ∙ first;
  same_leaf = λ l t p va h. b.same_leaf l t p va (a.same_owner t (l, p) h) ∙ a.same_leaf l t p va h;
  same_frame = λ x f. b.same_frame x (a.same_frame x f);
  same_use = λ x f. b.same_use x (a.same_frame x f) ∙ a.same_use x f;
}

-- The owners after table `n` was hung below the entry `i` of a table at level `suc l`.
pub grown : Owner → ℕ → ℕ → ℕ → Owner
grown owner n l q = λ t. if t == n then some (l, q) else owner t

pub grown_self : (owner : Owner) (n l q : ℕ) → grown owner n l q n ≡ some (l, q)
unfolding grown
grown_self owner n l q = rw (==_refl n) refl

grown_ne : (owner : Owner) (n l q t : ℕ) → t ≢ n → grown owner n l q t ≡ owner t
unfolding grown
grown_ne owner n l q t ne = rw (ne→== t n ne) refl

grown_cases :
    (owner : Owner) (n l q t : ℕ) (o : ℕ × ℕ)
    → grown owner n l q t ≡ some o
    → ((t ≡ n) × (o ≡ (l, q))) ⊎ ((t ≢ n) × (owner t ≡ some o))
grown_cases owner n l q t o h = elim (ℕ_discrete t n) [
  | yes same ↦
      let e : grown owner n l q t ≡ some (l, q) =
        ap (grown owner n l q) same ∙ grown_self owner n l q in
      inl (same, cc)
  | no ne ↦ inr (ne, sym (grown_ne owner n l q t ne) ∙ h)
]

dec_pair : (a b c d : ℕ) → ((a ≡ b) × (c ≡ d)) ⊎ ((a ≡ b) → c ≢ d)
dec_pair a b c d = elim (ℕ_discrete a b) [
  | no ne ↦ inr (λ e. absurd (ne e))
  | yes e ↦ elim (ℕ_discrete c d) [ yes e' ↦ inl (e, e') | no ne ↦ inr (λ x. ne) ]
]

module _ (m : Memory) (root : ℕ) (owner : Owner) (tree : IsTree m root owner) (t l p i n : ℕ)
    (m' : Memory) (here : owner t ≡ some (suc l, p)) (inside : i < 512)
    (unlinked : valid (read_word m.words (entry t i)) ≡ false) (unowned : owner n ≡ none)
    (frame : IsFrame m'.frames n) (new : Linked m.words t i n m'.words) where
  al : (x : ℕ) (o : ℕ × ℕ) → owner x ≡ some o → x % 4096 ≡ 0
  al x o h = aligned m.frames x (tree.frame x o h)

  old_ne : (x : ℕ) (o : ℕ × ℕ) → owner x ≡ some o → x ≢ n
  old_ne x o h e = let e' = ap owner e in cc

  elsewhere : (x j : ℕ) → valid (read_word m.words (entry x j)) ≡ true → (x ≡ t) → j ≢ i
  elsewhere x j v e e' =
      let w : read_word m.words (entry x j) ≡ read_word m.words (entry t i) = rw (e, e') refl in cc

  entry_kept :
      (x j : ℕ) (o : ℕ × ℕ)
      → owner x ≡ some o
      → j < 512
      → valid (read_word m.words (entry x j)) ≡ true
      → read_word m'.words (entry x j) ≡ read_word m.words (entry x j)
  entry_kept x j o h lt v = new.others x j (al x o h) lt (old_ne x o h) (elsewhere x j v)

  at_n : pte_pa (table_pte n) ≡ n
  at_n = pte_pa-table_pte n (aligned m'.frames n frame) (omega (arith, frame.address, frame.in_ram))

  -- Below an entry that was not valid there was nothing, and is nothing but an empty table.
  leaf_opened :
      (l' x p' va : ℕ)
      → owner x ≡ some (suc l', p')
      → valid (read_word m.words (entry x (vpn va (suc l')))) ≡ false
      → leaf m'.words (suc l') x va ≡ leaf m.words (suc l') x va
  leaf_opened l' x p' va h v = elim (dec_pair x t (vpn va (suc l')) i) [
    | inl (e, e') ↦
        let link : read_word m'.words (entry x (vpn va (suc l'))) ≡ table_pte n =
          rw (e, e') new.link in
        leaf-step m'.words l' x va (ap valid link ∙ valid-table_pte n)
        ∙ ap (λ y. leaf m'.words l' y va) (ap pte_pa link ∙ at_n)
        ∙ leaf-empty m'.words n va new.fresh l'
        ∙ sym (leaf-end m.words l' x va v)
    | inr other ↦
        let same =
          new.others x (vpn va (suc l')) (al x (suc l', p') h) (vpn-lt va (suc l'))
            (old_ne x (suc l', p') h) other in
        leaf-end m'.words l' x va (ap valid same ∙ v) ∙ sym (leaf-end m.words l' x va v)
  ]

  leaf_kept :
      (l' x p' va : ℕ) → owner x ≡ some (l', p') → leaf m'.words l' x va ≡ leaf m.words l' x va
  leaf_kept zero x p' va h =
      leaf-zero m'.words x va
      ∙ new.others x (vpn va 0) (al x (0, p') h) (vpn-lt va 0) (old_ne x (0, p') h)
          (λ e e'. let e'' = ap owner e in cc)
      ∙ sym (leaf-zero m.words x va)
  leaf_kept (suc l') x p' va h =
      elim (Bool-cases (valid (read_word m.words (entry x (vpn va (suc l')))))) [
        | inl v ↦
            let e = entry_kept x (vpn va (suc l')) (suc l', p') h (vpn-lt va (suc l')) v in
            let c = tree.child x l' p' (vpn va (suc l')) h (vpn-lt va (suc l')) v in
            let go =
              leaf_kept l' (pte_pa (read_word m.words (entry x (vpn va (suc l')))))
                (p' * 512 + vpn va (suc l')) va c in
            leaf-step m'.words l' x va (ap valid e ∙ v)
            ∙ rw e go
            ∙ sym (leaf-step m.words l' x va v)
        | inr v ↦ leaf_opened l' x p' va h v
      ]

  owner_kept : (x : ℕ) (o : ℕ × ℕ) → owner x ≡ some o → grown owner n l (p * 512 + i) x ≡ some o
  owner_kept x o h = grown_ne owner n l (p * 512 + i) x (old_ne x o h) ∙ h

  pub grow-Extends :
      ((x : ℕ) → IsFrame m.frames x → IsFrame m'.frames x × (x ≢ n))
      → Extends m owner m' (grown owner n l (p * 512 + i))
  grow-Extends kept = record {
    same_owner = owner_kept;
    same_entry = entry_kept;
    same_leaf = leaf_kept;
    same_frame = λ x f. (kept x f).0;
    same_use = λ x f. grown_ne owner n l (p * 512 + i) x (kept x f).1;
  }

  -- The entries of the new tree: the link, or an entry that was there.
  grow_child :
      (x l' p' j : ℕ)
      → grown owner n l (p * 512 + i) x ≡ some (suc l', p')
      → j < 512
      → valid (read_word m'.words (entry x j)) ≡ true
      → (grown owner n l (p * 512 + i) (pte_pa (read_word m'.words (entry x j)))
          ≡ some (l', p' * 512 + j))
        × (bit_and (read_word m'.words (entry x j)) (pte_r + pte_w + pte_x) ≡ 0)
  grow_child x l' p' j h lt v = elim (grown_cases owner n l (p * 512 + i) x (suc l', p') h) [
    | inl (e, o) ↦
        let w : read_word m'.words (entry x j) ≡ 0 = rw e (new.fresh j lt) in
        let none_there = valid-zero in cc
    | inr (ne, o) ↦ elim (dec_pair x t j i) [
      | inl (e, e') ↦
          let link : read_word m'.words (entry x j) ≡ table_pte n = rw (e, e') new.link in
          let o' = ap owner e in
          let above : suc l ≡ suc l' = cc in
          let level : l ≡ l' = omega arith in
          let prefix : p ≡ p' = cc in
          (
            ap (grown owner n l (p * 512 + i)) (ap pte_pa link ∙ at_n)
                ∙ grown_self owner n l (p * 512 + i)
                ∙ rw (level, prefix, e') refl,
            ap (λ y. bit_and y (pte_r + pte_w + pte_x)) link ∙ table_pte-inner n,
          )
      | inr other ↦
          let same = new.others x j (al x (suc l', p') o) lt ne other in
          let c = tree.child x l' p' j o lt (sym (ap valid same) ∙ v) in
          (
            ap (grown owner n l (p * 512 + i)) (ap pte_pa same)
                ∙ grown_ne owner n l (p * 512 + i) (pte_pa (read_word m.words (entry x j)))
                    (old_ne (pte_pa (read_word m.words (entry x j))) (l', p' * 512 + j) c)
                ∙ c,
            ap (λ y. bit_and y (pte_r + pte_w + pte_x)) same
                ∙ tree.inner x l' p' j o lt (sym (ap valid same) ∙ v),
          )
    ]
  ]

  pub grow-IsTree :
      ((x : ℕ) → IsFrame m.frames x → IsFrame m'.frames x)
      → IsValid m'.frames
      → IsTree m' root (grown owner n l (p * 512 + i))
  grow-IsTree kept ok = record {
    at_root = owner_kept root (2, 0) tree.at_root;
    frame = λ x o h. elim (grown_cases owner n l (p * 512 + i) x o h) [
      | inl (e, e') ↦ rw e frame
      | inr (ne, h') ↦ kept x (tree.frame x o h')
    ];
    child = λ x l' p' j h lt v. (grow_child x l' p' j h lt v).0;
    inner = λ x l' p' j h lt v. (grow_child x l' p' j h lt v).1;
    allocator = ok;
  }
