-- ===== src/Syscall/MmapLoop.antt =====
-- The loop of `sys_mmap` (kernel/syscall/posix.rs) on an address space: new pages, and the window that
-- it keeps.
use light_os_orion_risc_v.Prelude.{
  ℕ, zero, suc, ◌+◌, ◌*◌, ◌%◌, ◌^◌, ◌<◌, ◌≤◌, ◌≡◌, ◌≢◌, ◌⊎◌, inl, inr, refl, sym, ap, ◌∙◌, none,
  some, arith, ℕ_discrete, Option-cases,
}
use light_os_orion_risc_v.Mem.Layout.{page_size, usize_mod}
use light_os_orion_risc_v.Mem.Memory.{Memory, page_alloc}
use light_os_orion_risc_v.Mem.Mmu.{Outcome, done, failed, panics, and_then, pte_u, pte_r, pte_w}
use light_os_orion_risc_v.Mem.Mmu
use light_os_orion_risc_v.Mem.Mmu.Tree.{Owner, IsTree}
use light_os_orion_risc_v.Mem.Mmu.Translate.{translation, page_of, translated}
use light_os_orion_risc_v.Mem.Mmu.Mapping.{virt_to_phys-map}
use light_os_orion_risc_v.Mem.Mmu.Range.{was_done, was_not, map_cases, and_then-stop}
use light_os_orion_risc_v.Mem.Uaccess.Window.{translation_offset}
use light_os_orion_risc_v.Mem.Uaccess.Space.{Space, map_frame-Space}
use light_os_orion_risc_v.Mem.Mmu.Data.{page_alloc-Beside}
use light_os_orion_risc_v.Syscall.Pages.{map_new}

-- An address of the pages from a start on.
abbrev pub InPages : ℕ → ℕ → ℕ → Type 0
InPages start pages x = (start ≤ x) × (x < start + pages * 4096)

-- The pages from a start on are new in an address space, and the rest of it is as it was.
pub record NewPages (m m' : Memory) (root start pages : ℕ) : Type 0 where
  pub was_free : (x : ℕ) → InPages start pages x → translation m root x ≡ none
  pub mapped :
      (x : ℕ)
      → InPages start pages x
      → (pa : ℕ) × (translation m' root x ≡ some pa) × (pa % 4096 ≡ x % 4096)
  pub others :
      (x : ℕ)
      → x < 2 ^ 39
      → (x < start) ⊎ (start + pages * 4096 ≤ x)
      → translation m' root x ≡ translation m root x
  pub owner' : Owner
  pub tree : IsTree m' root owner'

-- No address of a page is mapped if one is not.
free_page :
    (m : Memory) (root : ℕ) (owner : Owner) (va : ℕ)
    → IsTree m root owner
    → translation m root va ≡ none
    → (x : ℕ) → page_of x ≡ page_of va
    → translation m root x ≡ none
free_page m root owner va tree free x page = elim (Option-cases (translation m root x)) [
  | inl gone ↦ gone
  | inr (px, there) ↦
      let at = (translation_offset m root owner x px va tree there (sym page)).0 in absurd cc
]

map_new-step :
    (pages : ℕ) (m m1 : Memory) (root va n : ℕ)
    → page_alloc m 1 ≡ some (n, m1)
    → map_new (suc pages) m root va
      ≡ and_then
          (Mmu.map m1 root va n (pte_u + pte_r + pte_w))
          (λ m2. map_new pages m2 root ((va + page_size) % usize_mod))
unfolding map_new
map_new-step pages m m1 root va n ok = rw (ok, map_new) refl

pub map_new-NewPages :
    (pages : ℕ) (m m' : Memory) (root : ℕ) (owner : Owner) (va : ℕ)
    → IsTree m root owner
    → va % 4096 ≡ 0
    → va + pages * 4096 ≤ 2 ^ 39
    → map_new pages m root va ≡ done m'
    → NewPages m m' root va pages
unfolding map_new
map_new-NewPages zero m m' root owner va tree al fit e =
    let same : m ≡ m' = ground arith in
    rw (← same) (record {
      was_free = λ x i. absurd (omega arith);
      mapped = λ x i. absurd (omega arith);
      others = λ x lt out. refl;
      owner' = owner;
      tree = tree;
    })
map_new-NewPages (suc pages) m m' root owner va tree al fit e =
    elim (Option-cases (page_alloc m 1)) [
      | inl full ↦ absurd (ground arith)
      | inr ((n, m1), ok) ↦
          let b = page_alloc-Beside m m1 root n owner tree ok in
          let flags : ℕ = pte_u + pte_r + pte_w in
          let rest : Memory → Outcome =
            (λ m2. map_new pages m2 root ((va + page_size) % usize_mod)) in
          let step = sym (map_new-step pages m m1 root va n ok) ∙ e in
          elim (map_cases (Mmu.map m1 root va n flags)) [
            | was_not stops ↦ absurd (and_then-stop (Mmu.map m1 root va n flags) rest m' stops step)
            | was_done m2 ok2 ↦
                let (before, now, same, (owner2, tree2)) =
                  virt_to_phys-map m1 m2 root owner va n flags b.tree b.page b.word (omega arith)
                    ok2 in
                let next : (va + page_size) % usize_mod ≡ va + 4096 = omega arith in
                let later =
                  map_new-NewPages pages m2 m' root owner2 (va + 4096) tree2 (omega arith)
                    (omega arith)
                    (ap (λ y. map_new pages m2 root y) (sym next)
                      ∙ sym (ap (λ r. and_then r rest) ok2)
                      ∙ step) in
                let free : (x : ℕ) → page_of x ≡ page_of va → translation m1 root x ≡ none =
                  free_page m1 root owner va b.tree before in
                record {
                  was_free = λ x i. elim (ℕ_discrete (page_of x) (page_of va)) [
                    | yes page ↦ sym (b.same x) ∙ free x page
                    | no ne ↦
                        sym (b.same x)
                        ∙ sym (same x ne)
                        ∙ later.was_free x (omega arith, omega arith)
                  ];
                  mapped = λ x i. elim (ℕ_discrete (page_of x) (page_of va)) [
                    | yes page ↦
                        let t = translated m2 root x (n + x % 4096) (now x page) in
                        let o = later.others x (omega arith) (inl (omega arith)) in
                        (n + x % 4096, o ∙ t, omega (arith, b.page))
                    | no ne ↦ later.mapped x (omega arith, omega arith)
                  ];
                  others = λ x lt out.
                      let ne : page_of x ≢ page_of va =
                        (λ page. elim out [ inl below ↦ omega arith | inr above ↦ omega arith ]) in
                      let out' : (x < va + 4096) ⊎ (va + 4096 + pages * 4096 ≤ x) = (elim out [
                        | inl below ↦ inl (omega arith)
                        | inr above ↦ inr (omega arith)
                      ]) in
                      later.others x lt out' ∙ same x ne ∙ b.same x;
                  owner' = later.owner';
                  tree = later.tree;
                }
          ]
    ]

pub map_new-Space :
    (pages : ℕ) (m m' : Memory) (root : ℕ) (owner : Owner) (va : ℕ)
    → Space m root owner
    → map_new pages m root va ≡ done m'
    → (owner' : Owner) × Space m' root owner'
unfolding map_new
map_new-Space zero m m' root owner va s e =
    let same : m ≡ m' = ground arith in rw (← same) (owner, s)
map_new-Space (suc pages) m m' root owner va s e = elim (Option-cases (page_alloc m 1)) [
  | inl full ↦ absurd (ground arith)
  | inr ((n, m1), ok) ↦
      let flags : ℕ = pte_u + pte_r + pte_w in
      let rest : Memory → Outcome = (λ m2. map_new pages m2 root ((va + page_size) % usize_mod)) in
      let step = sym (map_new-step pages m m1 root va n ok) ∙ e in
      elim (map_cases (Mmu.map m1 root va n flags)) [
        | was_not stops ↦ absurd (and_then-stop (Mmu.map m1 root va n flags) rest m' stops step)
        | was_done m2 ok2 ↦
            let (owner2, s2) =
              map_frame-Space m m1 m2 root owner va n flags s (omega arith) ok ok2 in
            map_new-Space pages m2 m' root owner2 ((va + page_size) % usize_mod) s2
              (sym (ap (λ r. and_then r rest) ok2) ∙ step)
      ]
]
