-- ===== src/Mem/Uaccess/Space.antt =====
-- Where the windows of kernel/mem/uaccess.rs come from: a fresh root has one, and a frame that is
-- taken and mapped keeps it.
use light_os_orion_risc_v.Prelude.{
  ℕ, ◌+◌, ◌*◌, ◌/◌, ◌%◌, ◌<◌, ◌≡◌, ◌≢◌, sym, ap, ◌∙◌, none, some, arith, ℕ_discrete,
}
use light_os_orion_risc_v.Mem.Memory.{Memory, page_alloc}
use light_os_orion_risc_v.Mem.Mmu
use light_os_orion_risc_v.Mem.Mmu.{done, user_root_slot, new_user_root}
use light_os_orion_risc_v.Mem.Mmu.Tree.{Owner, IsFrame, IsTree}
use light_os_orion_risc_v.Mem.Mmu.Translate.{translation, page_of, translated}
use light_os_orion_risc_v.Mem.Mmu.Mapping.{virt_to_phys-map, map-Spared}
use light_os_orion_risc_v.Mem.Mmu.Process.{new_user_root-shares}
use light_os_orion_risc_v.Mem.Mmu.Data.{page_alloc-Beside}
use light_os_orion_risc_v.Mem.Uaccess.Window.{Window, InWindow}

-- A window whose mapped pages are frames that the allocator has handed out.
pub record Space (m : Memory) (root : ℕ) (owner : Owner) : Type 0 where
  pub window : Window m root owner
  pub framed :
      (va pa : ℕ)
      → InWindow va
      → translation m root va ≡ some pa
      → IsFrame m.frames (pa / 4096 * 4096)

-- The window of a fresh root maps nothing.
pub new_user_root-Space :
    (m m' : Memory) (kernel root : ℕ) (owner : Owner)
    → IsTree m kernel owner
    → new_user_root m kernel ≡ some (root, m')
    → (owner' : Owner) × Space m' root owner'
new_user_root-Space m m' kernel root owner tree e =
    let (empty, others, (owner', tree'), old) =
      new_user_root-shares m m' kernel root owner tree e in
    let unmapped : (va : ℕ) → InWindow va → translation m' root va ≡ none =
      (λ va i. empty va (omega arith)) in
    (
      owner',
      record {
        window = record {
          tree = tree';
          no_table = λ va pa i t. let gone = unmapped va i in absurd (cc);
          apart = λ va va' pa pa' i i' t t' same. let gone = unmapped va i in absurd (cc);
        };
        framed = λ va pa i t. let gone = unmapped va i in absurd (cc);
      },
    )

-- A frame from the allocator that is mapped keeps the window.
pub map_frame-Space :
    (m m1 m2 : Memory) (root : ℕ) (owner : Owner) (va n flags : ℕ)
    → Space m root owner
    → flags < 1024
    → page_alloc m 1 ≡ some (n, m1)
    → Mmu.map m1 root va n flags ≡ done m2
    → (owner' : Owner) × Space m2 root owner'
map_frame-Space m m1 m2 root owner va n flags s lt ok ok2 =
    let b = page_alloc-Beside m m1 root n owner s.window.tree ok in
    let (before, now, same, after) =
      virt_to_phys-map m1 m2 root owner va n flags b.tree b.page b.word lt ok2 in
    let d = map-Spared m1 m2 root owner va n flags b.tree ok2 in
    -- The new page is at frame `n`.
    let here : (x px : ℕ)
        → page_of x ≡ page_of va
        → translation m2 root x ≡ some px
        → px / 4096 * 4096 ≡ n =
      (λ x px page e.
        let t = translated m2 root x (n + x % 4096) (now x page) in
        let at : n + x % 4096 ≡ px = cc in omega (arith, b.page)) in
    -- Every other page is at the frame where it was.
    let was : (x px : ℕ)
        → page_of x ≢ page_of va
        → translation m2 root x ≡ some px
        → translation m root x ≡ some px =
      (λ x px ne e. sym (b.same x) ∙ sym (same x ne) ∙ e) in
    -- A page that was there has a frame that is in use, and it is not `n`.
    let old : (x px : ℕ)
        → InWindow x
        → page_of x ≢ page_of va
        → translation m2 root x ≡ some px
        → IsFrame m1.frames (px / 4096 * 4096) × (px / 4096 * 4096 ≢ n) =
      (λ x px i ne e. b.kept (px / 4096 * 4096) (s.framed x px i (was x px ne e))) in
    (
      d.owner',
      record {
        window = record {
          tree = d.tree;
          no_table = λ x px i e. elim (ℕ_discrete (page_of x) (page_of va)) [
            | yes page ↦ ap d.owner' (here x px page e) ∙ d.same_use n b.frame ∙ b.unowned
            | no ne ↦
                d.same_use (px / 4096 * 4096) ((old x px i ne e).0)
                ∙ s.window.no_table x px i (was x px ne e)
          ];
          apart = λ x x' px px' i i' e e' frames. elim (ℕ_discrete (page_of x) (page_of va)) [
            | yes page ↦ elim (ℕ_discrete (page_of x') (page_of va)) [
              | yes page' ↦ page ∙ sym page'
              | no ne' ↦
                  let at = here x px page e in
                  let apart = (old x' px' i' ne' e').1 in absurd (omega arith)
            ]
            | no ne ↦ elim (ℕ_discrete (page_of x') (page_of va)) [
              | yes page' ↦
                  let at = here x' px' page' e' in
                  let apart = (old x px i ne e).1 in absurd (omega arith)
              | no ne' ↦ s.window.apart x x' px px' i i' (was x px ne e) (was x' px' ne' e') frames
            ]
          ];
        };
        framed = λ x px i e. elim (ℕ_discrete (page_of x) (page_of va)) [
          | yes page ↦
              let f : IsFrame m2.frames n = d.same_frame n b.frame in rw (here x px page e) f
          | no ne ↦ d.same_frame (px / 4096 * 4096) ((old x px i ne e).0)
        ];
      },
    )
