-- ===== src/Mem/Mmu/Range.antt =====
-- `map_range` of kernel/mem/mmu.rs: the identity map that the kernel runs in.
use light_os_orion_risc_v.Prelude.{
  ℕ, zero, suc, ◌+◌, ◌-◌, ◌*◌, ◌/◌, ◌%◌, ◌^◌, ◌<◌, ◌≤◌, ◌≡◌, ◌≢◌, refl, sym, ap, ◌∙◌, some, arith,
  ℕ_discrete, ◌&&◌, leb, ltb, if◌then◌else◌,
}
use light_os_orion_risc_v.Mem.Layout.{page_size, page_down, page_up, page_down_lem, page_up_lem}
use light_os_orion_risc_v.Mem.Memory.{Memory}
use light_os_orion_risc_v.Mem.Mmu.{
  Outcome, done, failed, panics, and_then, map, map_pages, map_range,
}
use light_os_orion_risc_v.Mem.Mmu.Tree.{Owner, IsTree}
use light_os_orion_risc_v.Mem.Mmu.Translate.{translation, page_of, translated}
use light_os_orion_risc_v.Mem.Mmu.Mapping.{virt_to_phys-map}

pub data MapCases (r : Outcome) : Type 0 where
  was_done : (m : Memory) → (r ≡ done m) → MapCases r
  was_not : ((m : Memory) → r ≢ done m) → MapCases r

pub map_cases : (r : Outcome) → MapCases r
map_cases (done m) = was_done m refl
map_cases (failed e m) = was_not (λ m' e'. absurd cc)
map_cases panics = was_not (λ m' e'. absurd cc)

-- Within the range the identity, outside it what was there.
unfoldable pub Identity : Memory → Memory → ℕ → ℕ → ℕ → Type 0
Identity m m' root start stop =
    (x : ℕ)
    → x < 2 ^ 39
    → translation m' root x ≡ (if leb start x && ltb x stop then some x else translation m root x)

pub and_then-stop :
    (r : Outcome) (rest : Memory → Outcome) (m' : Memory)
    → ((m : Memory) → r ≢ done m)
    → and_then r rest ≢ done m'
and_then-stop (done m) rest m' stops e = stops m refl
and_then-stop (failed e m) rest m' stops e' = absurd cc
and_then-stop panics rest m' stops e = absurd cc

map_pages-Identity :
    (left : ℕ) (m m' : Memory) (root : ℕ) (owner : Owner) (va flags : ℕ)
    → IsTree m root owner
    → va % 4096 ≡ 0
    → va + left * 4096 ≤ 2 ^ 39
    → flags < 1024
    → map_pages left m root va flags ≡ done m'
    → Identity m m' root va (va + left * 4096) × ((owner' : Owner) × IsTree m' root owner')
unfolding map_pages Identity
map_pages-Identity zero m m' root owner va flags tree al fit lt e =
    let same : m ≡ m' = ground arith in rw (← same) (λ x small. ground arith, (owner, tree))
map_pages-Identity (suc left) m m' root owner va flags tree al fit lt e =
    elim (map_cases (map m root va va flags)) [
      | was_not stops ↦ absurd (
          and_then-stop (map m root va va flags)
            (λ m1. map_pages left m1 root (va + page_size) flags) m' stops e)
      | was_done m1 ok ↦
          let (before, now, others, (owner1, tree1)) =
            virt_to_phys-map m m1 root owner va va flags tree al (omega arith) lt ok in
          let (rest, tree') =
            map_pages-Identity left m1 m' root owner1 (va + page_size) flags tree1 (omega arith)
              (omega arith) lt
              (sym (ap (λ r. and_then r (λ m2. map_pages left m2 root (va + page_size) flags)) ok)
                ∙ e) in
          (
            λ x small. elim (ℕ_discrete (page_of x) (page_of va)) [
              | yes page ↦
                  let t = translated m1 root x (va + x % 4096) (now x page) in
                  let r = rest x small in ground arith
              | no ne ↦ let r = rest x small in let o = others x ne in ground arith
            ],
            tree',
          )
    ]

-- A successful `map_range` of a range that starts below its end and ends a page below 2^39 maps
-- every address of its pages to itself, leaves every other address below 2^39 as it was, and leaves
-- the tables a tree.
pub map_range-Identity :
    (m m' : Memory) (root : ℕ) (owner : Owner) (start stop flags : ℕ)
    → IsTree m root owner
    → start ≤ stop
    → stop + 4096 ≤ 2 ^ 39
    → flags < 1024
    → map_range m root start stop flags ≡ done m'
    → Identity m m' root (page_down start) (page_up stop)
      × ((owner' : Owner) × IsTree m' root owner')
unfolding map_range
map_range-Identity m m' root owner start stop flags tree le fit lt e =
    let low = page_down_lem start (omega arith) in
    let high = page_up_lem stop (omega arith) in
    let pages : ℕ = (page_up stop - page_down start + (page_size - 1)) / page_size in
    let last : page_down start + pages * 4096 ≡ page_up stop = omega (arith, low, high) in
    rw (← last) (
      map_pages-Identity pages m m' root owner (page_down start) flags tree (omega (arith, low))
        (omega (arith, last, high)) lt e)
