-- ===== src/Nce.antt =====
-- kernel/nce: the accelerator slots and their power states. A doorbell write is a result.
pub mod Power
pub mod Describe
mod Tests
use light_os_orion_risc_v.Prelude.{
  ℕ, zero, suc, ◌+◌, ◌*◌, Bool, true, false, Option, none, some, List, [], ◌∷◌, ◌++◌, if◌then◌else◌,
  length, get_elem?, set, slot,
}
use light_os_orion_risc_v.Sched.{Process, System, with_slots}

pub data PowerState : Type 0 where
  idle active turbo : PowerState

-- `self == next`
abbrev pub same_state : PowerState → PowerState → Bool
same_state idle idle = true
same_state idle active = false
same_state idle turbo = false
same_state active idle = false
same_state active active = true
same_state active turbo = false
same_state turbo idle = false
same_state turbo active = false
same_state turbo turbo = true

abbrev pub can_transition : PowerState → PowerState → Bool
can_transition idle idle = false
can_transition idle active = true
can_transition idle turbo = false
can_transition active idle = true
can_transition active active = false
can_transition active turbo = true
can_transition turbo idle = true
can_transition turbo active = true
can_transition turbo turbo = false

abbrev pub doorbell_value : PowerState → ℕ
doorbell_value idle = 0
doorbell_value active = 1
doorbell_value turbo = 2

abbrev pub reg_power : ℕ
reg_power = 0

pub record NceDescriptor : Type 0 where
  pub slot_no : ℕ
  pub mmio_base : ℕ
  pub mem_base : ℕ
  pub mem_size : ℕ

pub record Nce : Type 0 where
  pub desc : NceDescriptor
  pub state : PowerState
  pub hardware : Bool

abbrev pub emulated_slots : ℕ
emulated_slots = 2

abbrev pub emulated_mmio_base : ℕ
emulated_mmio_base = 0x6000_0000

abbrev pub emulated_mem_base : ℕ
emulated_mem_base = 0x6100_0000

abbrev pub emulated_mem_size : ℕ
emulated_mem_size = 0x10_0000

abbrev pub emulated : ℕ → Nce
emulated n = record {
  desc = record {
    slot_no = n;
    mmio_base = emulated_mmio_base + n * 0x1000;
    mem_base = emulated_mem_base + n * emulated_mem_size;
    mem_size = emulated_mem_size;
  };
  state = idle;
  hardware = false;
}

-- `for slot in 0..EMULATED_SLOTS { nces.push(..) }`, with the rounds left.
unfoldable pub register : List Nce → ℕ → ℕ → List Nce
register nces n zero = nces
register nces n (suc left) = register (nces ++ (emulated n ∷ [])) (n + 1) left

-- The device tree is only looked at for a message.
unfoldable pub init : List Nce → List Nce
init [] = register [] 0 emulated_slots
init (nce ∷ r) = nce ∷ r

unfoldable pub count : List Nce → ℕ
count nces = length nces

pub data PowerResult : Type 0 where
  done no_such_slot invalid_transition : PowerResult

-- A write of a value to an address of the MMIO window.
abbrev pub Doorbell : Type 0
Doorbell = ℕ × ℕ

unfoldable pub set_power : List Nce → ℕ → PowerState → PowerResult × List Nce × List Doorbell
set_power nces n next = elim (get_elem? nces n) [
  | none ↦ (no_such_slot, nces, [])
  | some nce ↦
      if same_state nce.state next
      then (done, nces, [])
      else if can_transition nce.state next
      then (
        done,
        set nces n (record nce { state = next }),
        if nce.hardware then (nce.desc.mmio_base + reg_power, doorbell_value next) ∷ [] else [],
      )
      else (invalid_transition, nces, [])
]

-- affinity.rs: the mask of the current process. `none` is ESRCH.
unfoldable pub set_current : System → ℕ → Option System
set_current s mask = elim s.current [
  | none ↦ none
  | some cur ↦ elim (slot s.procs.slots cur) [
    | none ↦ none
    | some p ↦ some (with_slots s (set s.procs.slots cur (some (record p { nce_affinity = mask }))))
  ]
]

unfoldable pub get_current : System → ℕ
get_current s = elim s.current [
  | none ↦ 0
  | some cur ↦ elim (slot s.procs.slots cur) [ none ↦ 0 | some p ↦ p.nce_affinity ]
]
