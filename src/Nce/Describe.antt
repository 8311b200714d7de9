-- ===== src/Nce/Describe.antt =====
-- kernel/nce: the text of /dev/nceN, and the names of the power states.
use light_os_orion_risc_v.Prelude.{
  ℕ, Option, none, some, List, [], ◌∷◌, ◌++◌, if◌then◌else◌, get_elem?,
}
use light_os_orion_risc_v.Prelude.Text.{trim, same_text, decimal, hexadecimal}
use light_os_orion_risc_v.Nce.{PowerState, idle, active, turbo, Nce}

-- "idle", "active" and "turbo"
abbrev pub power_name : PowerState → List ℕ
power_name idle = 105 ∷ 100 ∷ 108 ∷ 101 ∷ []
power_name active = 97 ∷ 99 ∷ 116 ∷ 105 ∷ 118 ∷ 101 ∷ []
power_name turbo = 116 ∷ 117 ∷ 114 ∷ 98 ∷ 111 ∷ []

unfoldable pub parse_power : List ℕ → Option PowerState
parse_power s =
    let name = trim s in
    if same_text name (power_name idle)
    then some idle
    else if same_text name (power_name active)
    then some active
    else if same_text name (power_name turbo)
    then some turbo
    else none

-- "nce{}: state={} mmio={:#x} mem={:#x}+{:#x} {}\n"
unfoldable pub describe : List Nce → ℕ → Option (List ℕ)
describe nces n = elim (get_elem? nces n) [
  | none ↦ none
  | some nce ↦ some (
      (110 ∷ 99 ∷ 101 ∷ decimal nce.desc.slot_no)
      ++ (58 ∷ 32 ∷ 115 ∷ 116 ∷ 97 ∷ 116 ∷ 101 ∷ 61 ∷ power_name nce.state)
      ++ (32 ∷ 109 ∷ 109 ∷ 105 ∷ 111 ∷ 61 ∷ hexadecimal nce.desc.mmio_base)
      ++ (32 ∷ 109 ∷ 101 ∷ 109 ∷ 61 ∷ hexadecimal nce.desc.mem_base)
      ++ (43 ∷ hexadecimal nce.desc.mem_size)
      ++ (if nce.hardware
          then 32 ∷ 104 ∷ 119 ∷ 10 ∷ []
          else 32 ∷ 101 ∷ 109 ∷ 117 ∷ 108 ∷ 97 ∷ 116 ∷ 101 ∷ 100 ∷ 10 ∷ []))
]
