-- ===== src/Nce/Tests.antt =====
-- Runs and instances for the accelerator slots (kernel/nce).
use light_os_orion_risc_v.Prelude.{◌≡◌, refl, true, List, [], ◌∷◌}
use light_os_orion_risc_v.Nce.{
  Nce, init, register, emulated, turbo, active, set_power, done, invalid_transition,
}
use light_os_orion_risc_v.Nce.Power.{Requested, set_power-Requested}

abbrev nces : List Nce
nces = emulated 0 ∷ emulated 1 ∷ []

init_run : init [] ≡ nces
unfolding init register
init_run = refl

turbo_refused : set_power nces 1 turbo ≡ (invalid_transition, nces, [])
unfolding set_power
turbo_refused = refl

-- The slot after it went up.
abbrev up : Nce
up = record (emulated 1) { state = active; hardware = true }

turbo_rung :
    set_power (up ∷ []) 0 turbo ≡ (done, record up { state = turbo } ∷ [], (0x6000_1000, 2) ∷ [])
unfolding set_power
turbo_rung = refl

set_power-Requested_example : Requested nces 1 (emulated 1) active
set_power-Requested_example = set_power-Requested nces 1 (emulated 1) active refl
