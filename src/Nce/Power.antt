-- ===== src/Nce/Power.antt =====
-- The power states of an accelerator (kernel/nce/mod.rs, `set_power`, and kernel/nce/power.rs).
use light_os_orion_risc_v.Prelude.{
  ℕ, zero, suc, ◌+◌, ◌<◌, ◌≡◌, ◌≢◌, ◌⊎◌, inl, inr, refl, true, false, some, List, [], ◌∷◌, arith,
  length, get_elem?, get_elem?-set_self, get_elem?-set_ne, Bool-cases,
}
use light_os_orion_risc_v.Nce.{
  PowerState, idle, active, turbo, same_state, can_transition, doorbell_value, reg_power, Nce, done,
  invalid_transition, set_power,
}

get_elem?-lt : (l : List Nce) (i : ℕ) (nce : Nce) → get_elem? l i ≡ some nce → i < length l
get_elem?-lt [] i nce e = absurd (cc)
get_elem?-lt (x ∷ r) zero nce e = omega arith
get_elem?-lt (x ∷ r) (suc i) nce e = omega (arith, get_elem?-lt r i nce e)

-- The power rails are one step apart at most, or the slot goes to idle.
abbrev pub Stepwise : PowerState → PowerState → Type 0
Stepwise before next =
    (doorbell_value next ≡ 0)
    ⊎ (doorbell_value next ≡ doorbell_value before + 1)
    ⊎ (doorbell_value before ≡ doorbell_value next + 1)

can_transition-Stepwise :
    (before next : PowerState) → can_transition before next ≡ true → Stepwise before next
can_transition-Stepwise idle idle e = inl refl
can_transition-Stepwise idle active e = inr (inl refl)
can_transition-Stepwise idle turbo e = absurd (cc)
can_transition-Stepwise active idle e = inl refl
can_transition-Stepwise active active e = absurd (cc)
can_transition-Stepwise active turbo e = inr (inl refl)
can_transition-Stepwise turbo idle e = inl refl
can_transition-Stepwise turbo active e = inr (inr refl)
can_transition-Stepwise turbo turbo e = absurd (cc)

same_state-eq : (a b : PowerState) → same_state a b ≡ true → a ≡ b
same_state-eq idle idle e = refl
same_state-eq idle active e = absurd (cc)
same_state-eq idle turbo e = absurd (cc)
same_state-eq active idle e = absurd (cc)
same_state-eq active active e = refl
same_state-eq active turbo e = absurd (cc)
same_state-eq turbo idle e = absurd (cc)
same_state-eq turbo active e = absurd (cc)
same_state-eq turbo turbo e = refl

refused-Stepwise :
    (before next : PowerState)
    → same_state before next ≡ false
    → can_transition before next ≡ false
    → (before ≡ idle) × (next ≡ turbo)
refused-Stepwise idle idle s c = absurd (cc)
refused-Stepwise idle active s c = absurd (cc)
refused-Stepwise idle turbo s c = (refl, refl)
refused-Stepwise active idle s c = absurd (cc)
refused-Stepwise active active s c = absurd (cc)
refused-Stepwise active turbo s c = absurd (cc)
refused-Stepwise turbo idle s c = absurd (cc)
refused-Stepwise turbo active s c = absurd (cc)
refused-Stepwise turbo turbo s c = absurd (cc)

-- What a request did to a slot that exists.
pub record Requested (nces : List Nce) (n : ℕ) (nce : Nce) (next : PowerState) : Type 0 where
  pub after : Nce
  pub there : get_elem? (set_power nces n next).1 n ≡ some after
  pub others : (j : ℕ) → n ≢ j → get_elem? (set_power nces n next).1 j ≡ get_elem? nces j
  pub outcome :
      (((set_power nces n next).0 ≡ done)
        × (after.state ≡ next)
        × ((nce.state ≡ next) ⊎ Stepwise nce.state next))
      ⊎ (((set_power nces n next).0 ≡ invalid_transition)
          × (after ≡ nce)
          × (nce.state ≡ idle)
          × (next ≡ turbo))
  -- A device is told its new state when it changes, by one write to its own register.
  pub rung :
      ((after.state ≡ nce.state) × ((set_power nces n next).2 ≡ []))
      ⊎ ((nce.hardware ≡ false) × ((set_power nces n next).2 ≡ []))
      ⊎ ((nce.hardware ≡ true)
          × ((set_power nces n next).2
              ≡ (nce.desc.mmio_base + reg_power, doorbell_value after.state) ∷ []))

-- A request for a slot that exists succeeds, by one step up at most, and the slot is then in the
-- state asked for, except that idle to turbo is refused; the other slots stay as they are, and a
-- device gets one doorbell write when its state changes.
pub set_power-Requested :
    (nces : List Nce) (n : ℕ) (nce : Nce) (next : PowerState)
    → get_elem? nces n ≡ some nce
    → Requested nces n nce next
unfolding set_power
set_power-Requested nces n nce next e =
    let lt = get_elem?-lt nces n nce e in
    elim (Bool-cases (same_state nce.state next)) [
      | inl same ↦
          let eq = same_state-eq nce.state next same in
          record {
            after = nce;
            there = rw (e, same, set_power) e;
            others = λ j ne. rw (e, same, set_power) refl;
            outcome = inl (rw (e, same, set_power) refl, eq, inl eq);
            rung = inl (refl, rw (e, same, set_power) refl);
          }
      | inr changed ↦ elim (Bool-cases (can_transition nce.state next)) [
        | inl allowed ↦
            let nce' : Nce = record nce { state = next } in
            record {
              after = nce';
              there = rw (e, changed, allowed, set_power) (get_elem?-set_self nces n nce' lt);
              others =
                  λ j ne. rw (e, changed, allowed, set_power) (get_elem?-set_ne nces n j nce' ne);
              outcome = inl (
                rw (e, changed, allowed, set_power) refl,
                refl,
                inr (can_transition-Stepwise nce.state next allowed),
              );
              rung = elim (Bool-cases nce.hardware) [
                | inl real ↦ inr (inr (real, rw (e, changed, allowed, real, set_power) refl))
                | inr fake ↦ inr (inl (fake, rw (e, changed, allowed, fake, set_power) refl))
              ];
            }
        | inr refused ↦
            let both = refused-Stepwise nce.state next changed refused in
            record {
              after = nce;
              there = rw (e, changed, refused, set_power) e;
              others = λ j ne. rw (e, changed, refused, set_power) refl;
              outcome = inr (rw (e, changed, refused, set_power) refl, refl, both.0, both.1);
              rung = inl (refl, rw (e, changed, refused, set_power) refl);
            }
      ]
    ]
