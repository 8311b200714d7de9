-- ===== src/Prelude/Slots.antt =====
-- Tables of optional entries: what stands in a slot, and the first empty one.
use Prim.Native.Nat.{ℕ, zero, suc, ◌+◌, ◌<◌}
use mathlib.Core.Path.{◌≡◌, refl, sym, ap, ◌∙◌}
use mathlib.Core.Logic.{◌≢◌, ◌⊎◌, inl, inr}
use mathlib.Core.List.{List, [], ◌∷◌}
use mathlib.Core.Option.{Option, none, some}
use native.Mathlib.Omega.{arith}
use native.Mathlib.Decide.{ℕ_discrete}
use light_os_orion_risc_v.Prelude.Lists.{length, set, replicate}
use light_os_orion_risc_v.Prelude.Tests.{Option-cases}

module _ {ℓ} {A : Type ℓ} where
  abbrev pub slot : List (Option A) → ℕ → Option A
  slot [] j = none
  slot (x ∷ r) zero = x
  slot (x ∷ r) (suc j) = slot r j

  -- `iter().position(|s| s.is_none())`
  unfoldable pub first_empty : List (Option A) → Option ℕ
  first_empty [] = none
  first_empty (none ∷ r) = some 0
  first_empty (some a ∷ r) = elim (first_empty r) [ none ↦ none | some j ↦ some (j + 1) ]

module _ {ℓ} {A : Type ℓ} where
  pub slot-set_self :
      (l : List (Option A)) (j : ℕ) (x : Option A) → j < length l → slot (set l j x) j ≡ x
  slot-set_self [] j x h = elim h [ ]
  slot-set_self (y ∷ r) zero x h = refl
  slot-set_self (y ∷ r) (suc j) x h = slot-set_self r j x (omega arith)

  pub slot-set_ne :
      (l : List (Option A)) (i j : ℕ) (x : Option A) → i ≢ j → slot (set l i x) j ≡ slot l j
  slot-set_ne [] i j x ne = refl
  slot-set_ne (y ∷ r) zero zero x ne = absurd (ne refl)
  slot-set_ne (y ∷ r) zero (suc j) x ne = refl
  slot-set_ne (y ∷ r) (suc i) zero x ne = refl
  slot-set_ne (y ∷ r) (suc i) (suc j) x ne = slot-set_ne r i j x (λ e. ne (ap suc e))

  pub slot-lt : (l : List (Option A)) (j : ℕ) (a : A) → slot l j ≡ some a → j < length l
  slot-lt [] j a e = cc
  slot-lt (x ∷ r) zero a e = omega arith
  slot-lt (x ∷ r) (suc j) a e = omega (arith, slot-lt r j a e)

  -- A slot that `first_empty` finds is one of the table, and empty.
  pub first_empty_lem :
      (l : List (Option A)) (j : ℕ) → first_empty l ≡ some j → (j < length l) × (slot l j ≡ none)
  unfolding first_empty
  first_empty_lem [] j e = cc
  first_empty_lem (none ∷ r) zero e = (omega arith, refl)
  first_empty_lem (none ∷ r) (suc j) e = absurd (ground arith)
  first_empty_lem (some a ∷ r) j e = elim (Option-cases (first_empty r)) [
    | inl full ↦ absurd (ground arith)
    | inr (k, found) ↦ let ih = first_empty_lem r k found in ground arith
  ]

  -- What a slot holds after a write is what was written, or what it held before.
  pub slot-set_cases :
      (l : List (Option A)) (i k : ℕ) (x : Option A) (a : A)
      → i < length l
      → slot (set l i x) k ≡ some a
      → ((i ≡ k) × (x ≡ some a)) ⊎ ((i ≢ k) × (slot l k ≡ some a))
  slot-set_cases l i k x a h e = elim (ℕ_discrete i k) [
    | yes same ↦ inl (same, sym (slot-set_self l i x h) ∙ ap (λ n. slot (set l i x) n) same ∙ e)
    | no ne ↦ inr (ne, sym (slot-set_ne l i k x ne) ∙ e)
  ]

  pub slot-replicate : (n j : ℕ) → slot (replicate {A = Option A} n none) j ≡ none
  slot-replicate zero j = refl
  slot-replicate (suc n) zero = refl
  slot-replicate (suc n) (suc j) = slot-replicate n j
