-- ===== src/Shell/Resolve.antt =====
-- Paths of the shell (userspace/shell/src/main.rs): they stay absolute and within their buffer.
use light_os_orion_risc_v.Prelude.{
  ℕ, zero, suc, ◌+◌, ◌-◌, ◌<◌, ◌≤◌, ◌≡◌, refl, Bool, false, none, some, List, [], ◌∷◌, ◌++◌, arith,
  ◌&&◌, ◌||◌, not, ◌==◌, ltb, if◌then◌else◌, Bool-cases, inl, inr, length, get_or, take, min,
  length-append, length-take,
}
use light_os_orion_risc_v.Prelude.Text.{same_text}
use light_os_orion_risc_v.Minix3.Dir.{is_utf8, split}
use light_os_orion_risc_v.Shell.{
  max_path, filled, back, parent, append_component, step, steps, resolve,
}

-- A path that starts with a slash and leaves a byte of its buffer.
pub record IsCwd (path : List ℕ) : Type 0 where
  pub absolute : get_or path 0 0 ≡ 47
  pub some_byte : 0 < length path
  pub fits : length path < max_path

root-IsCwd : IsCwd (47 ∷ [])
root-IsCwd = record { absolute = refl; some_byte = omega arith; fits = omega arith }

back-le : (n : ℕ) (out : List ℕ) → 0 < n → (0 < back n out) × (back n out ≤ n)
unfolding back
back-le zero out h = absurd (omega arith)
back-le (suc n) out h = elim (Bool-cases (ltb 0 n && not (get_or out n 0 == 47))) [
  | inl further ↦
      let (low, high) = back-le n out (ground arith) in rw (back, further) (low, omega arith)
  | inr here ↦ rw (back, here) (omega arith, omega arith)
]

take-IsCwd : (n : ℕ) (out : List ℕ) → 0 < n → IsCwd out → IsCwd (take n out)
take-IsCwd n [] h c = absurd (omega (arith, c.some_byte))
take-IsCwd zero (b ∷ out) h c = absurd (omega arith)
take-IsCwd (suc n) (b ∷ out) h c = record {
  absolute = c.absolute;
  some_byte = omega arith;
  fits = omega (arith, c.fits, length-take n out);
}

parent-IsCwd : (out : List ℕ) → IsCwd out → IsCwd (parent out)
unfolding parent
parent-IsCwd out c =
    let (low, high) = back-le (length out) out c.some_byte in
    take-IsCwd
      (if ltb 1 (back (length out) out) then back (length out) out - 1 else back (length out) out)
      out (ground arith) c

append-IsCwd :
    (out rest : List ℕ) → IsCwd out → length out + length rest < max_path → IsCwd (out ++ rest)
append-IsCwd [] rest c h = absurd (omega (arith, c.some_byte))
append-IsCwd (b ∷ out) rest c h = record {
  absolute = c.absolute;
  some_byte = omega arith;
  fits = omega (arith, length-append out rest);
}

-- The bytes of a component after a path, as many as fit.
filled_up :
    (out comp : List ℕ)
    → IsCwd out
    → (out' : List ℕ) × ((if ltb max_path (length out + 1)
          then none
          else some (out ++ take (min (length comp) (max_path - length out - 1)) comp))
        ≡ some out')
      × IsCwd out'
filled_up out comp c =
    let n : ℕ = min (length comp) (max_path - length out - 1) in
    let room : ltb max_path (length out + 1) ≡ false = ground (arith, c.fits) in
    (
      out ++ take n comp,
      rw room refl,
      append-IsCwd out (take n comp) c (omega (arith, c.fits, length-take n comp)),
    )

append_component-IsCwd :
    (out comp : List ℕ)
    → IsCwd out
    → (out' : List ℕ) × (append_component out comp ≡ some out') × IsCwd out'
unfolding append_component
append_component-IsCwd out comp c =
    let slash : Bool =
      (ltb 1 (length out) || not (get_or out 0 0 == 47) || length out == 0)
      && ltb (length out + 1) max_path in
    elim (Bool-cases slash) [
      | inl t ↦
          let longer = append-IsCwd out (47 ∷ []) c (ground arith) in
          rw t (filled_up (out ++ (47 ∷ [])) comp longer)
      | inr f ↦ rw f (filled_up out comp c)
    ]

step-IsCwd :
    (out comp : List ℕ) → IsCwd out → (out' : List ℕ) × (step out comp ≡ some out') × IsCwd out'
unfolding step
step-IsCwd out comp c = elim (Bool-cases (same_text comp (46 ∷ []))) [
  | inl t ↦ (out, rw t refl, c)
  | inr f ↦ elim (Bool-cases (same_text comp (46 ∷ 46 ∷ []))) [
    | inl t ↦ (parent out, rw (f, t) refl, parent-IsCwd out c)
    | inr f' ↦ rw (f, f') (append_component-IsCwd out comp c)
  ]
]

steps-IsCwd :
    (comps : List (List ℕ)) (out : List ℕ)
    → IsCwd out
    → (out' : List ℕ) × (steps comps out ≡ some out') × IsCwd out'
unfolding steps
steps-IsCwd [] out c = (out, refl, c)
steps-IsCwd (comp ∷ r) out c =
    let (out1, e, c1) = step-IsCwd out comp c in rw (steps, e) (steps-IsCwd r out1 c1)

-- From an absolute working directory that leaves a byte of its buffer, `resolve` of any path is
-- never out of bounds and gives an absolute path that leaves a byte of its buffer.
pub resolve-IsCwd :
    (cwd path : List ℕ) → IsCwd cwd → (out : List ℕ) × (resolve cwd path ≡ some out) × IsCwd out
unfolding resolve
resolve-IsCwd cwd path c =
    let absolute : Bool = ltb 0 (length path) && get_or path 0 0 == 47 in
    let start : List ℕ = if absolute then 47 ∷ [] else cwd in
    let starts : IsCwd start = elim (Bool-cases absolute) [
      | inl t ↦ rw t root-IsCwd
      | inr f ↦ rw f c
    ] in
    let (out, e, o) = steps-IsCwd (filled (split path [])) start starts in
    let nonempty : (length out == 0) ≡ false = ground (arith, o.some_byte) in
    elim (Bool-cases (is_utf8 out)) [
      | inl t ↦ (out, rw (resolve, e, nonempty, t) refl, o)
      | inr f ↦ (47 ∷ [], rw (resolve, e, nonempty, f) refl, root-IsCwd)
    ]
