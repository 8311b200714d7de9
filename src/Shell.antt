-- ===== src/Shell.antt =====
-- userspace/shell/src/main.rs: the working directory and paths of the shell, and its line editor.
-- A buffer with its length is the list of the bytes that count.
pub mod Resolve
mod Tests
use light_os_orion_risc_v.Prelude.{
  ℕ, zero, suc, ◌+◌, ◌-◌, Bool, ◌&&◌, ◌||◌, not, Option, none, some, List, [], ◌∷◌, ◌++◌, ◌==◌, ltb,
  if◌then◌else◌, length, get_or, take, min,
}
use light_os_orion_risc_v.Prelude.Text.{same_text}
use light_os_orion_risc_v.Minix3.Dir.{is_utf8, split}

abbrev pub max_path : ℕ
max_path = 120

abbrev pub max_line : ℕ
max_line = 256

-- `filter(|c| !c.is_empty())`
unfoldable pub filled : List (List ℕ) → List (List ℕ)
filled [] = []
filled (c ∷ r) = if length c == 0 then filled r else c ∷ filled r

-- The loop of "..", from a length down to the one that ends in a slash.
unfoldable pub back : ℕ → List ℕ → ℕ
back zero out = 0
back (suc n) out =
    let earlier = back n out in if ltb 0 n && not (get_or out n 0 == 47) then earlier else suc n

unfoldable pub parent : List ℕ → List ℕ
parent out = let len = back (length out) out in take (if ltb 1 len then len - 1 else len) out

-- A component after the path; `none` is the panic of a length that does not leave a byte.
unfoldable pub append_component : List ℕ → List ℕ → Option (List ℕ)
append_component out comp =
    let inside = ltb 1 (length out) || not (get_or out 0 0 == 47) || length out == 0 in
    let out' = if inside && ltb (length out + 1) max_path then out ++ (47 ∷ []) else out in
    if ltb max_path (length out' + 1)
    then none
    else some (out' ++ take (min (length comp) (max_path - length out' - 1)) comp)

unfoldable pub step : List ℕ → List ℕ → Option (List ℕ)
step out comp =
    if same_text comp (46 ∷ [])
    then some out
    else if same_text comp (46 ∷ 46 ∷ [])
    then some (parent out)
    else append_component out comp

unfoldable pub steps : List (List ℕ) → List ℕ → Option (List ℕ)
steps [] out = some out
steps (c ∷ r) out = elim (step out c) [ none ↦ none | some out' ↦ steps r out' ]

-- `Cwd::resolve`
unfoldable pub resolve : List ℕ → List ℕ → Option (List ℕ)
resolve cwd path =
    let absolute = ltb 0 (length path) && get_or path 0 0 == 47 in
    elim (steps (filled (split path [])) (if absolute then 47 ∷ [] else cwd)) [
      | none ↦ none
      | some out ↦
          let out' = if length out == 0 then 47 ∷ [] else out in
          some (if is_utf8 out' then out' else 47 ∷ [])
    ]

-- A byte of the line editor.
unfoldable pub edit : List ℕ → ℕ → List ℕ
edit line b =
    if b == 0x7f || b == 8
    then take (length line - 1) line
    else if ltb (length line) (max_line - 1)
    then line ++ (b ∷ [])
    else line

-- `read_line` on the bytes that `read` gives until it fails.
unfoldable pub read_line : List ℕ → List ℕ → List ℕ
read_line [] line = line
read_line (b ∷ input) line = if b == 10 then line else read_line input (edit line b)
