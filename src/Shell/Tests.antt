-- ===== src/Shell/Tests.antt =====
-- Runs of the paths and the line editor of the shell (userspace/shell/src/main.rs).
use light_os_orion_risc_v.Prelude.{ℕ, ◌≡◌, refl, some, List, [], ◌∷◌, arith}
use light_os_orion_risc_v.Prelude.Text.{same_text}
use light_os_orion_risc_v.Minix3.Dir.{is_utf8, split, utf8_from, utf8_step, utf8_start}
use light_os_orion_risc_v.Shell.{
  filled, back, parent, append_component, step, steps, resolve, edit, read_line,
}
use light_os_orion_risc_v.Shell.Resolve.{IsCwd, resolve-IsCwd}

-- "/bin"
abbrev bin : List ℕ
bin = 47 ∷ 98 ∷ 105 ∷ 110 ∷ []

-- "../etc/./a"
abbrev up : List ℕ
up = 46 ∷ 46 ∷ 47 ∷ 101 ∷ 116 ∷ 99 ∷ 47 ∷ 46 ∷ 47 ∷ 97 ∷ []

-- "/etc/a"
up_run : resolve bin up ≡ some (47 ∷ 101 ∷ 116 ∷ 99 ∷ 47 ∷ 97 ∷ [])
unfolding filled back parent append_component step steps resolve split same_text is_utf8 utf8_from
    utf8_step utf8_start
up_run = refl

-- A backspace takes the last byte back.
line_run : read_line (97 ∷ 98 ∷ 8 ∷ 99 ∷ 10 ∷ 100 ∷ []) [] ≡ 97 ∷ 99 ∷ []
unfolding edit read_line
line_run = refl

resolve-IsCwd_example : (out : List ℕ) × (resolve bin up ≡ some out) × IsCwd out
resolve-IsCwd_example =
    resolve-IsCwd bin up (record { absolute = refl; some_byte = omega arith; fits = omega arith })
