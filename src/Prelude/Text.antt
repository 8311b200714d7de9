-- ===== src/Prelude/Text.antt =====
-- What the kernel uses of Rust's strings, on their bytes: white space, numbers, padding.
use Prim.Native.Nat.{ℕ, zero, suc, ◌+◌, ◌-◌, ◌*◌, ◌/◌, ◌%◌, ◌^◌}
use mathlib.Core.Bool.{Bool, true, false, ◌&&◌, ◌||◌}
use mathlib.Core.Option.{Option, none, some}
use mathlib.Core.List.{List, [], ◌∷◌, ◌++◌}
use light_os_orion_risc_v.Prelude.Tests.{ltb, leb, ◌==◌, if◌then◌else◌}
use light_os_orion_risc_v.Prelude.Lists.{length, replicate}

abbrev pub between : ℕ → ℕ → ℕ → Bool
between low b high = leb low b && leb b high

-- The white space of Unicode by the length of its encoding.
abbrev pub white1 : ℕ → Bool
white1 a = between 9 a 13 || a == 32

abbrev pub white2 : ℕ → ℕ → Bool
white2 a b = a == 0xc2 && (b == 0x85 || b == 0xa0)

abbrev pub white3 : ℕ → ℕ → ℕ → Bool
white3 a b c =
    (a == 0xe1 && b == 0x9a && c == 0x80)
    || (a == 0xe2 && b == 0x80 && (between 0x80 c 0x8a || c == 0xa8 || c == 0xa9 || c == 0xaf))
    || (a == 0xe2 && b == 0x81 && c == 0x9f)
    || (a == 0xe3 && b == 0x80 && c == 0x80)

-- `str::trim_start` of a string in UTF-8.
unfoldable pub trim_start : List ℕ → List ℕ
trim_start [] = []
trim_start (a ∷ []) = if white1 a then [] else a ∷ []
trim_start (a ∷ b ∷ []) =
    let one = trim_start (b ∷ []) in if white1 a then one else if white2 a b then [] else a ∷ b ∷ []
trim_start (a ∷ b ∷ c ∷ r) =
    let one = trim_start (b ∷ c ∷ r) in
    let two = trim_start (c ∷ r) in
    let three = trim_start r in
    if white1 a
    then one
    else if white2 a b
    then two
    else if white3 a b c
    then three
    else a ∷ b ∷ c ∷ r

-- A string is cut where all that follows is white space.
unfoldable pub trim_end : List ℕ → List ℕ
trim_end [] = []
trim_end (a ∷ r) = if length (trim_start (a ∷ r)) == 0 then [] else a ∷ trim_end r

unfoldable pub trim : List ℕ → List ℕ
trim s = trim_end (trim_start s)

unfoldable pub same_text : List ℕ → List ℕ → Bool
same_text [] [] = true
same_text [] (b ∷ s) = false
same_text (a ∷ r) [] = false
same_text (a ∷ r) (b ∷ s) = a == b && same_text r s

-- `strip_prefix`
unfoldable pub strip_prefix : List ℕ → List ℕ → Option (List ℕ)
strip_prefix [] s = some s
strip_prefix (a ∷ r) [] = none
strip_prefix (a ∷ r) (b ∷ s) = if a == b then strip_prefix r s else none

-- The digits of `parse::<usize>` after those read so far, which must not pass 2^64.
unfoldable pub parse_digits : ℕ → List ℕ → Option ℕ
parse_digits value [] = some value
parse_digits value (d ∷ r) =
    let next = value * 10 + (d - 48) in
    let rest = parse_digits next r in if between 48 d 57 && ltb next (2 ^ 64) then rest else none

-- One sign may stand before the digits, of which there must be one.
unfoldable pub parse_usize : List ℕ → Option ℕ
parse_usize [] = none
parse_usize (d ∷ []) = parse_digits 0 (d ∷ [])
parse_usize (d ∷ e ∷ r) = if d == 43 then parse_digits 0 (e ∷ r) else parse_digits 0 (d ∷ e ∷ r)

abbrev pub digit : ℕ → ℕ
digit d = if ltb d 10 then 48 + d else 87 + d

-- The digits of a number in a base, in front of a text.
unfoldable pub digits_before : ℕ → ℕ → ℕ → List ℕ → List ℕ
digits_before zero base n text = text
digits_before (suc fuel) base n text =
    let more = digit (n % base) ∷ text in
    let rest = digits_before fuel base (n / base) more in if n / base == 0 then more else rest

-- `{}` and `{:#x}` of numbers below 2^64, which have at most twenty digits.
unfoldable pub decimal : ℕ → List ℕ
decimal n = digits_before 20 10 n []

unfoldable pub hexadecimal : ℕ → List ℕ
hexadecimal n = 48 ∷ 120 ∷ digits_before 16 16 n []

-- `{:>w}` and `{:<w}` of a text in ASCII.
unfoldable pub pad_left : ℕ → List ℕ → List ℕ
pad_left w text = replicate (w - length text) 32 ++ text

unfoldable pub pad_right : ℕ → List ℕ → List ℕ
pad_right w text = text ++ replicate (w - length text) 32
