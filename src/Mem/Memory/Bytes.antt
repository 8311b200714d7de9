-- ===== src/Mem/Memory/Bytes.antt =====
-- The byte copies of the physical memory: what a byte holds after a slice was written.
use light_os_orion_risc_v.Prelude.{
  ℕ, zero, suc, ◌+◌, ◌-◌, ◌*◌, ◌/◌, ◌%◌, ◌<◌, ◌≤◌, ◌≡◌, ◌≢◌, refl, sym, ap, ap₂, ◌∙◌, List, [], ◌∷◌,
  arith, ltb, leb, ◌&&◌, if◌then◌else◌, ne→==, ==_refl, ℕ_discrete, dec_lt, length, take, get_or,
}
use light_os_orion_risc_v.Mem.Memory.{
  write_word, byte_of, with_byte, read_byte, write_byte, write_bytes, read_bytes,
}

byte_of-with_byte_self : (i w b : ℕ) → b < 256 → byte_of i (with_byte i w b) ≡ b
unfolding byte_of with_byte
byte_of-with_byte_self zero w b h = omega arith
byte_of-with_byte_self (suc i) w b h =
    let v : ℕ = with_byte i (w / 256) b in
    let e : (v * 256 + w % 256) / 256 ≡ v = omega arith in
    rw e (byte_of-with_byte_self i (w / 256) b h)

byte_of-with_byte_ne : (i j w b : ℕ) → b < 256 → i ≢ j → byte_of j (with_byte i w b) ≡ byte_of j w
unfolding byte_of with_byte
byte_of-with_byte_ne zero zero w b h ne = absurd (ne refl)
byte_of-with_byte_ne zero (suc j) w b h ne =
    let e : (w / 256 * 256 + b) / 256 ≡ w / 256 = omega arith in rw e refl
byte_of-with_byte_ne (suc i) zero w b h ne = omega arith
byte_of-with_byte_ne (suc i) (suc j) w b h ne =
    let v : ℕ = with_byte i (w / 256) b in
    let e : (v * 256 + w % 256) / 256 ≡ v = omega arith in
    rw e (byte_of-with_byte_ne i j (w / 256) b h (omega arith))

-- Every element is a byte.
abbrev pub Bytes : List ℕ → Type 0
Bytes l = (i : ℕ) → i < length l → get_or l i 0 < 256

read-write_byte_self : (words : ℕ → ℕ) (a b : ℕ) → b < 256 → read_byte (write_byte words a b) a ≡ b
unfolding read_byte write_byte write_word
read-write_byte_self words a b h =
    rw (==_refl (a / 8)) (byte_of-with_byte_self (a % 8) (words (a / 8)) b h)

read-write_byte_ne :
    (words : ℕ → ℕ) (a b x : ℕ)
    → b < 256
    → a ≢ x
    → read_byte (write_byte words a b) x ≡ read_byte words x
unfolding read_byte write_byte write_word
read-write_byte_ne words a b x h ne = elim (ℕ_discrete (x / 8) (a / 8)) [
  | yes word ↦
      rw (word, ==_refl (a / 8))
        (byte_of-with_byte_ne (a % 8) (x % 8) (words (a / 8)) b h (omega arith))
  | no other ↦ rw (ne→== (x / 8) (a / 8) other) refl
]

-- A byte of the range that was written is that of the slice, every other is what it was.
pub read-write_bytes :
    (src : List ℕ) (words : ℕ → ℕ) (a x : ℕ)
    → Bytes src
    → read_byte (write_bytes words a src) x
      ≡ (if leb a x && ltb x (a + length src) then get_or src (x - a) 0 else read_byte words x)
unfolding write_bytes
read-write_bytes [] words a x h = ground arith
read-write_bytes (b ∷ rest) words a x h =
    let ih =
      read-write_bytes rest (write_byte words a b) (a + 1) x (λ i lt. h (suc i) (omega arith)) in
    elim (ℕ_discrete a x) [
      | yes at ↦
          let self = read-write_byte_self words a b (h 0 (omega arith)) in
          let here : read_byte (write_byte words a b) x ≡ b = rw (← at) self in
          let first : x - a ≡ 0 = omega arith in rw first (ground (arith, ih, here))
      | no ne ↦
          let other = read-write_byte_ne words a b x (h 0 (omega arith)) ne in
          elim (dec_lt a x) [
            | yes lt ↦
                let e : x - a ≡ suc (x - (a + 1)) = omega arith in rw e (ground (arith, ih, other))
            | no before ↦ ground (arith, ih, other)
          ]
    ]

-- The words outside the range are what they were.
pub write_bytes-outside :
    (src : List ℕ) (words : ℕ → ℕ) (a w : ℕ)
    → ((i : ℕ) → i < length src → (a + i) / 8 ≢ w)
    → write_bytes words a src w ≡ words w
unfolding write_bytes write_byte write_word
write_bytes-outside [] words a w h = refl
write_bytes-outside (b ∷ rest) words a w h =
    let e : a / 8 ≢ w = (λ x. h 0 (omega arith) (omega arith)) in
    write_bytes-outside rest (write_byte words a b) (a + 1) w
      (λ i lt x. h (suc i) (omega arith) (omega arith))
    ∙ rw (ne→== w (a / 8) (λ x. e (sym x))) refl

-- A range that holds the first bytes of a slice reads as they are.
pub read_bytes-take :
    (n : ℕ) (words : ℕ → ℕ) (a : ℕ) (src : List ℕ)
    → n ≤ length src
    → ((i : ℕ) → i < n → read_byte words (a + i) ≡ get_or src i 0)
    → read_bytes words a n ≡ take n src
unfolding read_bytes
read_bytes-take zero words a src le h = refl
read_bytes-take (suc n) words a [] le h = absurd (omega arith)
read_bytes-take (suc n) words a (b ∷ rest) le h =
    ap₂ (λ x r. x ∷ r)
      (let e : a ≡ a + 0 = omega arith in ap (read_byte words) e ∙ h 0 (omega arith))
      (read_bytes-take n words (a + 1) rest (omega arith) (λ i lt.
        let e : a + 1 + i ≡ a + suc i = omega arith in
        ap (read_byte words) e ∙ h (suc i) (omega arith)))
