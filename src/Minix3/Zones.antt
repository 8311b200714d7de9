-- ===== src/Minix3/Zones.antt =====
-- The zones of a file (kernel/fs/minix3.rs), as the on-disk format lists them: seven in the inode,
-- then those that its indirect block names.
use light_os_orion_risc_v.Prelude.{
  ℕ, zero, suc, ◌+◌, ◌-◌, ◌*◌, ◌<◌, ◌≡◌, refl, sym, ap, ◌∙◌, true, false, Option, none, some, List,
  [], ◌∷◌, arith, ◌==◌, ltb, if◌then◌else◌, Bool-cases, Option-cases, inl, inr, length, get_or,
  drop, replicate, length-replicate, get_or-replicate, get_or-drop,
}
use light_os_orion_risc_v.Minix3.{Disk, ok, err, io, Inode, zones_per_block, le32, file_zone}

-- The little-endian numbers that a block begins with.
unfoldable pub numbers : ℕ → List ℕ → List (Option ℕ)
numbers zero b = []
numbers (suc n) b = some (le32 b 0) ∷ numbers n (drop 4 b)

-- The zones behind the eighth number of the inode; `none` is a number that cannot be read.
unfoldable pub indirect_zones : Disk → Inode → List (Option ℕ)
indirect_zones disk i =
    if get_or i.zones 7 0 == 0 then replicate 256 (some 0) else elim (disk (get_or i.zones 7 0)) [
      | none ↦ replicate 256 none
      | some block ↦ numbers 256 block
    ]

abbrev pub file_zones : Disk → Inode → List (Option ℕ)
file_zones disk i =
    some (get_or i.zones 0 0)
    ∷ (some (get_or i.zones 1 0)
        ∷ (some (get_or i.zones 2 0)
            ∷ (some (get_or i.zones 3 0)
                ∷ (some (get_or i.zones 4 0)
                    ∷ (some (get_or i.zones 5 0)
                        ∷ (some (get_or i.zones 6 0) ∷ indirect_zones disk i))))))

-- The zone of block `n` of a file; zone 0 is a hole.
unfoldable pub zone_of : Disk → Inode → ℕ → Option ℕ
zone_of disk i n = get_or (file_zones disk i) n none

get_or-lt : (l : List (Option ℕ)) (k z : ℕ) → get_or l k none ≡ some z → k < length l
get_or-lt [] k z e = absurd (cc)
get_or-lt (x ∷ l) zero z e = omega arith
get_or-lt (x ∷ l) (suc k) z e = omega (arith, get_or-lt l k z e)

length-numbers : (n : ℕ) (b : List ℕ) → length (numbers n b) ≡ n
unfolding numbers
length-numbers zero b = refl
length-numbers (suc n) b = omega (arith, length-numbers n (drop 4 b))

le32-drop : (b : List ℕ) (off : ℕ) → le32 (drop 4 b) off ≡ le32 b (4 + off)
le32-drop b off =
    let byte : (k : ℕ) → get_or (drop 4 b) (off + k) 0 ≡ get_or b (4 + off + k) 0 =
      (λ k. get_or-drop 4 (off + k) b 0 ∙ ap (λ j. get_or b j 0) (omega arith)) in
    omega (arith, get_or-drop 4 off b 0, byte 1, byte 2, byte 3)

get_or-numbers :
    (n k : ℕ) (b : List ℕ) → k < n → get_or (numbers n b) k none ≡ some (le32 b (k * 4))
unfolding numbers
get_or-numbers zero k b h = absurd (omega arith)
get_or-numbers (suc n) zero b h = refl
get_or-numbers (suc n) (suc k) b h =
    let at : 4 + k * 4 ≡ suc k * 4 = omega arith in
    get_or-numbers n k (drop 4 b) (omega arith) ∙ ap some (le32-drop b (k * 4) ∙ ap (le32 b) at)

-- What `file_zone` does behind the seventh zone.
file_zone-past :
    (disk : Disk) (i : Inode) (k : ℕ)
    → k < 256
    → file_zone disk i (7 + k) ≡ (
        if get_or i.zones 7 0 == 0 then ok 0 else elim (disk (get_or i.zones 7 0)) [
          | none ↦ err io
          | some block ↦ ok (le32 block (k * 4))
        ])
unfolding file_zone
file_zone-past disk i k h =
    let far : ltb (7 + k) 7 ≡ false = ground arith in
    let from : 7 + k - 7 ≡ k = omega arith in
    let near : ltb (7 + k - 7) zones_per_block ≡ true = ground arith in
    rw (file_zone, far, near)
      (ap
        (λ j. if get_or i.zones 7 0 == 0 then ok 0 else elim (disk (get_or i.zones 7 0)) [
          | none ↦ err io
          | some block ↦ ok (le32 block (j * 4))
        ])
        from)

some-inj : (a b : ℕ) → ◌≡◌ {A = Option ℕ} (some a) (some b) → a ≡ b
some-inj a b e = cc

file_zone-indirect :
    (disk : Disk) (i : Inode) (k z : ℕ)
    → get_or (indirect_zones disk i) k none ≡ some z
    → file_zone disk i (7 + k) ≡ ok z
unfolding indirect_zones
file_zone-indirect disk i k z e = elim (Bool-cases (get_or i.zones 7 0 == 0)) [
  | inl hole ↦
      let zones : indirect_zones disk i ≡ replicate 256 (some 0) = rw (indirect_zones, hole) refl in
      let there = sym (ap (λ l. get_or l k none) zones) ∙ e in
      let lt : k < 256 = omega (
        arith,
        get_or-lt (replicate 256 (some 0)) k z there,
        length-replicate {A = Option ℕ} 256 (some 0),
      ) in
      let v = get_or-replicate {A = Option ℕ} 256 k (some 0) none lt in
      file_zone-past disk i k lt ∙ rw hole (ap ok (some-inj 0 z (sym v ∙ there)))
  | inr data_zone ↦ elim (Option-cases (disk (get_or i.zones 7 0))) [
    | inl gone ↦
        let zones : indirect_zones disk i ≡ replicate 256 none =
          rw (indirect_zones, data_zone, gone) refl in
        let there = sym (ap (λ l. get_or l k none) zones) ∙ e in
        let lt : k < 256 = omega (
          arith,
          get_or-lt (replicate 256 none) k z there,
          length-replicate {A = Option ℕ} 256 none,
        ) in
        let v = get_or-replicate {A = Option ℕ} 256 k none none lt in absurd cc
    | inr (block, read) ↦
        let zones : indirect_zones disk i ≡ numbers 256 block =
          rw (indirect_zones, data_zone, read) refl in
        let there = sym (ap (λ l. get_or l k none) zones) ∙ e in
        let lt : k < 256 =
          omega (arith, get_or-lt (numbers 256 block) k z there, length-numbers 256 block) in
        let v = get_or-numbers 256 k block lt in
        file_zone-past disk i k lt
        ∙ rw (data_zone, read) (ap ok (some-inj (le32 block (k * 4)) z (sym v ∙ there)))
  ]
]

file_zone_listed :
    (disk : Disk) (i : Inode) (n z : ℕ)
    → get_or (file_zones disk i) n none ≡ some z
    → file_zone disk i n ≡ ok z
unfolding file_zone
file_zone_listed disk i zero z e = ap ok (some-inj (get_or i.zones 0 0) z e)
file_zone_listed disk i (suc zero) z e = ap ok (some-inj (get_or i.zones 1 0) z e)
file_zone_listed disk i (suc (suc zero)) z e = ap ok (some-inj (get_or i.zones 2 0) z e)
file_zone_listed disk i (suc (suc (suc zero))) z e = ap ok (some-inj (get_or i.zones 3 0) z e)
file_zone_listed disk i (suc (suc (suc (suc zero)))) z e = ap ok (some-inj (get_or i.zones 4 0) z e)
file_zone_listed disk i (suc (suc (suc (suc (suc zero))))) z e =
    ap ok (some-inj (get_or i.zones 5 0) z e)
file_zone_listed disk i (suc (suc (suc (suc (suc (suc zero)))))) z e =
    ap ok (some-inj (get_or i.zones 6 0) z e)
file_zone_listed disk i (suc (suc (suc (suc (suc (suc (suc k))))))) z e =
    let at : 7 + k ≡ suc (suc (suc (suc (suc (suc (suc k)))))) = omega arith in
    sym (ap (file_zone disk i) at) ∙ file_zone-indirect disk i k z e

-- The zone that the format gives a block of a file is the one that `file_zone` finds.
pub file_zone_lem :
    (disk : Disk) (i : Inode) (n z : ℕ) → zone_of disk i n ≡ some z → file_zone disk i n ≡ ok z
unfolding zone_of
file_zone_lem disk i n z e = file_zone_listed disk i n z e
