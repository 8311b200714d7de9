-- ===== src/Mem/Kalloc/Take.antt =====
-- `take` of kernel/mem/kalloc.rs: what it hands out was free and is not any more, and putting it
-- back gives the list it came from.
use light_os_orion_risc_v.Prelude.{
  ℕ, zero, suc, ◌+◌, ◌-◌, ◌<◌, ◌≤◌, ◌≡◌, refl, sym, true, ◌||◌, List, [], ◌∷◌, arith, leb,
  Bool-cases, inl, inr, some, Option-cases,
}
use light_os_orion_risc_v.Mem.Kalloc.{Block, align_up, first_fit, insert_some, take_block}
use light_os_orion_risc_v.Mem.Kalloc.Blocks.{
  covers, free_byte, Separated, before, Separated-below, free_byte-above, Taken, Added,
}
use light_os_orion_risc_v.Mem.Kalloc.Insert.{Inserted, insert-Inserted}

-- The block that the search finds, and the list without it.
record Fit (low : ℕ) (l : List Block) (size align : ℕ) (cur : Block) (rest : List Block)
    : Type 0 where
  above : low < cur.addr
  room : align_up cur.addr align - cur.addr + size ≤ cur.size
  filled : 0 < cur.size
  apart : Separated low rest
  bytes : (x : ℕ) → free_byte l x ≡ (covers cur x || free_byte rest x)
  own : Taken rest cur.addr cur.size

first_fit-Fit :
    (low : ℕ) (l : List Block) (size align : ℕ) (cur : Block) (rest : List Block)
    → Separated low l
    → first_fit l size align ≡ some (cur, rest)
    → Fit low l size align cur rest
unfolding first_fit
first_fit-Fit low [] size align cur rest s e = absurd cc
first_fit-Fit low (b ∷ next) size align cur rest (before h pos s) e =
    elim (Bool-cases (leb (align_up b.addr align - b.addr + size) b.size)) [
      | inl fits ↦
          let same : b ≡ cur = ground arith in
          let same' : next ≡ rest = ground arith in
          rw (← same, ← same')
            (record {
              above = h;
              room = ground arith;
              filled = pos;
              apart = Separated-below (b.addr + b.size) low next (omega arith) s;
              bytes = λ x. refl;
              own = λ x lo hi. elim (Bool-cases (free_byte next x)) [
                | inl free ↦
                    let far = free_byte-above (b.addr + b.size) x next s free in
                    absurd (omega arith)
                | inr taken ↦ taken
              ];
            })
      | inr small ↦ elim (Option-cases (first_fit next size align)) [
        | inl none_left ↦ absurd (ground arith)
        | inr ((found, others), e') ↦
            let same : found ≡ cur = ground arith in
            let same' : b ∷ others ≡ rest = ground arith in
            let f = first_fit-Fit (b.addr + b.size) next size align found others s e' in
            rw (← same, ← same')
              (record {
                above = omega (arith, f.above);
                room = f.room;
                filled = f.filled;
                apart = before h pos f.apart;
                bytes = λ x. let e'' = f.bytes x in ground (arith, e'');
                own = λ x lo hi. let t = f.own x lo hi in let a = f.above in ground (arith, t, a);
              })
      ]
    ]

insert_some-Inserted :
    (low addr size : ℕ) (l : List Block)
    → Separated low l
    → low < addr
    → Taken l addr size
    → Inserted low l addr size (insert_some l addr size)
unfolding insert_some
insert_some-Inserted low addr zero l s lt taken = record { apart = s; bytes = λ x. ground arith }
insert_some-Inserted low addr (suc size) l s lt taken =
    insert-Inserted low addr (suc size) l s lt (omega arith) taken

-- What a block that was handed out does to the list.
pub record HandedOut (low : ℕ) (l : List Block) (size p : ℕ) (l' : List Block) : Type 0 where
  pub above : low < p
  pub apart : Separated low l'
  pub taken : Taken l' p size
  pub bytes : Added l' p size l

pub take_block-HandedOut :
    (low : ℕ) (l : List Block) (size align p : ℕ) (l' : List Block)
    → Separated low l
    → ((x : ℕ) → free_byte l x ≡ true → x ≤ align_up x align)
    → take_block l size align ≡ some (p, l')
    → HandedOut low l size p l'
      × ((start : ℕ) × (free_byte l start ≡ true) × (p ≡ align_up start align))
unfolding take_block
take_block-HandedOut low l size align p l' s up e = elim (Option-cases (first_fit l size align)) [
  | inl nothing ↦ absurd (ground arith)
  | inr ((cur, rest), e') ↦
      let f = first_fit-Fit low l size align cur rest s e' in
      let at : align_up cur.addr align ≡ p = ground arith in
      let first : free_byte l cur.addr ≡ true =
        (let b = f.bytes cur.addr in let n = f.filled in ground (arith, b, n)) in
      let le : cur.addr ≤ p = rw (← at) (up cur.addr first) in
      let pad : ℕ = p - cur.addr in
      let room : pad + size ≤ cur.size = rw (← at) f.room in
      let padded =
        insert_some-Inserted low cur.addr pad rest f.apart f.above
          (λ x lo hi. f.own x lo (omega (arith, room))) in
      let tailed =
        insert_some-Inserted low (p + size) (cur.size - pad - size) (insert_some rest cur.addr pad)
          padded.apart (omega (arith, f.above))
          (λ x lo hi.
            let t = f.own x (omega arith) (omega (arith, room)) in
            let b = padded.bytes x in ground (arith, t, b)) in
      let result : List Block =
        insert_some (insert_some rest cur.addr pad) (p + size) (cur.size - pad - size) in
      let same : result ≡ l' = ground arith in
      rw (← same) (
        record {
          above = omega (arith, f.above);
          apart = tailed.apart;
          taken = λ x lo hi.
              let t = f.own x (omega arith) (omega (arith, room)) in
              let b = padded.bytes x in let b' = tailed.bytes x in ground (arith, t, b, b');
          bytes = λ x.
              let b0 = f.bytes x in
              let b1 = padded.bytes x in
              let b2 = tailed.bytes x in ground (arith, b0, b1, b2, room, le);
        },
        (cur.addr, first, sym at),
      )
]
