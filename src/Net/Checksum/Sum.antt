-- ===== src/Net/Checksum/Sum.antt =====
-- The loops that add up the words (kernel/net/ipv4.rs, `checksum`).
use light_os_orion_risc_v.Prelude.{
  ℕ, ◌+◌, ◌-◌, ◌*◌, ◌%◌, ◌^◌, ◌≤◌, ◌<◌, ◌≡◌, ◌∙◌, List, [], ◌∷◌, arith, length,
}
use light_os_orion_risc_v.Net.Wire.{Ip, put_ip, from_be16, put_be16}
use light_os_orion_risc_v.Net.Checksum.{sum_words, checksum}
use light_os_orion_risc_v.Net.Checksum.Fold.{
  reduce, reduce-lt, reduce-complement, reduce_ones, fold_carries-reduce,
}

-- Every entry is a byte.
abbrev pub AllBytes : List ℕ → Type 0
AllBytes [] = Unit {0}
AllBytes (x ∷ xs) = (x < 256) × AllBytes xs

-- The sum of the big-endian words, an odd last byte being the high one; nothing wraps.
abbrev pub word_sum : List ℕ → ℕ
word_sum [] = 0
word_sum (a ∷ []) = a * 256
word_sum (a ∷ b ∷ rest) = from_be16 a b + word_sum rest

pub word_sum-le : (xs : List ℕ) → AllBytes xs → 2 * word_sum xs ≤ 65535 * (length xs + 1)
word_sum-le [] h = omega arith
word_sum-le (a ∷ []) h = omega arith
word_sum-le (a ∷ b ∷ rest) h = omega (arith, word_sum-le rest h.1.1)

sum_words-word_sum :
    (acc : ℕ) (xs : List ℕ) → acc + word_sum xs < 2 ^ 32 → sum_words acc xs ≡ acc + word_sum xs
unfolding sum_words
sum_words-word_sum acc [] h = omega arith
sum_words-word_sum acc (a ∷ []) h = omega arith
sum_words-word_sum acc (a ∷ b ∷ rest) h =
    let e : (acc + from_be16 a b) % 2 ^ 32 ≡ acc + from_be16 a b = omega arith in
    rw e (sum_words-word_sum (acc + from_be16 a b) rest (omega arith) ∙ omega arith)

-- For up to 128 KiB of bytes the checksum is the complement of their one's-complement sum.
pub checksum-reduce :
    (xs : List ℕ) → AllBytes xs → length xs ≤ 131000 → checksum xs ≡ 65535 - reduce (word_sum xs)
unfolding checksum
checksum-reduce xs bytes h =
    let small : word_sum xs < 2 ^ 32 = omega (arith, word_sum-le xs bytes) in
    let e : sum_words 0 xs ≡ word_sum xs = sum_words-word_sum 0 xs (omega arith) ∙ omega arith in
    rw e (omega (arith, fold_carries-reduce (word_sum xs) small, reduce-lt (word_sum xs)))

pub checksum-lt : (xs : List ℕ) → checksum xs < 65536
unfolding checksum
checksum-lt xs = omega arith

-- Data whose words are those of `xs` with its checksum added verifies: its own checksum is 0.
pub checksum_fills :
    (xs ys : List ℕ)
    → AllBytes xs
    → AllBytes ys
    → length xs ≤ 131000
    → length ys ≤ 131000
    → word_sum ys ≡ word_sum xs + checksum xs
    → checksum ys ≡ 0
checksum_fills xs ys bx bys hx hy e =
    let filled : word_sum ys ≡ word_sum xs + (65535 - reduce (word_sum xs)) =
      omega (arith, checksum-reduce xs bx hx) in
    checksum-reduce ys bys hy ∙ rw filled (omega (arith, reduce-complement (word_sum xs)))

-- So does data whose words are those of `xs` with all ones added, where the checksum of `xs` is 0.
pub checksum_fills_ones :
    (xs ys : List ℕ)
    → AllBytes xs
    → AllBytes ys
    → length xs ≤ 131000
    → length ys ≤ 131000
    → checksum xs ≡ 0
    → word_sum ys ≡ word_sum xs + 65535
    → checksum ys ≡ 0
checksum_fills_ones xs ys bx bys hx hy zero_sum e =
    let ones : reduce (word_sum xs) ≡ 65535 =
      omega (arith, checksum-reduce xs bx hx, reduce-lt (word_sum xs)) in
    checksum-reduce ys bys hy ∙ rw e (omega (arith, reduce_ones (word_sum xs) ones))

pub AllBytes-put_be16 : (n : ℕ) (rest : List ℕ) → AllBytes rest → AllBytes (put_be16 n rest)
AllBytes-put_be16 n rest h = (omega arith, (omega arith, h))

-- The four entries of an address are bytes.
abbrev pub IpBytes : Ip → Type 0
IpBytes (a, b, c, d) = (a < 256) × (b < 256) × (c < 256) × (d < 256)

pub AllBytes-put_ip :
    (ip : Ip) (rest : List ℕ) → IpBytes ip → AllBytes rest → AllBytes (put_ip ip rest)
AllBytes-put_ip ip rest i h = (i.0, (i.1, (i.2, (i.3, h))))
