-- ===== src/Uart/Ring.antt =====
-- The receive ring (kernel/uart.rs, RX_BUF) as a queue of at most 255 bytes: the abstraction and
-- what the two operations do to it.
use light_os_orion_risc_v.Prelude.{
  ℕ, zero, suc, ◌+◌, ◌-◌, ◌%◌, ◌<◌, ◌≤◌, ◌≡◌, ◌≢◌, refl, ap, ◌∙◌, none, some, List, [], ◌∷◌, ◌++◌,
  arith, ltb, if◌then◌else◌, length, get_or, set, get_or-set_self, get_or-set_ne, length-set,
  ℕ_discrete,
}
use light_os_orion_risc_v.Uart.{RxRing, rx_buf_size, store, read_byte}

pub record IsValid (rx : RxRing) : Type 0 where
  pub size : length rx.buf ≡ rx_buf_size
  pub head_lt : rx.head < rx_buf_size
  pub tail_lt : rx.tail < rx_buf_size

-- `n` bytes of the buffer from index `t`, around its end.
abbrev pub span : List ℕ → ℕ → ℕ → List ℕ
span buf t zero = []
span buf t (suc n) = get_or buf t 0 ∷ span buf ((t + 1) % rx_buf_size) n

abbrev pub used : RxRing → ℕ
used rx = (rx.head + rx_buf_size - rx.tail) % rx_buf_size

-- The bytes that wait to be read, the oldest first.
abbrev pub contents : RxRing → List ℕ
contents rx = span rx.buf rx.tail (used rx)

pub length-span : (buf : List ℕ) (t n : ℕ) → length (span buf t n) ≡ n
length-span buf t zero = refl
length-span buf t (suc n) = omega (arith, length-span buf ((t + 1) % rx_buf_size) n)

wrap-step :
    (t n : ℕ)
    → t < rx_buf_size
    → ((t + 1) % rx_buf_size + n) % rx_buf_size ≡ (t + suc n) % rx_buf_size
wrap-step t n h = omega arith

span-snoc :
    (buf : List ℕ) (t n : ℕ)
    → t < rx_buf_size
    → span buf t (suc n) ≡ span buf t n ++ (get_or buf ((t + n) % rx_buf_size) 0 ∷ [])
span-snoc buf t zero h = ap (λ k. get_or buf k 0 ∷ []) (omega arith)
span-snoc buf t (suc n) h =
    ap (λ r. get_or buf t 0 ∷ r)
      (span-snoc buf ((t + 1) % rx_buf_size) n (omega arith)
        ∙ ap (λ k. span buf ((t + 1) % rx_buf_size) n ++ (get_or buf k 0 ∷ [])) (wrap-step t n h))

-- A write outside of the span does not show.
span-set :
    (buf : List ℕ) (t n i x : ℕ)
    → t < rx_buf_size
    → i < rx_buf_size
    → n ≤ (i + rx_buf_size - t) % rx_buf_size
    → span (set buf i x) t n ≡ span buf t n
span-set buf t zero i x ht hi h = refl
span-set buf t (suc n) i x ht hi h =
    let next : ℕ = (t + 1) % rx_buf_size in
    let same : span (set buf i x) next n ≡ span buf next n =
      span-set buf next n i x (omega arith) hi (omega arith) in
    rw (get_or-set_ne buf i t x 0 (omega arith), same) refl

put : RxRing → ℕ → RxRing
put rx byte = record rx { buf = set rx.buf rx.head byte; head = (rx.head + 1) % rx_buf_size }

contents-put :
    (rx : RxRing) (byte : ℕ)
    → IsValid rx
    → (rx.head + 1) % rx_buf_size ≢ rx.tail
    → contents (put rx byte) ≡ contents rx ++ (byte ∷ [])
unfolding put
contents-put rx byte v room =
    let h1 = v.head_lt in
    let h2 = v.tail_lt in
    let grown : used (put rx byte) ≡ suc (used rx) = omega arith in
    let old : span (set rx.buf rx.head byte) rx.tail (used rx) ≡ contents rx =
      span-set rx.buf rx.tail (used rx) rx.head byte h2 h1 (omega arith) in
    let at : (rx.tail + used rx) % rx_buf_size ≡ rx.head = omega arith in
    let new : get_or (set rx.buf rx.head byte) rx.head 0 ≡ byte =
      get_or-set_self rx.buf rx.head byte 0 (rw v.size h1) in
    ap (λ n. span (set rx.buf rx.head byte) rx.tail n) grown
    ∙ span-snoc (set rx.buf rx.head byte) rx.tail (used rx) h2
    ∙ rw (old, at, new) refl

-- `store` puts a byte behind the others, or drops it where 255 are waiting; the flag is whether it
-- was kept.
pub store-contents :
    (rx : RxRing) (byte : ℕ)
    → IsValid rx
    → IsValid (store rx byte).0
      × (contents (store rx byte).0
          ≡ (if ltb (length (contents rx)) 255 then contents rx ++ (byte ∷ []) else contents rx))
      × ((store rx byte).1 ≡ ltb (length (contents rx)) 255)
unfolding store put
store-contents rx byte v =
    let len : length (contents rx) ≡ used rx = length-span rx.buf rx.tail (used rx) in
    elim (ℕ_discrete ((rx.head + 1) % rx_buf_size) rx.tail) [
      | yes full ↦ ground (arith, len, v.size, v.head_lt, v.tail_lt)
      | no room ↦ ground (
        arith,
        len,
        v.head_lt,
        v.tail_lt,
        contents-put rx byte v room,
        length-set rx.buf rx.head byte,
        v.size,
      )
    ]

-- `read_byte` takes the oldest byte, and finds nothing only when nothing waits.
pub read_byte-contents :
    (rx : RxRing)
    → IsValid rx
    → IsValid (read_byte rx).1
      × (contents rx
          ≡ elim (read_byte rx).0 [ none ↦ [] | some byte ↦ byte ∷ contents (read_byte rx).1 ])
unfolding read_byte
read_byte-contents rx v =
    let h1 = v.head_lt in
    let h2 = v.tail_lt in
    elim (ℕ_discrete rx.head rx.tail) [
      | yes empty ↦
          let none_used : used rx ≡ 0 = omega arith in
          ground (arith, ap (λ n. span rx.buf rx.tail n) none_used)
      | no some_left ↦
          let popped : RxRing = record rx { tail = (rx.tail + 1) % rx_buf_size } in
          let shrunk : used rx ≡ suc (used popped) = omega arith in
          ground (arith, h1, h2, v.size, ap (λ n. span rx.buf rx.tail n) shrunk)
    ]
