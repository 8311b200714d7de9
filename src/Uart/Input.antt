-- ===== src/Uart/Input.antt =====
-- What goes in on the console comes out of `read` (kernel/uart.rs): the interrupt handler and the
-- read loop over the queue that the ring is.
use light_os_orion_risc_v.Prelude.{
  ℕ, zero, suc, ◌<◌, ◌≤◌, ◌≡◌, inl, inr, refl, ap, ◌∙◌, sym, List, [], ◌∷◌, ◌++◌, map, length-take,
  arith, ltb, lt→ltb, le→ltb, length, take, min, take-append, length-append, dec_lt, Option-cases,
}
use light_os_orion_risc_v.Uart.{
  RxRing, store, read_byte, translate, echo, write_bytes, handle_interrupt, read_bytes,
}
use light_os_orion_risc_v.Uart.Ring.{IsValid, contents, store-contents, read_byte-contents}

append_assoc : (xs : List ℕ) (y : ℕ) (ys : List ℕ) → (xs ++ (y ∷ [])) ++ ys ≡ xs ++ (y ∷ ys)
append_assoc [] y ys = refl
append_assoc (x ∷ xs) y ys = ap (λ r. x ∷ r) (append_assoc xs y ys)

take-append_nil : (xs : List ℕ) (n : ℕ) → length xs ≤ n → take n (xs ++ []) ≡ xs
take-append_nil [] zero h = refl
take-append_nil [] (suc n) h = refl
take-append_nil (x ∷ xs) zero h = absurd (omega arith)
take-append_nil (x ∷ xs) (suc n) h = ap (λ r. x ∷ r) (take-append_nil xs n (omega arith))

-- With a valid ring of at most 255 bytes the interrupt handler queues the bytes of the FIFO, each
-- carriage return as a newline, behind those that wait, as far as there is room for 255, and
-- echoes all of them, translated in the same way, as `write_bytes` would write them. It reports
-- input exactly when it has queued something.
pub handle_interrupt_lem :
    (rx : RxRing) (fifo : List ℕ)
    → IsValid rx
    → length (contents rx) ≤ 255
    → let after = handle_interrupt rx fifo in
      IsValid after.rx
      × (contents after.rx ≡ take 255 (contents rx ++ map translate fifo))
      × (after.echoed ≡ write_bytes (map translate fifo))
      × (after.got_input ≡ ltb (length (contents rx)) (length (contents after.rx)))
unfolding handle_interrupt write_bytes
handle_interrupt_lem rx [] v h =
    let all : take 255 (contents rx ++ []) ≡ contents rx = take-append_nil (contents rx) 255 h in
    ground (arith, all)
handle_interrupt_lem rx (raw ∷ fifo) v h =
    let byte : ℕ = translate raw in
    let q : List ℕ = contents rx in
    let rest : List ℕ = map translate fifo in
    let (v', stored, kept) = store-contents rx byte v in
    elim (dec_lt (length q) 255) [
      | yes room ↦
          let more : contents (store rx byte).0 ≡ q ++ (byte ∷ []) = stored ∙ ground arith in
          let (w, queued, echoed, got) =
            handle_interrupt_lem (store rx byte).0 fifo v'
              (rw more (omega (arith, length-append q (byte ∷ [])))) in
          let all : contents (handle_interrupt (store rx byte).0 fifo).rx
              ≡ take 255 (q ++ (byte ∷ rest)) =
            queued ∙ ap (λ l. take 255 l) (ap (λ l. l ++ rest) more ∙ append_assoc q byte rest) in
          let longer : length q < length (take 255 (q ++ (byte ∷ rest))) =
            omega (arith, length-take 255 (q ++ (byte ∷ rest)), length-append q (byte ∷ rest)) in
          (
            w,
            all,
            ap (λ r. echo byte ++ r) echoed,
            rw (kept ∙ lt→ltb _ _ room, all) (sym (lt→ltb _ _ longer)),
          )
      | no full ↦
          let same : contents (store rx byte).0 ≡ q = stored ∙ ground arith in
          let (w, queued, echoed, got) =
            handle_interrupt_lem (store rx byte).0 fifo v' (rw same h) in
          let all : contents (handle_interrupt (store rx byte).0 fifo).rx ≡ q =
            queued ∙ ap (λ l. take 255 (l ++ rest)) same ∙ take-append q rest 255 (omega arith) in
          (
            w,
            all ∙ sym (take-append q (byte ∷ rest) 255 (omega arith)),
            ap (λ r. echo byte ++ r) echoed,
            rw (kept ∙ le→ltb _ _ (omega arith)) (
                got
                ∙ ap
                    (λ l.
                      ltb (length l)
                        (length (contents (handle_interrupt (store rx byte).0 fifo).rx)))
                    same),
          )
    ]

-- From a valid ring the read loop takes the oldest bytes, as many as there are but no more than it
-- is asked for, and leaves the rest.
pub read_bytes_lem :
    (rx : RxRing) (n : ℕ)
    → IsValid rx
    → let (out, after) = read_bytes rx n in
      IsValid after
      × (contents rx ≡ out ++ contents after)
      × (length out ≡ min n (length (contents rx)))
unfolding read_bytes
read_bytes_lem rx zero v = ground arith
read_bytes_lem rx (suc n) v =
    let (w, front) = read_byte-contents rx v in
    let ih = read_bytes_lem (read_byte rx).1 n w in
    elim (Option-cases (read_byte rx).0) [
      | inl empty ↦ ground arith
      | inr (byte, some_left) ↦ ground arith
    ]
