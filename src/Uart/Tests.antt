-- ===== src/Uart/Tests.antt =====
-- Runs and instances for the console's receive ring (kernel/uart.rs).
use light_os_orion_risc_v.Prelude.{
  ℕ, ◌≡◌, refl, List, [], ◌∷◌, ◌++◌, map, arith, ltb, length, take, min,
}
use light_os_orion_risc_v.Uart.{
  RxRing, rx_buf, store, read_byte, translate, write_bytes, handle_interrupt, read_bytes,
}
use light_os_orion_risc_v.Uart.Ring.{IsValid, contents}
use light_os_orion_risc_v.Uart.Input.{handle_interrupt_lem, read_bytes_lem}

-- "a", then Return.
abbrev typed : List ℕ
typed = 97 ∷ 13 ∷ []

-- The ring near the end of its buffer, with two bytes that wait.
abbrev wrapped : RxRing
wrapped = record rx_buf { head = 1; tail = 255 }

wrapped-IsValid : IsValid wrapped
unfolding rx_buf
wrapped-IsValid = record { size = omega arith; head_lt = omega arith; tail_lt = omega arith }

typed_run : contents (handle_interrupt wrapped typed).rx ≡ 0 ∷ 0 ∷ 97 ∷ 10 ∷ []
unfolding handle_interrupt store rx_buf
typed_run = refl

echoed_run : (handle_interrupt wrapped typed).echoed ≡ 97 ∷ 13 ∷ 10 ∷ []
unfolding handle_interrupt store rx_buf
echoed_run = refl

read_run : (read_bytes (handle_interrupt wrapped typed).rx 3).0 ≡ 0 ∷ 0 ∷ 97 ∷ []
unfolding handle_interrupt store rx_buf read_bytes read_byte
read_run = refl

handle_interrupt_lem_example :
    let after = handle_interrupt wrapped typed in
    IsValid after.rx
    × (contents after.rx ≡ take 255 (contents wrapped ++ map translate typed))
    × (after.echoed ≡ write_bytes (map translate typed))
    × (after.got_input ≡ ltb (length (contents wrapped)) (length (contents after.rx)))
handle_interrupt_lem_example = handle_interrupt_lem wrapped typed wrapped-IsValid (omega arith)

read_bytes_lem_example :
    let (out, after) = read_bytes wrapped 128 in
    IsValid after
    × (contents wrapped ≡ out ++ contents after)
    × (length out ≡ min 128 (length (contents wrapped)))
read_bytes_lem_example = read_bytes_lem wrapped 128 wrapped-IsValid
