-- ===== src/Uart.antt =====
-- kernel/uart.rs: the console's receive side, its echo and `write_bytes`. The bytes that `get` reads
-- from the receive FIFO until it is empty are an argument, and the bytes that `put` sends are a
-- result; the register accesses themselves are not modelled.
pub mod Ring
pub mod Input
mod Tests
use light_os_orion_risc_v.Prelude.{
  ℕ, zero, suc, ◌+◌, ◌%◌, Bool, true, false, ◌||◌, Option, none, some, List, [], ◌∷◌, ◌++◌, ◌==◌,
  if◌then◌else◌, get_or, set, replicate,
}

abbrev pub rx_buf_size : ℕ
rx_buf_size = 256

pub record RxRing : Type 0 where
  pub buf : List ℕ
  pub head : ℕ
  pub tail : ℕ

unfoldable pub rx_buf : RxRing
rx_buf = record { buf = replicate rx_buf_size 0; head = 0; tail = 0 }

-- The lines of `handle_interrupt` that hold the lock of the ring: the ring after them, and whether
-- they set `got_input`.
unfoldable pub store : RxRing → ℕ → RxRing × Bool
store rx byte =
    let next = (rx.head + 1) % rx_buf_size in
    if next == rx.tail
    then (rx, false)
    else (record rx { buf = set rx.buf rx.head byte; head = next }, true)

-- "translate CR from terminals to NL"
abbrev pub translate : ℕ → ℕ
translate byte = if byte == 13 then 10 else byte

-- What goes out for one byte of output.
abbrev pub echo : ℕ → List ℕ
echo byte = if byte == 10 then 13 ∷ byte ∷ [] else byte ∷ []

unfoldable pub write_bytes : List ℕ → List ℕ
write_bytes [] = []
write_bytes (byte ∷ r) = echo byte ++ write_bytes r

pub record Serviced : Type 0 where
  pub rx : RxRing
  pub echoed : List ℕ
  pub got_input : Bool

-- The loop of `handle_interrupt` over the bytes in the FIFO.
unfoldable pub handle_interrupt : RxRing → List ℕ → Serviced
handle_interrupt rx [] = record { rx = rx; echoed = []; got_input = false }
handle_interrupt rx (raw ∷ fifo) =
    let byte = translate raw in
    let stored = store rx byte in
    let rest = handle_interrupt stored.0 fifo in
    record {
      rx = rest.rx;
      echoed = echo byte ++ rest.echoed;
      got_input = stored.1 || rest.got_input;
    }

unfoldable pub read_byte : RxRing → Option ℕ × RxRing
read_byte rx =
    if rx.head == rx.tail
    then (none, rx)
    else (some (get_or rx.buf rx.tail 0), record rx { tail = (rx.tail + 1) % rx_buf_size })

-- The loop of `sys_read` and `wake_console_reader`: at most `n` bytes, fewer when the ring is empty.
unfoldable pub read_bytes : RxRing → ℕ → List ℕ × RxRing
read_bytes rx zero = ([], rx)
read_bytes rx (suc n) =
    let read = read_byte rx in
    let rest = read_bytes read.1 n in
    elim read.0 [ none ↦ ([], rx) | some byte ↦ (byte ∷ rest.0, rest.1) ]
