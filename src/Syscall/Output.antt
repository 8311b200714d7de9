-- ===== src/Syscall/Output.antt =====
-- The loop of `sys_write` to the console (kernel/syscall/posix.rs), over mapped bytes of the user
-- window.
use light_os_orion_risc_v.Prelude.{
  ℕ, zero, suc, ◌+◌, ◌-◌, ◌%◌, ◌<◌, ◌≤◌, ◌≡◌, refl, sym, ap, ◌∙◌, some, List, [], ◌∷◌, ◌++◌, arith,
  length, get_or, take, drop, min, slot, length-take, length-drop, get_or-take, get_or-drop, ne→==,
  ◌==◌, ◌||◌, true,
}
use light_os_orion_risc_v.Mem.Layout.{usize_mod}
use light_os_orion_risc_v.Mem.Mmu.Tree.{Owner}
use light_os_orion_risc_v.Mem.Uaccess.{user_va_start, user_va_end, got, copy_in}
use light_os_orion_risc_v.Mem.Uaccess.Window.{Window, user_byte}
use light_os_orion_risc_v.Mem.Uaccess.RoundTrip.{copy_in-got, take-append-drop}
use light_os_orion_risc_v.Uart
use light_os_orion_risc_v.Uart.{echo}
use light_os_orion_risc_v.Sched.{Process}
use light_os_orion_risc_v.Syscall.State.{Kernel, value, returns, from_user, with_current_lem}
use light_os_orion_risc_v.Syscall.Console.{write_console, console_write}
use light_os_orion_risc_v.Syscall.Devices.{sys_write}

append_assoc : (xs ys zs : List ℕ) → (xs ++ ys) ++ zs ≡ xs ++ (ys ++ zs)
append_assoc [] ys zs = refl
append_assoc (x ∷ xs) ys zs = ap (λ r. x ∷ r) (append_assoc xs ys zs)

write_bytes-append :
    (xs ys : List ℕ) → Uart.write_bytes (xs ++ ys) ≡ Uart.write_bytes xs ++ Uart.write_bytes ys
unfolding Uart.write_bytes
write_bytes-append [] ys = refl
write_bytes-append (x ∷ xs) ys =
    ap (λ r. echo x ++ r) (write_bytes-append xs ys)
    ∙ sym (append_assoc (echo x) (Uart.write_bytes xs) (Uart.write_bytes ys))

-- The kernel with these bytes sent to the console.
abbrev pub printed : Kernel → List ℕ → Kernel
printed k bytes = record k { console = k.console ++ Uart.write_bytes bytes }

printed_twice : (k : Kernel) (xs ys : List ℕ) → printed (printed k xs) ys ≡ printed k (xs ++ ys)
printed_twice k xs ys =
    ap (λ c. record k { console = c })
      (append_assoc k.console (Uart.write_bytes xs) (Uart.write_bytes ys)
        ∙ ap (λ r. k.console ++ r) (sym (write_bytes-append xs ys)))

append_nil : (xs : List ℕ) → xs ++ [] ≡ xs
append_nil [] = refl
append_nil (x ∷ xs) = ap (λ r. x ∷ r) (append_nil xs)

printed_nothing : (k : Kernel) → k ≡ printed k []
unfolding Uart.write_bytes
printed_nothing k = ap (λ c. record k { console = c }) (sym (append_nil k.console))

write_console-printed :
    (rounds : ℕ) (k : Kernel) (root : ℕ) (owner : Owner) (uva left len : ℕ) (src : List ℕ)
    → Window k.memory root owner
    → left ≡ length src
    → left ≤ rounds
    → user_va_start ≤ uva
    → uva + left ≤ user_va_end
    → ((i : ℕ) → i < length src → user_byte k.memory root (uva + i) ≡ some (get_or src i 0))
    → write_console rounds k root uva left len ≡ returns (value len) (printed k src)
unfolding write_console
write_console-printed zero k root owner uva left len [] w e le lo hi bytes =
    ap (returns (value len)) (printed_nothing k)
write_console-printed zero k root owner uva left len (b ∷ rest) w e le lo hi bytes =
    absurd (omega arith)
write_console-printed (suc rounds) k root owner uva left len [] w e le lo hi bytes =
    rw (e, write_console) (ap (returns (value len)) (printed_nothing k))
write_console-printed (suc rounds) k root owner uva left len (b ∷ rest) w e le lo hi bytes =
    let src : List ℕ = b ∷ rest in
    let n : ℕ = min 256 left in
    let taken : n ≡ length (take n src) = omega (arith, length-take n src) in
    let read : copy_in k.memory root uva n ≡ got (take n src) =
      ap (λ x. copy_in k.memory root uva x) taken
      ∙ copy_in-got k.memory root owner uva (take n src) w lo (omega (arith, taken)) (λ i lt.
        bytes i (omega (arith, taken))
        ∙ ap some (sym (get_or-take n i src 0 (omega (arith, taken))))) in
    let next : (uva + n) % usize_mod ≡ uva + n = omega arith in
    let rest_left : left - n ≡ length (drop n src) = omega (arith, length-drop n src) in
    let ih =
      write_console-printed rounds (printed k (take n src)) root owner (uva + n) (left - n) len
        (drop n src) w rest_left (omega arith) (omega arith) (omega arith)
        (λ i lt.
          let e' : uva + n + i ≡ uva + (n + i) = omega arith in
          ap (user_byte k.memory root) e'
          ∙ bytes (n + i) (omega (arith, length-drop n src))
          ∙ ap some (sym (get_or-drop n i src 0))) in
    let round : write_console (suc rounds) k root uva left len
        ≡ write_console rounds (printed k (take n src)) root (uva + n) (left - n) len =
      rw (write_console, ne→== left 0 (omega arith), from_user, read, next) refl in
    round
    ∙ ih
    ∙ ap (returns (value len))
        (printed_twice k (take n src) (drop n src) ∙ ap (printed k) (take-append-drop n src))

console_write-printed :
    (k : Kernel) (cur : ℕ) (p : Process) (owner : Owner) (uva : ℕ) (src : List ℕ)
    → k.system.current ≡ some cur
    → slot k.system.procs.slots cur ≡ some p
    → Window k.memory p.root_pa owner
    → user_va_start ≤ uva
    → uva + length src ≤ user_va_end
    → ((i : ℕ) → i < length src → user_byte k.memory p.root_pa (uva + i) ≡ some (get_or src i 0))
    → console_write k uva (length src) ≡ returns (value (length src)) (printed k src)
unfolding console_write
console_write-printed k cur p owner uva src running there w lo hi bytes =
    let n : ℕ = length src in
    with_current_lem k cur p (λ c q. write_console n k q.root_pa uva n n) running there
    ∙ write_console-printed n k p.root_pa owner uva n n src w refl (omega arith) lo hi bytes

-- If a process runs, has a window in which every mapped page has a frame of its own and no frame
-- is a table, and has the bytes mapped from an address of the window on, a `sys_write` of them to
-- descriptor 1 or 2 returns their number, and the console has them all, in their order, after what
-- it had; nothing else of the kernel changes.
pub sys_write-printed :
    (k : Kernel) (fd cur : ℕ) (p : Process) (owner : Owner) (uva : ℕ) (src : List ℕ)
    → 1 ≤ fd
    → fd ≤ 2
    → k.system.current ≡ some cur
    → slot k.system.procs.slots cur ≡ some p
    → Window k.memory p.root_pa owner
    → user_va_start ≤ uva
    → uva + length src ≤ user_va_end
    → ((i : ℕ) → i < length src → user_byte k.memory p.root_pa (uva + i) ≡ some (get_or src i 0))
    → sys_write k fd uva (length src) ≡ returns (value (length src)) (printed k src)
unfolding sys_write
sys_write-printed k fd cur p owner uva src low high running there w lo hi bytes =
    let standard : (fd == 1 || fd == 2) ≡ true = ground arith in
    rw (standard, sys_write)
      (console_write-printed k cur p owner uva src running there w lo hi bytes)
