-- ===== src/Sched/Descriptors.antt =====
-- Descriptors of the current process (kernel/syscall/posix.rs): what `install_fd` and `sys_close`
-- do to the open-file table.
use light_os_orion_risc_v.Prelude.{
  ℕ, zero, suc, ◌+◌, ◌-◌, ◌^◌, ◌<◌, ◌≤◌, ◌≡◌, ◌≢◌, inl, inr, refl, sym, ap, ◌∙◌, Option, none, some,
  List, [], ◌∷◌, ◌++◌, arith, length, set, slot, slot-set_self, slot-set_ne, slot-lt, first_empty,
  first_empty_lem, Option-cases,
}
use light_os_orion_risc_v.Net.Socket
use light_os_orion_risc_v.Net.Socket.{UdpSocket, SocketTable}
use light_os_orion_risc_v.Sched.{FdKind, file, nce, socket, OpenFile, Process, System}
use light_os_orion_risc_v.Sched.Files.{place, install_fd, open_file, closed, release, sys_close}

slot-end : (l : List (Option OpenFile)) → slot l (length l) ≡ none
slot-end [] = refl
slot-end (x ∷ r) = slot-end r

slot-append_self :
    (l : List (Option OpenFile)) (x : Option OpenFile) → slot (l ++ (x ∷ [])) (length l) ≡ x
slot-append_self [] x = refl
slot-append_self (y ∷ r) x = slot-append_self r x

slot-append_ne :
    (l : List (Option OpenFile)) (x : Option OpenFile) (j : ℕ)
    → length l ≢ j
    → slot (l ++ (x ∷ [])) j ≡ slot l j
slot-append_ne [] x zero ne = absurd (ne refl)
slot-append_ne [] x (suc j) ne = refl
slot-append_ne (y ∷ r) x zero ne = refl
slot-append_ne (y ∷ r) x (suc j) ne = slot-append_ne r x j (omega arith)

-- Where a file is placed there was none, and every other place keeps what it had.
record Placed (files : List (Option OpenFile)) (f : OpenFile) : Type 0 where
  pub was_free : slot files (place files f).1 ≡ none
  pub there : slot (place files f).0 (place files f).1 ≡ some f
  pub others : (j : ℕ) → (place files f).1 ≢ j → slot (place files f).0 j ≡ slot files j

place-Placed : (files : List (Option OpenFile)) (f : OpenFile) → Placed files f
unfolding place
place-Placed files f = elim (Option-cases (first_empty files)) [
  | inl full ↦ record {
    was_free = rw (full, place) (slot-end files);
    there = rw (full, place) (slot-append_self files (some f));
    others = rw (full, place) (slot-append_ne files (some f));
  }
  | inr (i, free) ↦
      let (lt, empty) = first_empty_lem files i free in
      record {
        was_free = rw (free, place) empty;
        there = rw (free, place) (slot-set_self files i (some f) lt);
        others = rw (free, place) (λ j. slot-set_ne files i j (some f));
      }
]

-- For the current process a new descriptor is 3 or more, was not open before, and refers to what
-- was asked for, from position 0; the other descriptors of the process refer to what they did.
pub install_fd_lem :
    (s : System) (cur : ℕ) (p : Process) (kind : FdKind)
    → s.current ≡ some cur
    → slot s.procs.slots cur ≡ some p
    → (fd : ℕ) × (s' : System) × (p' : Process) × (install_fd s kind ≡ (some fd, s'))
      × (3 ≤ fd)
      × (open_file p fd ≡ none)
      × (slot s'.procs.slots cur ≡ some p')
      × (open_file p' fd ≡ some (record { kind = kind; pos = 0 }))
      × ((other : ℕ) → 3 ≤ other → fd ≢ other → open_file p' other ≡ open_file p other)
unfolding install_fd
install_fd_lem s cur p kind e here =
    let f : OpenFile = record { kind = kind; pos = 0 } in
    let placed : Placed p.files f = place-Placed p.files f in
    let i : ℕ = (place p.files f).1 in
    let back : i + 3 - 3 ≡ i = omega arith in
    let p' : Process = record p { files = (place p.files f).0 } in
    (
      i + 3,
      record s { procs = record s.procs { slots = set s.procs.slots cur (some p') } },
      p',
      ground arith,
      omega arith,
      ap (λ n. slot p.files n) back ∙ placed.was_free,
      slot-set_self s.procs.slots cur (some p') (slot-lt s.procs.slots cur p here),
      ap (λ n. slot (place p.files f).0 n) back ∙ placed.there,
      λ other h ne. placed.others (other - 3) (omega arith),
    )

-- The socket table once the file behind a descriptor is gone: the slot of its socket is empty and no
-- other slot has changed, or the table is as it was if the file is no socket.
pub record Released (t : SocketTable) (f : OpenFile) (t' : SocketTable) : Type 0 where
  pub freed : (idx : ℕ) → f.kind ≡ socket idx → slot t'.slots idx ≡ none
  pub others : (idx i : ℕ) → f.kind ≡ socket idx → idx ≢ i → slot t'.slots i ≡ slot t.slots i
  pub untouched : ((idx : ℕ) → f.kind ≢ socket idx) → t' ≡ t

slot-set-none : (l : List (Option UdpSocket)) (j : ℕ) → slot (set l j none) j ≡ none
slot-set-none [] j = refl
slot-set-none (x ∷ r) zero = refl
slot-set-none (x ∷ r) (suc j) = slot-set-none r j

release-Released :
    (t : SocketTable) (f : OpenFile) (kind : FdKind) → f.kind ≡ kind → Released t f (release t f)
unfolding Socket.free
release-Released t f (file ino) e =
    rw (e, release)
      (record {
        freed = λ idx e'. absurd (cc);
        others = λ idx i e' ne. refl;
        untouched = λ no. refl;
      })
release-Released t f (nce n) e =
    rw (e, release)
      (record {
        freed = λ idx e'. absurd (cc);
        others = λ idx i e' ne. refl;
        untouched = λ no. refl;
      })
release-Released t f (socket n) e =
    rw (e, release)
      (record {
        freed = λ idx e'.
            let same : n ≡ idx = cc in
            ap (λ i. slot (set t.slots n none) i) (sym same) ∙ slot-set-none t.slots n;
        others =
            λ idx i e' ne. let same : n ≡ idx = cc in slot-set_ne t.slots n i none (omega arith);
        untouched = λ no. absurd (no n refl);
      })

-- In a system with this current process, closing a descriptor that it has open, from 3 on and not
-- negative, answers 0 and closes it and no other. If it was a socket, the slot of that socket is
-- empty afterwards and the other slots of the socket table are as they were; if not, the whole
-- table is.
pub sys_close_lem :
    (s : System) (t : SocketTable) (cur fd : ℕ) (p : Process) (f : OpenFile)
    → s.current ≡ some cur
    → slot s.procs.slots cur ≡ some p
    → 3 ≤ fd
    → fd < 2 ^ 63
    → open_file p fd ≡ some f
    → (s' : System) × (p' : Process) × (t' : SocketTable) × (sys_close s t fd ≡ (closed, s', t'))
      × Released t f t'
      × (slot s'.procs.slots cur ≡ some p')
      × (open_file p' fd ≡ none)
      × ((other : ℕ) → 3 ≤ other → fd ≢ other → open_file p' other ≡ open_file p other)
unfolding sys_close
sys_close_lem s t cur fd p f e here lo hi at =
    let p' : Process = record p { files = set p.files (fd - 3) none } in
    (
      record s { procs = record s.procs { slots = set s.procs.slots cur (some p') } },
      p',
      release t f,
      ground arith,
      release-Released t f f.kind refl,
      slot-set_self s.procs.slots cur (some p') (slot-lt s.procs.slots cur p here),
      slot-set_self p.files (fd - 3) none (slot-lt p.files (fd - 3) f at),
      λ other h ne. slot-set_ne p.files (fd - 3) (other - 3) none (omega arith),
    )
