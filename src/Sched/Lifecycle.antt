-- ===== src/Sched/Lifecycle.antt =====
-- kernel/sched/process.rs: how processes begin and end. What the file system and the memory answer
-- (the image, the new address space) is an argument.
use light_os_orion_risc_v.Prelude.{
  ℕ, ◌+◌, Bool, Option, none, some, List, [], ◌∷◌, ◌++◌, if◌then◌else◌, length, set, slot,
  first_empty, min, take, drop, get_elem?, replicate,
}
use light_os_orion_risc_v.Sched.{
  ready, Process, System, TrapFrame, Effect, free_user_space, page_free, mmap_base, user_stack_top,
  zeroed, with_slots, set_a0,
}

-- The first 15 bytes at most, a 0 behind them, and what the buffer had.
unfoldable pub set_name : List ℕ → List ℕ → List ℕ
set_name dst name = take (min (length name) 15) name ++ (0 ∷ drop (min (length name) 15 + 1) dst)

-- The address space that `build_address_space` made: (root_pa, entry, brk).
abbrev pub Image : Type 0
Image = ℕ × ℕ × ℕ

abbrev pub fresh : ℕ → Option ℕ → ℕ → ℕ → ℕ → List ℕ → Process
fresh pid parent root_pa next_mmap brk name = record {
  pid = pid;
  state = ready;
  parent = parent;
  root_pa = root_pa;
  exit_code = 0;
  wait_status_uva = 0;
  read_buf_uva = 0;
  read_len = 0;
  next_mmap = next_mmap;
  brk = brk;
  name = name;
  files = [];
  nce_affinity = 0;
}

-- The frame that a new image starts with.
abbrev pub entry_frame : ℕ → ℕ → TrapFrame
entry_frame kernel_sp entry = record zeroed {
  regs = set zeroed.regs 2 user_stack_top;
  sepc = entry;
  kernel_sp = kernel_sp;
}

-- A process put into an empty slot, under the next pid.
abbrev pub enroll : System → ℕ → Process → TrapFrame → System
enroll s j p tf = record s {
  procs = record s.procs { slots = set s.procs.slots j (some p); next_pid = s.procs.next_pid + 1 };
  frames = set s.frames j tf;
}

-- `spawn` of a program whose image was found and loaded; `none` is its error "process table full".
unfoldable pub spawn : ℕ → System → List ℕ → Image → Option (ℕ × System)
spawn kernel_sp s name (root_pa, entry, brk) = elim (first_empty s.procs.slots) [
  | none ↦ none
  | some j ↦
      let pid = s.procs.next_pid in
      some (
        pid,
        enroll s j (fresh pid none root_pa mmap_base brk (set_name (replicate 16 0) name))
            (entry_frame kernel_sp entry),
      )
]

pub data Forked : Type 0 where
  child : ℕ → Forked
  eagain enomem : Forked

-- `new_root` is the answer of `new_user_root`, `cloned` whether `clone_user_space` succeeded.
unfoldable pub fork_current : ℕ → System → Option ℕ → Bool → Option (Forked × System × List Effect)
fork_current kernel_sp s new_root cloned = elim (first_empty s.procs.slots) [
  | none ↦ some (eagain, s, [])
  | some j ↦ elim s.current [
    | none ↦ none
    | some cur ↦ elim (slot s.procs.slots cur) [
      | none ↦ none
      | some p ↦ elim new_root [
        | none ↦ some (enomem, s, [])
        | some root ↦ elim (get_elem? s.frames cur) [
          | none ↦ none
          | some tf ↦
              let pid = s.procs.next_pid in
              if cloned
              then some (
                child pid,
                enroll s j
                    (record (fresh pid (some cur) root p.next_mmap p.brk p.name) {
                      files = p.files;
                    })
                    (record (set_a0 tf 0) { kernel_sp = kernel_sp }),
                [],
              )
              else some (enomem, s, free_user_space root ∷ page_free root 1 ∷ [])
        ]
      ]
    ]
  ]
]

-- `exec_current` after its image was found and loaded.
unfoldable pub exec_current : ℕ → System → List ℕ → Image → Option (System × List Effect)
exec_current kernel_sp s name (new_root, entry, brk) = elim s.current [
  | none ↦ none
  | some cur ↦ elim (slot s.procs.slots cur) [
    | none ↦ none
    | some p ↦
        let p' = record p {
          root_pa = new_root;
          next_mmap = mmap_base;
          brk = brk;
          name = set_name p.name name;
        } in
        some (
          record (with_slots s (set s.procs.slots cur (some p'))) {
            frames = set s.frames cur (entry_frame kernel_sp entry);
          },
          free_user_space p.root_pa ∷ page_free p.root_pa 1 ∷ [],
        )
  ]
]
