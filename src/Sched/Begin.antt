-- ===== src/Sched/Begin.antt =====
-- Beginnings and wake-ups (kernel/sched/process.rs): `spawn`, `fork_current`, `exec_current` and
-- `wake_console_reader` keep the invariant.
use light_os_orion_risc_v.Prelude.{
  ℕ, ◌≡◌, inl, inr, refl, ap, sym, ◌∙◌, Bool, true, false, Option, none, some, List, arith, ◌==◌,
  length, set, get_elem?, min, replicate, length-set, slot, slot-set_ne, slot-set_cases,
  first_empty, first_empty_lem, Bool-cases, Option-cases,
}
use light_os_orion_risc_v.Sched.{
  ProcState, ready, running, sleep_child, sleep_console, zombie, Process, System, mmap_base,
  is_sleep_console, Effect, TrapFrame, set_a0, with_slots, set_frame_a0, is_running, is_zombie,
  position,
}
use light_os_orion_risc_v.Sched.Inv.{Alive, SysValid, patch-TableValid}
use light_os_orion_risc_v.Sched.Running.{patch-OnlyRunning_keep}
use light_os_orion_risc_v.Sched.Reap.{length-set_frame_a0}
use light_os_orion_risc_v.Sched.Family.{enroll-TableValid}
use light_os_orion_risc_v.Sched.Orphans.{position_lem}
use light_os_orion_risc_v.Sched.Console.{wake_console_reader}
use light_os_orion_risc_v.Sched.Lifecycle.{
  fresh, entry_frame, set_name, spawn, fork_current, exec_current, enroll, Image, Forked,
}
use light_os_orion_risc_v.Uart.{RxRing, read_bytes}

enroll-SysValid :
    (s : System) (j : ℕ) (p : Process) (tf : TrapFrame)
    → SysValid s
    → first_empty s.procs.slots ≡ some j
    → p.pid ≡ s.procs.next_pid
    → p.state ≡ ready
    → ((q : ℕ) → p.parent ≡ some q → Alive s.procs.slots q)
    → SysValid (enroll s j p tf)
enroll-SysValid s j p tf v e pid st parent =
    let (hj, empty) = first_empty_lem s.procs.slots j e in
    record {
      table = enroll-TableValid s.procs j p v.table hj empty pid (ground arith) parent;
      one = record {
        runs = λ k cur.
            let (c, there, r) = v.one.runs k cur in
            (c, slot-set_ne s.procs.slots j k (some p) (λ same. absurd (ground arith)) ∙ there, r);
        only = λ k c ek r. elim (slot-set_cases s.procs.slots j k (some p) c hj ek) [
          | inl (same, is) ↦ absurd (ground arith)
          | inr (ne, there) ↦ v.one.only k c there r
        ];
      };
      frames = length-set s.frames j tf ∙ v.frames;
    }

sleep_console-state : (state : ProcState) → is_sleep_console state ≡ true → state ≡ sleep_console
sleep_console-state ready e = cc
sleep_console-state running e = cc
sleep_console-state sleep_child e = cc
sleep_console-state sleep_console e = refl
sleep_console-state zombie e = cc

-- A process that slept is made ready, with a result in its frame.
woken-SysValid :
    (s : System) (j a0 : ℕ) (p : Process)
    → SysValid s
    → slot s.procs.slots j ≡ some p
    → p.state ≡ sleep_console
    → SysValid (record (with_slots s (set s.procs.slots j (some (record p { state = ready })))) {
      frames = set_frame_a0 s.frames j a0;
    })
woken-SysValid s j a0 p v at st =
    let p' : Process = record p { state = ready } in
    record {
      table = patch-TableValid s.procs j p p' v.table at refl refl (λ z. refl);
      one = patch-OnlyRunning_keep s.procs.slots j s.current p p' at (ground arith) v.one;
      frames = length-set_frame_a0 s.frames j a0 ∙ v.frames;
    }

pub wake_console_reader-SysValid :
    (copied : ℕ → ℕ → List ℕ → Bool) (s : System) (rx : RxRing)
    → SysValid s
    → SysValid (wake_console_reader copied s rx).0
unfolding wake_console_reader
wake_console_reader-SysValid copied s rx v =
    elim (Option-cases (position (λ (p : Process). is_sleep_console p.state) s.procs.slots)) [
      | inl nobody ↦ rw (nobody, wake_console_reader) v
      | inr (j, found) ↦
          let (p, at, sleeps) =
            position_lem (λ (p : Process). is_sleep_console p.state) s.procs.slots j found in
          elim (Bool-cases (length (read_bytes rx (min p.read_len 128)).0 == 0)) [
            | inl nothing ↦ rw (found, at, nothing, wake_console_reader) v
            | inr something ↦
                rw (found, at, something, wake_console_reader)
                  (woken-SysValid s j _ p v at (sleep_console-state p.state sleeps))
          ]
    ]

pub spawn-SysValid :
    (kernel_sp : ℕ) (s : System) (name : List ℕ) (image : Image) (pid : ℕ) (s' : System)
    → SysValid s
    → spawn kernel_sp s name image ≡ some (pid, s')
    → SysValid s'
unfolding spawn
spawn-SysValid kernel_sp s name (root_pa, entry, brk) pid s' v e =
    elim (Option-cases (first_empty s.procs.slots)) [
      | inl full ↦ absurd (ground arith)
      | inr (j, free) ↦
          let p : Process =
            fresh s.procs.next_pid none root_pa mmap_base brk (set_name (replicate 16 0) name) in
          let is : s' ≡ enroll s j p (entry_frame kernel_sp entry) = ground arith in
          rw is (
            enroll-SysValid s j p (entry_frame kernel_sp entry) v free refl refl
              (λ q never. absurd (cc)))
    ]

pub exec_current-SysValid :
    (kernel_sp : ℕ) (s : System) (name : List ℕ) (image : Image) (s' : System)
    (effects : List Effect)
    → SysValid s
    → exec_current kernel_sp s name image ≡ some (s', effects)
    → SysValid s'
unfolding exec_current
exec_current-SysValid kernel_sp s name (root_pa, entry, brk) s' effects v e =
    elim (Option-cases s.current) [
      | inl idle ↦ absurd (ground arith)
      | inr (cur, is_cur) ↦
          let (p, here, runs) = v.one.runs cur is_cur in
          let p' : Process = record p {
            root_pa = root_pa;
            next_mmap = mmap_base;
            brk = brk;
            name = set_name p.name name;
          } in
          let is : s' ≡ record s {
            procs = record s.procs { slots = set s.procs.slots cur (some p') };
            frames = set s.frames cur (entry_frame kernel_sp entry);
          } =
            ground arith in
          rw is (record {
            table = patch-TableValid s.procs cur p p' v.table here refl refl (λ z. z);
            one = patch-OnlyRunning_keep s.procs.slots cur s.current p p' here refl v.one;
            frames = length-set s.frames cur (entry_frame kernel_sp entry) ∙ v.frames;
          })
    ]

runs-lives : (state : ProcState) → is_running state ≡ true → is_zombie state ≡ false
runs-lives ready e = refl
runs-lives running e = refl
runs-lives sleep_child e = refl
runs-lives sleep_console e = refl
runs-lives zombie e = cc

forked-SysValid :
    (kernel_sp : ℕ) (s : System) (cur j root : ℕ) (p : Process) (tf : TrapFrame)
    → SysValid s
    → slot s.procs.slots cur ≡ some p
    → is_running p.state ≡ true
    → first_empty s.procs.slots ≡ some j
    → SysValid (
        enroll s j
          (record (fresh s.procs.next_pid (some cur) root p.next_mmap p.brk p.name) {
            files = p.files;
          })
          (record (set_a0 tf 0) { kernel_sp = kernel_sp }))
forked-SysValid kernel_sp s cur j root p tf v here runs free =
    enroll-SysValid s j _ _ v free refl refl (λ q of.
      let same : cur ≡ q = ground arith in
      (p, ap (λ n. slot s.procs.slots n) (sym same) ∙ here, runs-lives p.state runs))

pub fork_current-SysValid :
    (kernel_sp : ℕ) (s : System) (root : Option ℕ) (cloned : Bool) (result : Forked) (s' : System)
    (effects : List Effect)
    → SysValid s
    → fork_current kernel_sp s root cloned ≡ some (result, s', effects)
    → SysValid s'
unfolding fork_current
fork_current-SysValid kernel_sp s root cloned result s' effects v e =
    elim (Option-cases (first_empty s.procs.slots)) [
      | inl full ↦ let is : s' ≡ s = ground arith in rw is v
      | inr (j, free) ↦ elim (Option-cases s.current) [
        | inl idle ↦ absurd (ground arith)
        | inr (cur, is_cur) ↦
            let (p, here, runs) = v.one.runs cur is_cur in
            elim (Option-cases root) [
              | inl no_memory ↦ let is : s' ≡ s = ground arith in rw is v
              | inr (r, got) ↦ elim (Option-cases (get_elem? s.frames cur)) [
                | inl no_frame ↦ absurd (ground arith)
                | inr (tf, frame) ↦ elim (Bool-cases cloned) [
                  | inr failed ↦ let is : s' ≡ s = ground arith in rw is v
                  | inl done ↦
                      let valid = forked-SysValid kernel_sp s cur j r p tf v here runs free in
                      let is : s'
                          ≡ enroll s j
                              (record (fresh s.procs.next_pid (some cur) r p.next_mmap p.brk
                                p.name) { files = p.files })
                              (record (set_a0 tf 0) { kernel_sp = kernel_sp }) =
                        ground arith in
                      rw is valid
                ]
              ]
            ]
      ]
    ]
