-- ===== src/Sched/Running.antt =====
-- At most one process runs (kernel/sched): what a write to one process does to that, and the
-- operations that only write to one process.
use light_os_orion_risc_v.Prelude.{
  ℕ, ◌<◌, ◌≡◌, inl, inr, refl, ap, sym, ◌∙◌, true, false, Option, none, some, List, arith, set,
  slot, slot-set_self, slot-set_ne, slot-set_cases, slot-lt, ℕ_discrete,
}
use light_os_orion_risc_v.Sched.{
  ready, running, sleep_console, Process, ProcTable, System, max_procs, is_running,
}
use light_os_orion_risc_v.Sched.RoundRobin.{schedule, yield_current}
use light_os_orion_risc_v.Sched.Console.{block_on_console}
use light_os_orion_risc_v.Sched.Fair.{pick_next-Picked}
use light_os_orion_risc_v.Sched.Inv.{TableValid, OnlyRunning, SysValid, patch-TableValid}

-- The current process stops running.
pub patch-OnlyRunning_stop :
    (slots : List (Option Process)) (j : ℕ) (p p' : Process)
    → slot slots j ≡ some p
    → is_running p'.state ≡ false
    → OnlyRunning slots (some j)
    → OnlyRunning (set slots j (some p')) none
patch-OnlyRunning_stop slots j p p' e stopped o = record {
  runs = λ k never. absurd (cc);
  only = λ k c ek r. elim (slot-set_cases slots j k (some p') c (slot-lt slots j p e) ek) [
    | inl (same, is) ↦ absurd (ground arith)
    | inr (ne, there) ↦ let cur = o.only k c there r in absurd (ground arith)
  ];
}

-- A process that was not running still is not.
pub patch-OnlyRunning_keep :
    (slots : List (Option Process)) (j : ℕ) (current : Option ℕ) (p p' : Process)
    → slot slots j ≡ some p
    → is_running p.state ≡ is_running p'.state
    → OnlyRunning slots current
    → OnlyRunning (set slots j (some p')) current
patch-OnlyRunning_keep slots j current p p' e as_was o = record {
  runs = λ k cur.
      let (c, there, r) = o.runs k cur in
      elim (ℕ_discrete j k) [
        | yes same ↦ (
          p',
          ap (λ n. slot (set slots j (some p')) n) (sym same)
              ∙ slot-set_self slots j (some p') (slot-lt slots j p e),
          ground arith,
        )
        | no ne ↦ (c, slot-set_ne slots j k (some p') ne ∙ there, r)
      ];
  only = λ k c ek r. elim (slot-set_cases slots j k (some p') c (slot-lt slots j p e) ek) [
    | inl (same, is) ↦ o.only j p e (ground arith) ∙ ap some same
    | inr (ne, there) ↦ o.only k c there r
  ];
}

-- A process begins to run where none did.
pub patch-OnlyRunning_start :
    (slots : List (Option Process)) (j : ℕ) (p p' : Process)
    → slot slots j ≡ some p
    → is_running p'.state ≡ true
    → OnlyRunning slots none
    → OnlyRunning (set slots j (some p')) (some j)
patch-OnlyRunning_start slots j p p' e started o = record {
  runs = λ k cur. (
    p',
    ap (λ n. slot (set slots j (some p')) n) (ground arith)
        ∙ slot-set_self slots j (some p') (slot-lt slots j p e),
    started,
  );
  only = λ k c ek r. elim (slot-set_cases slots j k (some p') c (slot-lt slots j p e) ek) [
    | inl (same, is) ↦ ap some same
    | inr (ne, there) ↦ let cur = o.only k c there r in absurd (cc)
  ];
}

ran :
    (t : ProcTable) (j : ℕ) → j < max_procs → TableValid t → TableValid (record t { last_run = j })
ran t j h v = record {
  size = v.size;
  last_run_lt = h;
  family = v.family;
  fresh_pids = v.fresh_pids;
  distinct_pids = v.distinct_pids;
  init_lives = v.init_lives;
}

-- `schedule` is entered with no current process.
pub schedule-SysValid : (s : System) → s.current ≡ none → SysValid s → SysValid (schedule s)
unfolding schedule
schedule-SysValid s idle v = elim (pick_next-Picked s.procs v.table.last_run_lt) [
  | inl (nobody, _) ↦ rw (nobody, schedule) v
  | inr (j, root_pa, t', e, p) ↦
      let p' : Process = record p.process { state = running } in
      rw (e, p.after, schedule)
        (record {
          table =
              ran _ j p.in_range
                (patch-TableValid s.procs j p.process p' v.table p.here refl refl (λ z. refl));
          one =
              patch-OnlyRunning_start s.procs.slots j p.process p' p.here refl (rw (← idle) v.one);
          frames = v.frames;
        })
]

pub yield_current-SysValid :
    (s : System) (cur : ℕ)
    → s.current ≡ some cur
    → SysValid s
    → (s' : System) × (yield_current s ≡ some s') × (s'.current ≡ none) × SysValid s'
unfolding yield_current
yield_current-SysValid s cur e v =
    let (p, here, r) = v.one.runs cur e in
    let p' : Process = record p { state = ready } in
    (
      record s {
        procs = record s.procs { slots = set s.procs.slots cur (some p') };
        current = none;
      },
      ground arith,
      refl,
      record {
        table = patch-TableValid s.procs cur p p' v.table here refl refl (λ z. refl);
        one = patch-OnlyRunning_stop s.procs.slots cur p p' here refl (rw (← e) v.one);
        frames = v.frames;
      },
    )

pub block_on_console-SysValid :
    (s : System) (cur buf_uva len : ℕ)
    → s.current ≡ some cur
    → SysValid s
    → (s' : System) × (block_on_console s buf_uva len ≡ some s') × (s'.current ≡ none) × SysValid s'
unfolding block_on_console
block_on_console-SysValid s cur buf_uva len e v =
    let (p, here, r) = v.one.runs cur e in
    let p' : Process = record p { state = sleep_console; read_buf_uva = buf_uva; read_len = len } in
    (
      record s {
        procs = record s.procs { slots = set s.procs.slots cur (some p') };
        current = none;
      },
      ground arith,
      refl,
      record {
        table = patch-TableValid s.procs cur p p' v.table here refl refl (λ z. refl);
        one = patch-OnlyRunning_stop s.procs.slots cur p p' here refl (rw (← e) v.one);
        frames = v.frames;
      },
    )
