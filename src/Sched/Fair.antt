-- ===== src/Sched/Fair.antt =====
-- The round-robin policy (kernel/sched/round_robin.rs): which slot is picked, and that no ready
-- process waits for more than 63 others.
use light_os_orion_risc_v.Prelude.{
  ℕ, zero, suc, ◌+◌, ◌-◌, ◌%◌, ◌<◌, ◌≤◌, ◌≡◌, ◌≢◌, ◌⊎◌, inl, inr, refl, ap, sym, ◌∙◌, true, false,
  Option, none, some, List, arith, set, slot, Bool-cases, Option-cases, dec_lt,
}
use light_os_orion_risc_v.Sched.{
  ProcState, ready, running, sleep_child, sleep_console, zombie, Process, ProcTable, max_procs,
  is_ready,
}
use light_os_orion_risc_v.Sched.RoundRobin.{ready_at, first_ready, pick_next}

-- Slot `j` is ready, it is `d` rounds ahead of round `i`, and the rounds before it found nothing.
record Found (slots : List (Option Process)) (start i n j : ℕ) : Type 0 where
  pub ahead : ℕ
  pub ahead_lt : ahead < n
  pub place : j ≡ (start + (i + ahead)) % max_procs
  pub is_ready : ready_at slots j ≡ true
  pub skipped : (e : ℕ) → e < ahead → ready_at slots ((start + (i + e)) % max_procs) ≡ false

skipped_suc :
    (slots : List (Option Process)) (start i k : ℕ)
    → ready_at slots ((start + i) % max_procs) ≡ false
    → ((e : ℕ) → e < k → ready_at slots ((start + (i + 1 + e)) % max_procs) ≡ false)
    → (e : ℕ) → e < suc k
    → ready_at slots ((start + (i + e)) % max_procs) ≡ false
skipped_suc slots start i k first rest zero h =
    ap (λ n. ready_at slots ((start + n) % max_procs)) (omega arith) ∙ first
skipped_suc slots start i k first rest (suc e) h =
    ap (λ n. ready_at slots ((start + n) % max_procs)) (omega arith) ∙ rest e (omega arith)

first_ready-Found :
    (slots : List (Option Process)) (start i n j : ℕ)
    → first_ready slots start i n ≡ some j
    → Found slots start i n j
unfolding first_ready
first_ready-Found slots start i zero j e = cc
first_ready-Found slots start i (suc n) j e =
    elim (Bool-cases (ready_at slots ((start + i) % max_procs))) [
      | inl here ↦ record {
        ahead = 0;
        ahead_lt = omega arith;
        place = ground arith;
        is_ready = ground arith;
        skipped = λ e h. elim h [ ];
      }
      | inr not_here ↦
          let f : Found slots start (i + 1) n j =
            first_ready-Found slots start (i + 1) n j (ground arith) in
          record {
            ahead = suc f.ahead;
            ahead_lt = omega (arith, f.ahead_lt);
            place = omega (arith, f.place);
            is_ready = f.is_ready;
            skipped = skipped_suc slots start i f.ahead not_here f.skipped;
          }
    ]

first_ready-none :
    (slots : List (Option Process)) (start i n : ℕ)
    → first_ready slots start i n ≡ none
    → (e : ℕ) → e < n
    → ready_at slots ((start + (i + e)) % max_procs) ≡ false
unfolding first_ready
first_ready-none slots start i zero e = λ k h. elim h [ ]
first_ready-none slots start i (suc n) e =
    skipped_suc slots start i n (ground arith)
      (first_ready-none slots start (i + 1) n (ground arith))

-- How many other slots the policy looks at before slot `j`, when `last` was the last to run.
abbrev pub distance : ℕ → ℕ → ℕ
distance j last = (j + (max_procs - 1) - last) % max_procs

-- `pick_next` picks the ready slot that comes first after the last one that ran: it marks it
-- running, changes nothing else, and finds nothing only when no slot is ready.
pub record Picked (t : ProcTable) (j root_pa : ℕ) (t' : ProcTable) : Type 0 where
  pub process : Process
  pub in_range : j < max_procs
  pub here : slot t.slots j ≡ some process
  pub was_ready : process.state ≡ ready
  pub root : root_pa ≡ process.root_pa
  pub after :
      t'
      ≡ record t { slots = set t.slots j (some (record process { state = running })); last_run = j }
  pub first :
      (k : ℕ)
      → k < max_procs
      → ready_at t.slots k ≡ true
      → distance j t.last_run ≤ distance k t.last_run

is_ready-state : (state : ProcState) → is_ready state ≡ true → state ≡ ready
is_ready-state ready h = refl
is_ready-state running h = cc
is_ready-state sleep_child h = cc
is_ready-state sleep_console h = cc
is_ready-state zombie h = cc

ready_at-process :
    (slots : List (Option Process)) (j : ℕ)
    → ready_at slots j ≡ true
    → (p : Process) × (slot slots j ≡ some p) × (p.state ≡ ready)
ready_at-process slots j h = elim (Option-cases (slot slots j)) [
  | inl empty ↦ absurd (ground arith)
  | inr (p, e) ↦ (p, e, is_ready-state p.state (ground arith))
]

Found-first :
    (slots : List (Option Process)) (start j k : ℕ)
    → start < max_procs
    → k < max_procs
    → Found slots start 1 max_procs j
    → ready_at slots k ≡ true
    → distance j start ≤ distance k start
Found-first slots start j k hs hk f r = elim (dec_lt (distance k start) f.ahead) [
  | yes before ↦
      let at : (start + (1 + distance k start)) % max_procs ≡ k = omega arith in
      let no : ready_at slots ((start + (1 + distance k start)) % max_procs) ≡ false =
        f.skipped (distance k start) before in
      absurd (ground arith)
  | no behind ↦ omega (arith, f.place, f.ahead_lt)
]

-- If the last slot that ran is one of the 64, `pick_next` finds nothing and no slot is ready, or it
-- picks a ready slot as `Picked` says: the first one after the last that ran, marked running, with
-- nothing else changed.
pub pick_next-Picked :
    (t : ProcTable)
    → t.last_run < max_procs
    → ((pick_next t ≡ none) × ((k : ℕ) → k < max_procs → ready_at t.slots k ≡ false))
      ⊎ ((j root_pa : ℕ) × (t' : ProcTable) × (pick_next t ≡ some ((j, root_pa), t'))
          × Picked t j root_pa t')
unfolding pick_next
pick_next-Picked t h = elim (Option-cases (first_ready t.slots t.last_run 1 max_procs)) [
  | inl nobody ↦ inl (
    ground arith,
    λ k hk.
        let at : (t.last_run + (1 + distance k t.last_run)) % max_procs ≡ k = omega arith in
        ap (λ n. ready_at t.slots n) (sym at)
        ∙ first_ready-none t.slots t.last_run 1 max_procs nobody (distance k t.last_run)
            (omega arith),
  )
  | inr (j, found) ↦
      let f = first_ready-Found t.slots t.last_run 1 max_procs j found in
      let (p, here, r) = ready_at-process t.slots j f.is_ready in
      inr (
        j,
        p.root_pa,
        record t { slots = set t.slots j (some (record p { state = running })); last_run = j },
        ground arith,
        record {
          process = p;
          in_range = omega (arith, f.place);
          here = here;
          was_ready = r;
          root = refl;
          after = refl;
          first = λ k hk rk. Found-first t.slots t.last_run j k h hk f rk;
        },
      )
]

-- Slot `k` waits: `Passed k t n` is a run of `n` picks from table `t` that each went to another
-- slot, `k` being ready at each of them. Between two picks the rest of the kernel may do anything
-- to the processes; only `pick_next` writes `last_run`.
pub data Passed (k : ℕ) : ProcTable → ℕ → Type 0 where
  waits : {t : ProcTable} → Passed k t 0
  passed :
      {t : ProcTable} (j root_pa : ℕ) (t' later : ProcTable) {n : ℕ}
      → ready_at t.slots k ≡ true
      → pick_next t ≡ some ((j, root_pa), t')
      → j ≢ k
      → later.last_run ≡ t'.last_run
      → Passed k later n
      → Passed k t (suc n)

closer :
    (k j last : ℕ)
    → k < max_procs
    → j < max_procs
    → last < max_procs
    → j ≢ k
    → distance j last ≤ distance k last
    → distance k j < distance k last
closer k j last hk hj hl ne le = omega arith

-- A process that is ready at each of `n` picks and passed over at all of them waits for `n` at
-- most `distance` picks, hence at most 63, if its slot and the last one that ran are among the 64.
pub Passed-bound :
    (k n : ℕ) (t : ProcTable)
    → k < max_procs
    → t.last_run < max_procs
    → Passed k t n
    → n ≤ distance k t.last_run
Passed-bound k n t hk hl waits = omega arith
Passed-bound k n t hk hl (passed j root_pa t' later r e ne same w) = elim (pick_next-Picked t hl) [
  | inl (nobody, _) ↦ absurd (cc)
  | inr (j', root', t'', e', p) ↦
      let same_j : j ≡ j' = ground arith in
      let ran : later.last_run ≡ j = ground (arith, p.after) in
      let le : distance j t.last_run ≤ distance k t.last_run = rw same_j (p.first k hk r) in
      let hj : j < max_procs = rw same_j p.in_range in
      let rest : _ ≤ distance k later.last_run = Passed-bound k _ later hk (rw ran hj) w in
      let less : distance k j < distance k t.last_run = closer k j t.last_run hk hj hl ne le in
      omega (arith, ap (λ l. distance k l) ran)
]
