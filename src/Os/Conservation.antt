-- ===== src/Os/Conservation.antt =====
-- The interleavings of src/os.c: the places that a process which has not finished stands in, with as many
-- processes as a ready queue has slots.
use simple_os_simulator.Prelude.{
  ℕ, ◌+◌, ◌<◌, ◌≤◌, ◌≡◌, refl, ap, subst, sym, ◌∙◌, ◌⊎◌, inl, inr, arith, Bool, Option, none, some,
  [], ◌∷◌, Option-cases, length, length-append, get_elem?, get_elem?-append_left, get_elem?-within,
  get_elem?_past, lt-length_of_get_elem?, update, update_self, update_ne, total_change,
  total_positive, le_total,
}
use mathlib.Core.Option
use native.Mathlib.Decide.{ℕ_discrete, dec_lt}
use simple_os_simulator.Memphy.{Memphy}
use simple_os_simulator.Queue.{max_queue_size}
use simple_os_simulator.Sched.Occupancy.{held, queued, queued-enqueue_at}
use simple_os_simulator.Mm.{Mm}
use simple_os_simulator.Krnl.{Krnl, Pcb}
use simple_os_simulator.Krnl.Labels.{label, label_at}
use simple_os_simulator.Os.{Sys, Cpu, alloc_mm, ready_proc}
use simple_os_simulator.Os.Leave.{leave-Left, asks_free}
use simple_os_simulator.Os.System.{
  Phase, Setup, Thread, System, Step, leaving, fetching, checking, allocating, initialising, owning,
  entering, running, loading, closing, Reach, boot, start, later, asked,
}
use simple_os_simulator.Os.Occupancy.{
  present, places, Kept, Kept-refl, leave-Kept, ask-Kept, enter-Kept, exec-Kept,
}
use simple_os_simulator.Os.Setup.{Quiet, alloc_mm-Quiet, init_krnl_mm-Quiet}
use simple_os_simulator.Os.Room.{contents_le}
use simple_os_simulator.Os.Admission.{joined, add_proc-some}
use simple_os_simulator.Os.Exclusion.{Inv, Reach-Inv, exec_proc-Ran}
use simple_os_simulator.Os.Stays.{
  IsFinished, Stays, Stays-refl, leave-Stays, ask-Stays, enter-Stays, exec_proc_on, exec-Stays,
}

-- Every process of the system is in a ready queue, on a CPU, or has finished; and a CPU that is about
-- to ask for a process has none.
record Safe (n : ℕ) (s : System) : Type 0 where
  pub kept : (q : ℕ) → q < length s.sys.krnl.procs → (0 < places n s q) ⊎ IsFinished s.sys.krnl q
  pub idle : (i : ℕ) → i < n → (s.threads i).phase ≡ Phase.asking → (s.threads i).cpu.proc ≡ none

Safe-boot : (n : ℕ) (mram active_mswp : Memphy) → Safe n (boot mram active_mswp)
Safe-boot n mram active_mswp = record {
  kept = λ q lt. absurd (omega (arith, lt));
  idle = λ i lt e. refl;
}

-- A step of one thread that loses no process.
Stays-Safe :
    (n : ℕ) (s : System) (i : ℕ) (t : Thread) (sys : Sys)
    → i < n
    → Safe n s
    → length sys.krnl.procs ≤ length s.sys.krnl.procs
    → (t.phase ≡ Phase.asking → t.cpu.proc ≡ none)
    → Stays (s.threads i).cpu s.sys (t.cpu, sys)
    → Safe n (record s { sys = sys; threads = update s.threads i t })
Stays-Safe n s i t sys lt safe same asks stays = record {
  kept = λ q inside.
      let change =
        total_change (λ j. held q (s.threads j).cpu.proc)
          (λ j. held q (update s.threads i t j).cpu.proc) n i lt
          (λ j ne. ap (λ u. held q u.cpu.proc) (update_ne s.threads i t j ne)) in
      let here : held q (update s.threads i t i).cpu.proc ≡ held q t.cpu.proc =
        ap (λ u. held q u.cpu.proc) (update_self s.threads i t) in
      let now = le_total (λ j. held q (update s.threads i t j).cpu.proc) n i lt in
      elim (safe.kept q (omega (arith, inside, same))) [
        | inl placed ↦ elim (stays.more q) [
          | inl le ↦ inl (omega (arith, placed, le, change, here))
          | inr ended ↦ inr ended
        ]
        | inr ended ↦ elim (stays.ended q ended) [
          | inl on ↦ inl (omega (arith, on, now, here))
          | inr still ↦ inr still
        ]
      ];
  idle = λ j small e. elim (ℕ_discrete j i) [
    | yes at ↦
        let there : update s.threads i t j ≡ t =
          subst (λ r. update s.threads i t r ≡ t) (sym at) (update_self s.threads i t) in
        ap (λ u. u.cpu.proc) there ∙ asks (sym (ap (λ u. u.phase) there) ∙ e)
    | no ne ↦
        let other = update_ne s.threads i t j ne in
        ap (λ u. u.cpu.proc) other ∙ safe.idle j small (sym (ap (λ u. u.phase) other) ∙ e)
  ];
}

-- The same processes: as many of them.
length_idents :
    (k k' : Krnl) → ((q : ℕ) → label_at k' q ≡ label_at k q) → length k'.procs ≤ length k.procs
length_idents k k' same = elim (dec_lt (length k.procs) (length k'.procs)) [
  | no le ↦ omega (arith, le)
  | yes more ↦
      let past : label_at k (length k.procs) ≡ none =
        ap (Option.map label) (get_elem?_past k.procs (length k.procs) (omega arith)) in
      elim (Option-cases (get_elem? k'.procs (length k.procs))) [
        | inl gone ↦ absurd (get_elem?-within k'.procs (length k.procs) more gone)
        | inr (pcb, here) ↦
            let there : label_at k' (length k.procs) ≡ some (label pcb) =
              ap (Option.map label) here in
            absurd (grind (arith, same (length k.procs), past, there))
      ]
]

-- From `s` to `t` the system does not shrink, and `t` is safe where `s` was and the queues have room.
abbrev Saves : ℕ → System → System → Type 0
Saves n s t =
    (length s.sys.krnl.procs ≤ length t.sys.krnl.procs)
    × (length t.sys.krnl.procs ≤ max_queue_size → Safe n s → Safe n t)

Kept-Saves :
    (n : ℕ) (s : System) (i : ℕ) (t : Thread) (sys : Sys)
    → i < n
    → Inv n s
    → Kept s.avail_pid (s.threads i).cpu s.sys (t.cpu, sys)
    → (t.phase ≡ Phase.asking → t.cpu.proc ≡ none)
    → (((q : ℕ) → queued s.sys.sched q + held q (s.threads i).cpu.proc ≤ present s.sys.krnl q)
        → length s.sys.krnl.procs ≤ max_queue_size
        → Safe n s
        → Stays (s.threads i).cpu s.sys (t.cpu, sys))
    → Saves n s (record s { sys = sys; threads = update s.threads i t })
Kept-Saves n s i t sys lt inv kept asks stays =
    let fewer = length_idents s.sys.krnl sys.krnl kept.idents in
    let more = length_idents sys.krnl s.sys.krnl (λ q. sym (kept.idents q)) in
    (
      more,
      λ few safe. Stays-Safe n s i t sys lt safe fewer asks (
          stays
            (λ q. omega (arith, inv.once q, le_total (λ j. held q (s.threads j).cpu.proc) n i lt))
            (omega (arith, more, few)) safe),
    )

-- A step of the loader before the process joins loses none either.
Quiet-Saves :
    (n : ℕ) (s : System) (sys : Sys) (l : Setup)
    → Quiet s.sys sys
    → Saves n s (record s { sys = sys; loader = l })
Quiet-Saves n s sys l quiet =
    let fewer = length_idents s.sys.krnl sys.krnl quiet.labels in
    (
      length_idents sys.krnl s.sys.krnl (λ q. sym (quiet.labels q)),
      λ few safe. record {
        kept = λ q inside. elim (safe.kept q (omega (arith, inside, fewer))) [
          | inl placed ↦ inl (omega (arith, placed, ap (λ w. queued w q) quiet.sched))
          | inr ended ↦ inr (quiet.finished q ended)
        ];
        idle = safe.idle;
      },
    )

ready_proc-Saves :
    (n : ℕ) (s : System) (own_mm : Mm) (pcb : Pcb) (prio : ℕ) (sys : Sys)
    → Inv n s
    → ready_proc own_mm s.sys pcb prio ≡ some sys
    → Saves n s (record s { sys = sys; loader = Setup.waiting; avail_pid = s.avail_pid + 1 })
unfolding ready_proc
ready_proc-Saves n s own_mm pcb prio sys inv e =
    let pcb' : Pcb = record pcb { prio = prio; own_mm = some own_mm } in
    let p = length s.sys.krnl.procs in
    let loaded : Sys = record s.sys { krnl = joined s.sys.krnl pcb' } in
    let (small, same) = add_proc-some loaded sys p prio e in
    let longer = length-append s.sys.krnl.procs (pcb' ∷ []) in
    subst
      (λ t. Saves n s (record s { sys = t; loader = Setup.waiting; avail_pid = s.avail_pid + 1 }))
      same
      (
        omega (arith, longer),
        λ few safe. record {
          kept = λ q inside.
              let room =
                contents_le s.sys.sched s.sys.krnl (λ r. omega (arith, inv.once r)) prio small in
              let now =
                queued-enqueue_at s.sys.sched q p prio inv.sound.sched small
                  (omega (arith, room, few, longer)) in
              elim (dec_lt q p) [
                | no last ↦ inl (grind (arith, now, last, inside, longer))
                | yes old ↦ elim (safe.kept q old) [
                  | inl placed ↦ inl (omega (arith, placed, now))
                  | inr (b, here, ended) ↦
                      inr
                        (b, get_elem?-append_left s.sys.krnl.procs (pcb' ∷ []) q old ∙ here, ended)
                ]
              ];
          idle = safe.idle;
        },
      )

asked_free : (cpu : Cpu) (done : Bool) → (asked cpu done).phase ≡ Phase.asking → cpu.proc ≡ none
asked_free cpu done e = elim (Option-cases cpu.proc) [
  | inl h ↦ h
  | inr (p, h) ↦ absurd (ground (arith, h, e))
]

Step-Saves : {n time_slot : ℕ} {s t : System} → Step n time_slot s t → Inv n s → Saves n s t
Step-Saves {n} {s = s} (leaving i asks cpu sys lt at e) inv =
    let left = leave-Left _ _ _ _ _ e in
    Kept-Saves n s i _ sys lt inv
      (leave-Kept s.avail_pid (s.threads i).cpu cpu s.sys sys asks inv.sound left)
      (λ ph. asks_free _ _ _ _ _ left (ground (arith, ph)))
      (λ once few safe.
        leave-Stays s.avail_pid (s.threads i).cpu cpu s.sys sys asks inv.sound once few left)
Step-Saves {n} {s = s} (fetching i lt at) inv =
    Kept-Saves n s i _ _ lt inv (ask-Kept s.avail_pid (s.threads i).cpu s.sys inv.sound) (λ ph. cc)
      (λ once few safe. ask-Stays s.avail_pid (s.threads i).cpu s.sys inv.sound (safe.idle i lt at))
Step-Saves {n} {s = s} (entering i p sys lt at on e) inv =
    Kept-Saves n s i _ sys lt inv
      (enter-Kept s.avail_pid (s.threads i).cpu s.sys sys p _ inv.sound on e) (λ ph. cc)
      (λ once few safe. enter-Stays (s.threads i).cpu _ s.sys sys p on refl e)
Step-Saves {n} {s = s} (running i p junk cpu sys lt at on e) inv =
    let on' = exec_proc_on junk p (s.threads i).cpu.time_left s.sys sys cpu e in
    Kept-Saves n s i _ sys lt inv
      (exec-Kept s.avail_pid (s.threads i).cpu cpu s.sys sys junk p _ inv.sound on e) (λ ph. cc)
      (λ once few safe.
        let (ran, same) =
          exec_proc-Ran s.avail_pid junk p (s.threads i).cpu.time_left cpu s.sys sys inv.sound e in
        exec-Stays (s.threads i).cpu cpu s.sys sys p on on' (ran.leaves, same))
Step-Saves {n} {s = s} (checking i lt at) inv =
    Kept-Saves n s i _ s.sys lt inv (Kept-refl s.avail_pid (s.threads i).cpu s.sys inv.sound)
      (asked_free (s.threads i).cpu s.sys.done)
      (λ once few safe. Stays-refl (s.threads i).cpu s.sys)
Step-Saves {n} {s = s} (allocating at) inv =
    Quiet-Saves n s (alloc_mm s.sys) Setup.allocated (alloc_mm-Quiet s.sys)
Step-Saves {n} {s = s} (initialising symrgtbl sys at e) inv =
    Quiet-Saves n s sys Setup.initialised (init_krnl_mm-Quiet symrgtbl s.sys sys e)
Step-Saves (owning own_mm at e) inv =
    (omega arith, λ few safe. record { kept = safe.kept; idle = safe.idle })
Step-Saves {n} {s = s} (loading own_mm pcb prio sys at fresh small e) inv =
    ready_proc-Saves n s own_mm pcb prio sys inv e
Step-Saves closing inv = (omega arith, λ few safe. record { kept = safe.kept; idle = safe.idle })

Reach-Safe :
    {n time_slot : ℕ} {mram active_mswp : Memphy} {s : System}
    → Reach n time_slot mram active_mswp s
    → length s.sys.krnl.procs ≤ max_queue_size
    → Safe n s
Reach-Safe {n} {mram = mram} {active_mswp = active_mswp} start few = Safe-boot n mram active_mswp
Reach-Safe (later r st) few =
    let (more, saves) = Step-Saves st (Reach-Inv r) in
    saves few (Reach-Safe r (omega (arith, more, few)))

-- In a state that any interleaving of n CPUs and the loader reaches, as long as no two processes
-- get one memory, with at most 50 processes loaded, each process stands in a ready queue, or a CPU
-- below n has it, or it has no instruction left.
pub process_kept :
    {n time_slot : ℕ} {mram active_mswp : Memphy} {s : System}
    (r : Reach n time_slot mram active_mswp s)
    → length s.sys.krnl.procs ≤ max_queue_size
    → (p : ℕ) (pcb : Pcb) → get_elem? s.sys.krnl.procs p ≡ some pcb
    → (0 < queued s.sys.sched p)
      ⊎ ((i : ℕ) × (i < n) × ((s.threads i).cpu.proc ≡ some p))
      ⊎ (pcb.pc ≡ length pcb.code)
process_kept {n} {s = s} r few p pcb here =
    elim ((Reach-Safe r few).kept p (lt-length_of_get_elem? s.sys.krnl.procs p here)) [
      | inr (b, there, ended) ↦
          let same : b ≡ pcb = ground (arith, here, there) in
          inr (inr (subst (λ (c : Pcb). c.pc ≡ length c.code) same ended))
      | inl placed ↦ elim (ℕ_discrete (queued s.sys.sched p) 0) [
        | no some_queue ↦ inl (omega (arith, some_queue))
        | yes out ↦
            let (i, lt, on) =
              total_positive (λ i. held p (s.threads i).cpu.proc) n (omega (arith, placed, out)) in
            inr (inl (i, lt, holds p (s.threads i).cpu.proc on))
      ]
    ]
  where
    holds : (q : ℕ) (o : Option ℕ) → 0 < held q o → o ≡ some q
    holds q none h = absurd (omega (arith, h))
    holds q (some r) h = ground (arith, h)
