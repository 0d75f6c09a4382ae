-- ===== src/Os/Admission.antt =====
-- The invariant of the simulator, where the loader adds a process, and where `main` starts.
use simple_os_simulator.Prelude.{
  ℕ, ◌+◌, ◌<◌, ◌≤◌, ◌≡◌, ◌≢◌, refl, ap, subst, sym, ◌∙◌, inl, inr, ◌⊎◌, arith, none, some, [], ◌∷◌,
  ◌++◌, length, length-replicate, get_or-replicate, get_elem?_past, get_elem?-append_left,
  get_elem?-append_end, length-append,
}
use mathlib.Core.Option
use native.Mathlib.Decide.{ℕ_discrete, dec_lt}
use simple_os_simulator.Sched.{max_prio, no_procs, add_mlq_proc, enqueue_at}
use simple_os_simulator.Sched.Start.{init_scheduler-IsValid}
use simple_os_simulator.Memphy.{Memphy}
use simple_os_simulator.Os.System.{zeroed, boot}
use simple_os_simulator.Queue.{max_queue_size}
use simple_os_simulator.Sched.Invariant.{IsValid, enqueue_at-IsValid}
use simple_os_simulator.Sched.Occupancy.{queued, queued-enqueue_at_le}
use simple_os_simulator.Mm.{Mm}
use simple_os_simulator.Krnl.{Krnl, Pcb}
use simple_os_simulator.Krnl.Labels.{Label, label, label_at}
use simple_os_simulator.Os.{Sys, add_proc, ready_proc}
use simple_os_simulator.Os.Occupancy.{one_if, present, IsSound}

-- The kernel with one process more.
abbrev pub joined : Krnl → Pcb → Krnl
joined k pcb = record k { procs = k.procs ++ (pcb ∷ []) }

label_at-joined_end :
    (k : Krnl) (pcb : Pcb) → label_at (joined k pcb) (length k.procs) ≡ some (label pcb)
label_at-joined_end k pcb = ap (Option.map label) (get_elem?-append_end k.procs pcb)

label_at-joined_ne :
    (k : Krnl) (pcb : Pcb) (q : ℕ) → q ≢ length k.procs → label_at (joined k pcb) q ≡ label_at k q
label_at-joined_ne k pcb q ne = ap (Option.map label) (elim (dec_lt q (length k.procs)) [
  | yes small ↦ get_elem?-append_left k.procs (pcb ∷ []) q small
  | no large ↦
      get_elem?_past (k.procs ++ (pcb ∷ [])) q (omega (arith, length-append k.procs (pcb ∷ [])))
      ∙ sym (get_elem?_past k.procs q (omega arith))
])

label_at_past : (k : Krnl) → label_at k (length k.procs) ≡ none
label_at_past k = ap (Option.map label) (get_elem?_past k.procs (length k.procs) (omega arith))

-- A process of the new kernel is the new one, or one of before.
joined-cases :
    (k : Krnl) (pcb : Pcb) (q : ℕ) (i : Label)
    → label_at (joined k pcb) q ≡ some i
    → ((q ≡ length k.procs) × (i.pid ≡ pcb.pid) × (i.prio ≡ pcb.prio)) ⊎ (label_at k q ≡ some i)
joined-cases k pcb q i h = elim (ℕ_discrete q (length k.procs)) [
  | yes e ↦
      let same : some (label pcb) ≡ some i =
        sym (label_at-joined_end k pcb) ∙ subst (λ r. label_at (joined k pcb) r ≡ some i) e h in
      inl (e, ground (arith, same), ground (arith, same))
  | no ne ↦ inr (sym (label_at-joined_ne k pcb q ne) ∙ h)
]

joined-pids :
    (a : ℕ) (sys : Sys) (pcb : Pcb) (q : ℕ) (i : Label)
    → IsSound a sys
    → pcb.pid ≡ a
    → label_at (joined sys.krnl pcb) q ≡ some i
    → i.pid < a + 1
joined-pids a sys pcb q i sound fresh h = elim (joined-cases sys.krnl pcb q i h) [
  | inl (_, e, _) ↦ omega (arith, e, fresh)
  | inr old ↦ omega (arith, sound.pids q i old)
]

joined-prios :
    (a : ℕ) (sys : Sys) (pcb : Pcb) (q : ℕ) (i : Label)
    → IsSound a sys
    → pcb.prio < max_prio
    → label_at (joined sys.krnl pcb) q ≡ some i
    → i.prio < max_prio
joined-prios a sys pcb q i sound small h = elim (joined-cases sys.krnl pcb q i h) [
  | inl (_, _, e) ↦ omega (arith, e, small)
  | inr old ↦ sound.prios q i old
]

joined_unique :
    (a : ℕ) (sys : Sys) (pcb : Pcb) (q r : ℕ) (i j : Label)
    → IsSound a sys
    → pcb.pid ≡ a
    → label_at (joined sys.krnl pcb) q ≡ some i
    → label_at (joined sys.krnl pcb) r ≡ some j
    → j.pid ≡ i.pid
    → r ≡ q
joined_unique a sys pcb q r i j sound fresh hq hr e = elim (joined-cases sys.krnl pcb q i hq) [
  | inl (at_q, pid_q, _) ↦ elim (joined-cases sys.krnl pcb r j hr) [
    | inl (at_r, _, _) ↦ at_r ∙ sym at_q
    | inr old_r ↦ absurd (omega (arith, sound.pids r j old_r, pid_q, fresh, e))
  ]
  | inr old_q ↦ elim (joined-cases sys.krnl pcb r j hr) [
    | inl (_, pid_r, _) ↦ absurd (omega (arith, sound.pids q i old_q, pid_r, fresh, e))
    | inr old_r ↦ sound.unique q r i j old_q old_r e
  ]
]

-- From one state to the next the processes of before are the same, and only a new process is in a
-- queue once more.
pub record Joined (a : ℕ) (sys t : Sys) : Type 0 where
  pub sound : IsSound (a + 1) t
  pub fewer :
      (q : ℕ) → queued t.sched q + present sys.krnl q ≤ queued sys.sched q + present t.krnl q

joined-fewer :
    (sys : Sys) (pcb : Pcb) (prio q : ℕ)
    → IsValid sys.sched
    → prio < max_prio
    → queued (enqueue_at sys.sched (length sys.krnl.procs) prio) q + present sys.krnl q
      ≤ queued sys.sched q + present (joined sys.krnl pcb) q
joined-fewer sys pcb prio q v small = elim (ℕ_discrete q (length sys.krnl.procs)) [
  | yes e ↦
      let p = length sys.krnl.procs in
      let more = queued-enqueue_at_le sys.sched p p prio v small in
      let before : present sys.krnl p ≡ 0 = ap one_if (label_at_past sys.krnl) in
      let after : present (joined sys.krnl pcb) p ≡ 1 =
        ap one_if (label_at-joined_end sys.krnl pcb) in
      subst
        (λ r.
          queued (enqueue_at sys.sched p prio) r + present sys.krnl r
          ≤ queued sys.sched r + present (joined sys.krnl pcb) r)
        (sym e) (grind (arith, more, before, after))
  | no ne ↦
      let more = queued-enqueue_at_le sys.sched q (length sys.krnl.procs) prio v small in
      let same : present (joined sys.krnl pcb) q ≡ present sys.krnl q =
        ap one_if (label_at-joined_ne sys.krnl pcb q ne) in
      grind (arith, more, same)
]

pub add_proc-some :
    (sys t : Sys) (p prio : ℕ)
    → add_proc sys p prio ≡ some t
    → (prio < max_prio)
      × (record sys {
        sched = enqueue_at sys.sched p prio;
        krnl = record sys.krnl { running_list = some sys.sched.running_list };
      }
          ≡ t)
unfolding add_proc add_mlq_proc
add_proc-some sys t p prio e = ground (arith, e)

-- The loader's last step: a process with a fresh pid joins.
pub ready_proc-Joined :
    (a : ℕ) (own_mm : Mm) (sys t : Sys) (pcb : Pcb) (prio : ℕ)
    → IsSound a sys
    → pcb.pid ≡ a
    → ready_proc own_mm sys pcb prio ≡ some t
    → Joined a sys t
unfolding ready_proc
ready_proc-Joined a own_mm sys t pcb prio sound fresh e =
    let pcb' : Pcb = record pcb { prio = prio; own_mm = some own_mm } in
    let loaded : Sys = record sys { krnl = joined sys.krnl pcb' } in
    let (small, same) = add_proc-some loaded t (length sys.krnl.procs) prio e in
    subst (Joined a sys) same (record {
      sound = record {
        sched = enqueue_at-IsValid sys.sched (length sys.krnl.procs) prio sound.sched;
        one_list = inr refl;
        pids = λ q i h. joined-pids a sys pcb' q i sound fresh h;
        prios = λ q i h. joined-prios a sys pcb' q i sound small h;
        unique = λ q r i j hq hr e. joined_unique a sys pcb' q r i j sound fresh hq hr e;
      };
      fewer = λ q. joined-fewer sys pcb' prio q sound.sched small;
    })

-- The start: nothing is loaded.
pub boot-IsSound : (mram active_mswp : Memphy) → IsSound 1 (boot mram active_mswp).sys
boot-IsSound mram active_mswp = record {
  sched =
      init_scheduler-IsValid zeroed (length-replicate max_prio no_procs)
        (λ j.
          ap (λ q. length q.proc) (get_or-replicate max_prio j no_procs)
          ∙ length-replicate {A = ℕ} max_queue_size 0)
        (length-replicate {A = ℕ} max_queue_size 0);
  one_list = inl refl;
  pids = λ q i h. cc;
  prios = λ q i h. cc;
  unique = λ q r i j hq hr e. cc;
}
