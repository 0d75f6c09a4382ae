-- ===== src/Os/Occupancy.antt =====
-- The invariant of the simulator across the steps of a CPU: the places of a process, the shared state.
use simple_os_simulator.Prelude.{
  ℕ, ◌+◌, ◌<◌, ◌≤◌, ◌≡◌, refl, ap, subst, sym, ◌∙◌, ◌⊎◌, inl, inr, arith, Bool, Option, none, some,
  get_elem?, Option-cases, total,
}
use simple_os_simulator.Sched.{Sched, max_prio, get_mlq_proc, put_mlq_proc, remove_proc, enqueue_at}
use simple_os_simulator.Sched.Invariant.{
  IsValid, get_mlq_proc-IsValid, enqueue_at-IsValid, remove_proc-IsValid,
}
use simple_os_simulator.Sched.Occupancy.{held, queued, queued-enqueue_at_le, queued-get_mlq_proc}
use simple_os_simulator.Krnl.{Krnl}
use simple_os_simulator.Krnl.Labels.{Label, label_at}
use simple_os_simulator.Cpu.{Junk, run}
use simple_os_simulator.Cpu.Isolation.{run-Ran}
use simple_os_simulator.Os.{
  Sys, Cpu, linked, get_proc, put_proc, drop_proc, ask, enter_proc, exec_proc,
}
use simple_os_simulator.Os.Leave.{Left, free, finished, over, going}
use simple_os_simulator.Os.System.{System}

abbrev pub one_if : Option Label → ℕ
one_if none = 0
one_if (some _) = 1

-- One for a process of the system.
abbrev pub present : Krnl → ℕ → ℕ
present k p = one_if (label_at k p)

-- How often a process stands in a ready queue or on a CPU.
abbrev pub places : ℕ → System → ℕ → ℕ
places n s p = queued s.sys.sched p + total (λ i. held p (s.threads i).cpu.proc) n

-- What holds of the shared state: the scheduler's invariant, one running list, pids that no two
-- processes share, all of them below the next one, and priorities within the array of queues.
pub record IsSound (avail_pid : ℕ) (sys : Sys) : Type 0 where
  pub sched : IsValid sys.sched
  pub one_list :
      (sys.krnl.running_list ≡ none) ⊎ (sys.krnl.running_list ≡ some sys.sched.running_list)
  pub pids : (q : ℕ) (i : Label) → label_at sys.krnl q ≡ some i → i.pid < avail_pid
  pub prios : (q : ℕ) (i : Label) → label_at sys.krnl q ≡ some i → i.prio < max_prio
  pub unique :
      (q r : ℕ) (i j : Label)
      → label_at sys.krnl q ≡ some i
      → label_at sys.krnl r ≡ some j
      → j.pid ≡ i.pid
      → r ≡ q

-- A new kernel with the same processes and list.
pub IsSound-krnl :
    (a : ℕ) (sys : Sys) (k : Krnl)
    → ((q : ℕ) → label_at k q ≡ label_at sys.krnl q)
    → k.running_list ≡ sys.krnl.running_list
    → IsSound a sys
    → IsSound a (record sys { krnl = k })
IsSound-krnl a sys k same list sound = record {
  sched = sound.sched;
  one_list = rw list sound.one_list;
  pids = λ q i h. sound.pids q i (sym (same q) ∙ h);
  prios = λ q i h. sound.prios q i (sym (same q) ∙ h);
  unique = λ q r i j hq hr e. sound.unique q r i j (sym (same q) ∙ hq) (sym (same r) ∙ hr) e;
}

-- A new scheduler, with its running list linked.
IsSound-linked :
    (a : ℕ) (sys : Sys) (s : Sched)
    → IsValid s
    → IsSound a sys
    → IsSound a (record sys { sched = s; krnl = linked s sys.krnl })
IsSound-linked a sys s v sound = record {
  sched = v;
  one_list = elim (Option-cases sys.krnl.running_list) [
    | inl h ↦ inl (ground (arith, h))
    | inr (rl, h) ↦ inr (ground (arith, h))
  ];
  pids = sound.pids;
  prios = sound.prios;
  unique = sound.unique;
}

-- From one state and CPU to the next nothing is unsound, no process is in more places, and the
-- processes are the same.
pub record Kept (a : ℕ) (cpu : Cpu) (sys : Sys) (r : Cpu × Sys) : Type 0 where
  pub sound : IsSound a r.1
  pub fewer : (p : ℕ) → queued r.1.sched p + held p r.0.proc ≤ queued sys.sched p + held p cpu.proc
  pub idents : (q : ℕ) → label_at r.1.krnl q ≡ label_at sys.krnl q

pub Kept-refl : (a : ℕ) (cpu : Cpu) (sys : Sys) → IsSound a sys → Kept a cpu sys (cpu, sys)
Kept-refl a cpu sys sound = record { sound = sound; fewer = λ p. omega arith; idents = λ q. refl }

pub queued-remove_proc : (s : Sched) (p q : ℕ) → queued (remove_proc s p) q ≡ queued s q
unfolding remove_proc queued
queued-remove_proc s p q = refl

Kept-drop_proc :
    (a : ℕ) (cpu : Cpu) (sys : Sys) (p : ℕ)
    → IsSound a sys
    → Kept a cpu sys (record { time_left = 0; proc = none }, drop_proc sys p)
unfolding drop_proc
Kept-drop_proc a cpu sys p sound = record {
  sound =
      IsSound-linked a sys (remove_proc sys.sched p) (remove_proc-IsValid sys.sched p sound.sched)
        sound;
  fewer = λ q. omega (arith, queued-remove_proc sys.sched p q);
  idents = λ q. refl;
}

pub put_proc-some :
    (sys t : Sys) (p prio : ℕ)
    → put_proc sys p prio ≡ some t
    → (prio < max_prio)
      × (record sys {
        sched = enqueue_at sys.sched p prio;
        krnl = record sys.krnl { running_list = some sys.sched.running_list };
      }
          ≡ t)
unfolding put_proc put_mlq_proc
put_proc-some sys t p prio e = ground (arith, e)

Kept-put_proc :
    (a : ℕ) (cpu : Cpu) (sys t : Sys) (p prio : ℕ)
    → IsSound a sys
    → cpu.proc ≡ some p
    → put_proc sys p prio ≡ some t
    → Kept a cpu sys (record cpu { proc = none }, t)
Kept-put_proc a cpu sys t p prio sound on e =
    let (small, same) = put_proc-some sys t p prio e in
    subst (λ t. Kept a cpu sys (record cpu { proc = none }, t)) same
      (record {
        sound = record {
          sched = enqueue_at-IsValid sys.sched p prio sound.sched;
          one_list = inr refl;
          pids = sound.pids;
          prios = sound.prios;
          unique = sound.unique;
        };
        fewer = λ q.
            omega
              (arith, queued-enqueue_at_le sys.sched q p prio sound.sched small, ap (held q) on);
        idents = λ q. refl;
      })

-- `leave`: the CPU keeps its process, or gives it up, to a queue or for good.
pub leave-Kept :
    (a : ℕ) (cpu cpu' : Cpu) (sys sys' : Sys) (asks : Bool)
    → IsSound a sys
    → Left cpu sys asks cpu' sys'
    → Kept a cpu sys (cpu', sys')
leave-Kept a cpu cpu' sys sys' asks sound (free h) = Kept-refl a cpu sys sound
leave-Kept a cpu cpu' sys sys' asks sound (finished p pcb on here ended) =
    Kept-drop_proc a cpu sys p sound
leave-Kept a cpu cpu' sys sys' asks sound (over p pcb t on here put) =
    Kept-put_proc a cpu sys sys' p pcb.prio sound on put
leave-Kept a cpu cpu' sys sys' asks sound (going p on) = Kept-refl a cpu sys sound

-- `get_proc` moves a process from the queues to the CPU that asks and has none.
pub ask-Kept : (a : ℕ) (cpu : Cpu) (sys : Sys) → IsSound a sys → Kept a cpu sys (ask cpu sys)
unfolding ask get_proc
ask-Kept a cpu sys sound = record {
  sound =
      IsSound-linked a sys (get_mlq_proc sys.sched).1 (get_mlq_proc-IsValid sys.sched sound.sched)
        sound;
  fewer = λ p. omega (arith, queued-get_mlq_proc sys.sched p sound.sched);
  idents = λ q. refl;
}

-- The store to `krnl->mm` moves no process.
pub enter-Kept :
    (a : ℕ) (cpu : Cpu) (sys sys' : Sys) (p time_left : ℕ)
    → IsSound a sys
    → cpu.proc ≡ some p
    → enter_proc p sys ≡ some sys'
    → Kept a cpu sys (record { time_left = time_left; proc = some p }, sys')
unfolding enter_proc
enter-Kept a cpu sys sys' p time_left sound on e =
    let Same : Sys → Type 0 =
      λ t. Kept a cpu sys (record { time_left = time_left; proc = some p }, t) in
    let same : (k : Krnl)
        → ((q : ℕ) → label_at k q ≡ label_at sys.krnl q)
        → k.running_list ≡ sys.krnl.running_list
        → Same (record sys { krnl = k }) =
      λ k ids list. record {
        sound = IsSound-krnl a sys k ids list sound;
        fewer = λ q. omega (arith, ap (held q) on);
        idents = ids;
      } in
    elim (Option-cases (get_elem? sys.krnl.procs p)) [
      | inl h ↦ absurd (ground (arith, e, h))
      | inr (pcb, here) ↦ elim (Option-cases pcb.own_mm) [
        | inl h ↦ subst Same (ground (arith, e, here, h)) (same sys.krnl (λ q. refl) refl)
        | inr (mm, h) ↦
            subst Same (ground (arith, e, here, h))
              (same (record sys.krnl { mm = some p }) (λ q. refl) refl)
      ]
    ]

-- One instruction of a process moves no process.
pub exec-Kept :
    (a : ℕ) (cpu cpu' : Cpu) (sys sys' : Sys) (junk : Junk) (p time_left : ℕ)
    → IsSound a sys
    → cpu.proc ≡ some p
    → exec_proc junk p time_left sys ≡ some (cpu', sys')
    → Kept a cpu sys (cpu', sys')
unfolding exec_proc
exec-Kept a cpu cpu' sys sys' junk p time_left sound on e =
    elim (Option-cases (run junk p sys.krnl)) [
      | inl h ↦ absurd (ground (arith, e, h))
      | inr ((st, k), h) ↦
          (let ran =
              run-Ran p junk sys.krnl st k (λ i j q hp hq same. sound.unique p q i j hp hq same)
                h in
            let leaves = ran.leaves in
            let after : Sys = record sys { krnl = k } in
            let here : cpu'.proc ≡ some p = ground (arith, e, h) in
            subst (λ t. Kept a cpu sys (cpu', t)) (ground (arith, e, h))
              (record {
                sound = IsSound-krnl a sys k leaves.labels leaves.same_list sound;
                fewer = λ q. omega (arith, ap (held q) on, ap (held q) here);
                idents = leaves.labels;
              }))
    ]
