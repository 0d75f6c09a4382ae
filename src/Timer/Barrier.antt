-- ===== src/Timer/Barrier.antt =====
-- The barrier of src/timer.c: what holds in every state that its threads reach, in any order.
use simple_os_simulator.Prelude.{
  ℕ, ◌+◌, ◌%◌, ◌^◌, ◌<◌, ◌≤◌, ◌≡◌, ◌≢◌, refl, ap, subst, sym, ◌⊎◌, inl, inr, arith, true, false,
  none, List, [], ◌∷◌, times,
}
use native.Mathlib.Decide.{ℕ_discrete}
use simple_os_simulator.Timer.{
  Place, Phase, Timer, current_time, done_at, fsh_at, timer_step, resume,
}
use simple_os_simulator.Timer.System.{
  place_at, Step, Reach, attaching, starting, timing, reporting, resuming, detaching, stopping,
  freeing, start, later,
}
use simple_os_simulator.Timer.Invariant.{init-Inv, one, rest, pending, IsHeld, Counted, Inv}
use simple_os_simulator.Timer.Devices.{
  next_slot-Inv, resume-Inv, detach_event-Inv, attach_event-Inv,
}
use simple_os_simulator.Timer.Rounds.{start_timer-Inv, stop_timer-Inv, free_devices-Inv}
use simple_os_simulator.Timer.Loops.{timer_step-Inv}

pub Step-Inv : {s t : Timer} → Step s t → Inv s → Inv t
Step-Inv {s} attaching inv = attach_event-Inv s inv
Step-Inv {s} (starting fresh) inv = start_timer-Inv s fresh inv
Step-Inv {s} (timing t e) inv = timer_step-Inv s t e inv
Step-Inv {s} (reporting d lt at) inv = next_slot-Inv s d lt at inv
Step-Inv {s} (resuming d t lt at e) inv = resume-Inv s t d lt at e inv
Step-Inv {s} (detaching d lt at) inv = detach_event-Inv s d lt at inv
Step-Inv {s} (stopping started all) inv = stop_timer-Inv s started all inv
Step-Inv {s} (freeing e) inv = free_devices-Inv s e inv

pub Reach-Inv : {s : Timer} → Reach s → Inv s
Reach-Inv start = init-Inv
Reach-Inv (later r st) = Step-Inv st (Reach-Inv r)

Place-cases : (p : Place) → (p ≡ Place.working) ⊎ (p ≡ Place.waiting) ⊎ (p ≡ Place.left)
Place-cases Place.working = inl refl
Place-cases Place.waiting = inr (inl refl)
Place-cases Place.left = inr (inr refl)

-- A device that was not let go on yet is one that was found done.
pending-IsHeld : (phase : Phase) (d : ℕ) → 0 < times d (pending phase) → IsHeld phase d
pending-IsHeld Phase.unborn d h = omega (arith, h)
pending-IsHeld Phase.top d h = omega (arith, h)
pending-IsHeld (Phase.checking temp fsh event) d h = absurd (omega (arith, h))
pending-IsHeld (Phase.releasing temp fsh event) d h = h
pending-IsHeld Phase.ended d h = omega (arith, h)

pending-rest : (phase : Phase) (d : ℕ) → times d (pending phase) ≤ times d (rest phase)
pending-rest Phase.unborn d = omega arith
pending-rest Phase.top d = omega arith
pending-rest (Phase.checking temp fsh event) d = omega arith
pending-rest (Phase.releasing temp fsh event) d = omega arith
pending-rest Phase.ended d = omega arith

pending_once : (s : Timer) (d : ℕ) → Inv s → times d (pending s.phase) ≤ 1
pending_once s d inv =
    let listed : times d s.dev_list ≤ 1 = elim inv.listed [
      | inl (_, e) ↦ omega (arith, ap (times d) e)
      | inr once ↦ grind (arith, once d)
    ] in
    omega (arith, listed, inv.part d, pending-rest s.phase d)

-- A device that has not left completed as many slots as there were ticks, or one more.
slots_near :
    (s : Timer) (d : ℕ)
    → Inv s
    → d < s.attached
    → place_at s d ≢ Place.left
    → (s.ticks ≤ (s.devices d).slots) × ((s.devices d).slots ≤ s.ticks + 1)
slots_near s d inv lt live =
    let fit = inv.fit d lt in
    let once = pending_once s d inv in
    elim fit.slots [
      | inl gone ↦ absurd (live gone)
      | inr e ↦ elim (ℕ_discrete (times d (pending s.phase)) 0) [
        | yes free ↦ grind (arith, e, free)
        | no ne ↦ elim (fit.held (pending-IsHeld s.phase d (omega (arith, ne)))) [
          | inl done ↦ grind (arith, e, once, ne, ap one done)
          | inr gone ↦ absurd (live gone)
        ]
      ]
    ]

-- In a reached state of the timer and its devices, a device that is between two calls of next_slot
-- reads as current_time the number of its calls so far, modulo 2 ^ 64.
pub working_in_time :
    {s : Timer}
    → Reach s
    → (d : ℕ) → d < s.attached
    → place_at s d ≡ Place.working
    → current_time s ≡ (s.devices d).slots % 2 ^ 64
working_in_time {s} r d lt at =
    let inv = Reach-Inv r in
    let fit = inv.fit d lt in
    let busy = fit.working_done at in
    let free : times d (pending s.phase) ≡ 0 = elim (ℕ_discrete (times d (pending s.phase)) 0) [
      | yes e ↦ e
      | no ne ↦
          absurd (ground (arith, fit.held (pending-IsHeld s.phase d (omega (arith, ne))), busy, at))
    ] in
    elim fit.slots [
      | inl gone ↦ absurd (ground (arith, gone, at))
      | inr e ↦ omega (arith, e, free, ap one busy, inv.wraps)
    ]

-- In a reached state of the timer and its devices, of two attached devices that have not detached
-- neither has called next_slot more than once more often than the other.
pub slots_apart :
    {s : Timer}
    → Reach s
    → (d e : ℕ) → d < s.attached
    → e < s.attached
    → place_at s d ≢ Place.left
    → place_at s e ≢ Place.left
    → (s.devices d).slots ≤ (s.devices e).slots + 1
slots_apart {s} r d e hd he live_d live_e =
    omega (arith, slots_near s d (Reach-Inv r) hd live_d, slots_near s e (Reach-Inv r) he live_e)

-- In a reached state of the timer and its devices, where the timer is about to advance the time,
-- each attached device waits in next_slot with its done flag on, or has detached.
pub tick_waits :
    {s : Timer} (fsh event : ℕ)
    → Reach s
    → s.phase ≡ Phase.checking [] fsh event
    → (d : ℕ) → d < s.attached
    → ((place_at s d ≡ Place.waiting) × (done_at s d ≡ true)) ⊎ (place_at s d ≡ Place.left)
tick_waits {s} fsh event r e d lt =
    let fit = (Reach-Inv r).fit d lt in
    elim (fit.held (subst (λ ph. IsHeld ph d) (sym e) refl)) [
      | inr gone ↦ inr gone
      | inl done ↦ elim (Place-cases (place_at s d)) [
        | inl at ↦ absurd (ground (arith, done, fit.working_done at))
        | inr (inl at) ↦ inl (at, done)
        | inr (inr at) ↦ inr at
      ]
    ]

-- In a reached state of the timer and its devices, where the timer's thread has left its loop
-- every attached device has detached.
pub ended_all :
    {s : Timer}
    → Reach s
    → s.phase ≡ Phase.ended
    → (d : ℕ) → d < s.attached
    → place_at s d ≡ Place.left
ended_all {s} r e = subst (Counted s.devices s.attached s.ticks) e (Reach-Inv r).counted

-- In a reached state of the timer and its devices, where the timer waits for a device, that device
-- is attached and either still works in its slot or waits in next_slot with done reset, so that it
-- can return.
pub never_stuck :
    {s : Timer} (d : ℕ) (temp : List ℕ) (fsh event : ℕ)
    → Reach s
    → s.phase ≡ Phase.checking (d ∷ temp) fsh event
    → timer_step s ≡ none
    → (d < s.attached)
      × ((place_at s d ≡ Place.working) ⊎ ((place_at s d ≡ Place.waiting) × (resume s d ≢ none)))
unfolding timer_step resume
never_stuck {s} d temp fsh event r e blocked =
    let inv = Reach-Inv r in
    let listed = inv.part d in
    let old = ap (λ ph. times d (rest ph)) e in
    let lt : d < s.attached = elim inv.listed [
      | inl (over, _) ↦ absurd (ground (arith, over, e))
      | inr once ↦ grind (arith, once d, listed, old)
    ] in
    let fit = inv.fit d lt in
    let busy : done_at s d ≡ false = ground (arith, blocked, e) in
    let stays : fsh_at s d ≡ false = ground (arith, blocked, e) in
    (
      lt,
      elim (Place-cases (place_at s d)) [
        | inl at ↦ inl at
        | inr (inl at) ↦ inr (at, λ h. ground (arith, h, busy))
        | inr (inr gone) ↦ absurd (ground (arith, fit.left_fsh gone, stays))
      ],
    )
