-- ===== src/Timer/Rounds.antt =====
-- The invariant across the head of the loop of the thread of src/timer.c, and its start and stop.
use simple_os_simulator.Prelude.{
  ℕ, ◌<◌, ◌≤◌, ◌≡◌, ◌≢◌, refl, ap, subst, sym, ◌⊎◌, inl, inr, arith, true, false, if◌then◌else◌,
  Bool-cases, times, ltb,
}
use simple_os_simulator.Timer.{
  Device, Place, Phase, Timer, done_at, start_timer, stop_timer, free_devices,
}
use simple_os_simulator.Timer.System.{place_at}
use simple_os_simulator.Timer.Invariant.{one, rest, pending, IsHeld, IsFit, AllLeft, Counted, Inv}

-- A device fits in another phase, where what holds of a held device holds of it.
pub moved-IsFit :
    (ticks : ℕ) (phase phase' : Phase) (d : ℕ) (v : Device)
    → times d (pending phase') ≡ times d (pending phase)
    → (IsHeld phase' d → (v.id.done ≡ true) ⊎ (v.place ≡ Place.left))
    → IsFit ticks phase d v
    → IsFit ticks phase' d v
moved-IsFit ticks phase phase' d v same held fit = record {
  fsh_left = fit.fsh_left;
  left_fsh = fit.left_fsh;
  working_done = fit.working_done;
  held = held;
  slots = elim fit.slots [ inl gone ↦ inl gone | inr e ↦ inr (omega (arith, e, same)) ];
}

pub start_timer-Inv : (s : Timer) → s.timer_started ≡ false → Inv s → Inv (start_timer s)
unfolding start_timer
start_timer-Inv s fresh inv =
    let e : s.phase ≡ Phase.unborn = inv.created fresh in
    record {
      listed = elim inv.listed [
        | inl (over, _) ↦ absurd (ground (arith, over, e))
        | inr once ↦ inr once
      ];
      part = λ d. omega arith;
      fit = λ d lt.
          moved-IsFit s.ticks s.phase Phase.top d (s.devices d)
            (ap (λ ph. times d (pending ph)) (sym e)) (λ h. absurd h) (inv.fit d lt);
      counted = tt;
      stopped = λ h. (refl, (inv.stopped h).1);
      created = λ h. cc;
      wraps = inv.wraps;
    }

pub stop_timer-Inv :
    (s : Timer) → s.timer_started ≡ true → AllLeft s.devices s.attached → Inv s → Inv (stop_timer s)
unfolding stop_timer
stop_timer-Inv s started all inv = record {
  listed = inv.listed;
  part = inv.part;
  fit = inv.fit;
  counted = inv.counted;
  stopped = λ h. (started, all);
  created = inv.created;
  wraps = inv.wraps;
}

pub free_devices-Inv : (s : Timer) → s.phase ≡ Phase.ended → Inv s → Inv (free_devices s)
unfolding free_devices
free_devices-Inv s e inv = record {
  listed = inl (e, refl);
  part = λ d. omega (arith, ap (λ ph. times d (rest ph)) e);
  fit = inv.fit;
  counted = inv.counted;
  stopped = inv.stopped;
  created = inv.created;
  wraps = inv.wraps;
}

abbrev pub IsUnder : Phase → Type 0
IsUnder ph = (ph ≢ Phase.unborn) × (ph ≢ Phase.ended)

-- While the timer runs, each device is listed once.
pub listed_once :
    (s : Timer) → Inv s → IsUnder s.phase → (d : ℕ) → times d s.dev_list ≡ one (ltb d s.attached)
listed_once s inv (_, going) d = elim inv.listed [
  | inl (over, _) ↦ absurd (going over)
  | inr once ↦ once d
]

-- The thread goes on without a change of the devices.
pub move-Inv :
    (s : Timer) (phase : Phase)
    → Inv s
    → IsUnder s.phase
    → ((d : ℕ) → times d (rest phase) ≤ times d s.dev_list)
    → ((d : ℕ)
        → d < s.attached
        → IsHeld phase d
        → (done_at s d ≡ true) ⊎ (place_at s d ≡ Place.left))
    → ((d : ℕ) → times d (pending phase) ≡ times d (pending s.phase))
    → Counted s.devices s.attached s.ticks phase
    → Inv (record s { phase = phase })
move-Inv s phase inv (born, going) part held same counted = record {
  listed = elim inv.listed [ inl (over, _) ↦ absurd (going over) | inr once ↦ inr once ];
  part = part;
  fit =
      λ d lt. moved-IsFit s.ticks s.phase phase d (s.devices d) (same d) (held d lt) (inv.fit d lt);
  counted = counted;
  stopped = inv.stopped;
  created = λ h. absurd (born (inv.created h));
  wraps = inv.wraps;
}

pub top_step :
    (s : Timer)
    → s.phase ≡ Phase.top
    → Inv s
    → Inv (record s { phase = if s.timer_stop then Phase.ended else Phase.checking s.dev_list 0 0 })
top_step s e inv =
    let under : IsUnder s.phase = (λ h. cc, λ h. cc) in
    let same : (d : ℕ) → 0 ≡ times d (pending s.phase) =
      λ d. ap (λ ph. times d (pending ph)) (sym e) in
    elim (Bool-cases s.timer_stop) [
      | inl stop ↦
          subst (λ ph. Inv (record s { phase = ph })) (ground (arith, stop))
            (move-Inv s Phase.ended inv under (λ d. omega arith) (λ d lt h. absurd h) same
              (inv.stopped stop).1)
      | inr goes ↦
          subst (λ ph. Inv (record s { phase = ph })) (ground (arith, goes))
            (move-Inv s (Phase.checking s.dev_list 0 0) inv under (λ d. omega arith)
              (λ d lt h. absurd (grind (arith, h, listed_once s inv under d))) same
              (omega arith, λ h d lt out. absurd (grind (arith, out, listed_once s inv under d))))
    ]
