-- ===== src/Timer/Devices.antt =====
-- The invariant across the functions of src/timer.c that the devices call.
use simple_os_simulator.Prelude.{
  ℕ, ◌+◌, ◌<◌, ◌≡◌, refl, ap, subst, sym, inl, inr, arith, false, some, ◌∷◌, Bool-cases, update,
  times,
}
use simple_os_simulator.Timer.{
  Device, Place, Phase, Timer, done_at, attach_event, next_slot, resume, detach_event,
}
use simple_os_simulator.Timer.System.{place_at}
use simple_os_simulator.Timer.Invariant.{
  one, pending, IsHeld, IsFit, Counted, Inv, update-IsFit, device-Inv,
}

pub next_slot-Inv :
    (s : Timer) (d : ℕ)
    → d < s.attached
    → place_at s d ≡ Place.working
    → Inv s
    → Inv (next_slot s d)
unfolding next_slot
next_slot-Inv s d lt at inv =
    let old = inv.fit d lt in
    device-Inv s d _ inv (λ gone. absurd (ground (arith, at, gone)))
      (record {
        fsh_left = λ e. absurd (ground (arith, at, old.fsh_left e));
        left_fsh = λ e. cc;
        working_done = λ e. cc;
        held = λ h. inl refl;
        slots = elim old.slots [
          | inl gone ↦ absurd (ground (arith, at, gone))
          | inr e ↦ inr (omega (arith, e, ap one (old.working_done at)))
        ];
      })

pub resume-Inv :
    (s t : Timer) (d : ℕ)
    → d < s.attached
    → place_at s d ≡ Place.waiting
    → resume s d ≡ some t
    → Inv s
    → Inv t
unfolding resume
resume-Inv s t d lt at e inv =
    let old = inv.fit d lt in
    let ready : done_at s d ≡ false = ground (arith, e) in
    let stays : (s.devices d).place ≡ Place.left → Place.working ≡ Place.left =
      λ gone. absurd (ground (arith, at, gone)) in
    subst Inv (ground (arith, e)) (
      device-Inv s d (record (s.devices d) { place = Place.working }) inv stays
        (record {
          fsh_left = λ h. stays (old.fsh_left h);
          left_fsh = λ h. cc;
          working_done = λ h. ready;
          held = λ h. absurd (ground (arith, old.held h, ready, at));
          slots = elim old.slots [ inl gone ↦ inl (stays gone) | inr h ↦ inr h ];
        }))

pub detach_event-Inv :
    (s : Timer) (d : ℕ)
    → d < s.attached
    → place_at s d ≡ Place.working
    → Inv s
    → Inv (detach_event s d)
unfolding detach_event
detach_event-Inv s d lt at inv =
    device-Inv s d _ inv (λ gone. refl)
      (record {
        fsh_left = λ e. refl;
        left_fsh = λ e. refl;
        working_done = λ e. cc;
        held = λ h. inr refl;
        slots = inl refl;
      })

-- A container that was just attached.
abbrev new_device : Device
new_device = record { id = record { done = false; fsh = false }; place = Place.working; slots = 0 }

new_device-IsFit :
    (ticks : ℕ) (phase : Phase) (d : ℕ)
    → phase ≡ Phase.unborn
    → ticks ≡ 0
    → IsFit ticks phase d new_device
new_device-IsFit ticks phase d e zero_ticks = record {
  fsh_left = λ h. cc;
  left_fsh = λ h. cc;
  working_done = λ h. refl;
  held = λ h. absurd (subst (λ ph. IsHeld ph d) e h);
  slots = inr (omega (arith, zero_ticks, ap (λ ph. times d (pending ph)) e));
}

abbrev attached_to : Timer → Timer
attached_to s = record s {
  devices = update s.devices s.attached new_device;
  attached = s.attached + 1;
  dev_list = s.attached ∷ s.dev_list;
}

attached_to-Inv : (s : Timer) → s.timer_started ≡ false → Inv s → Inv (attached_to s)
attached_to-Inv s fresh inv =
    let e : s.phase ≡ Phase.unborn = inv.created fresh in
    let none_ticked : s.ticks ≡ 0 = subst (Counted s.devices s.attached s.ticks) e inv.counted in
    record {
      listed = elim inv.listed [
        | inl (over, _) ↦ absurd (ground (arith, over, e))
        | inr once ↦ inr (λ d. grind (arith, once d))
      ];
      part = λ d. omega (arith, inv.part d);
      fit = λ d lt.
          update-IsFit s.ticks s.phase s.devices s.attached new_device d
            (λ ne. inv.fit d (omega (arith, ne)))
            (new_device-IsFit s.ticks s.phase s.attached e none_ticked);
      counted =
          subst (Counted (attached_to s).devices (s.attached + 1) s.ticks) (sym e) none_ticked;
      stopped = λ stop. absurd (ground (arith, fresh, (inv.stopped stop).0));
      created = inv.created;
      wraps = inv.wraps;
    }

pub attach_event-Inv : (s : Timer) → Inv s → Inv (attach_event s).1
unfolding attach_event
attach_event-Inv s inv = elim (Bool-cases s.timer_started) [
  | inl started ↦ subst Inv (ground (arith, started)) inv
  | inr fresh ↦ subst Inv (ground (arith, fresh)) (attached_to-Inv s fresh inv)
]
