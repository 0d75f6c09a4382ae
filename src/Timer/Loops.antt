-- ===== src/Timer/Loops.antt =====
-- The invariant across the two inner loops of the thread of src/timer.c, and the tick between them.
use simple_os_simulator.Prelude.{
  ℕ, ◌+◌, ◌%◌, ◌^◌, ◌<◌, ◌≡◌, refl, ap, subst, sym, ◌⊎◌, inl, inr, arith, true, false, ◌||◌, some,
  List, [], ◌∷◌, ◌==◌, if◌then◌else◌, Bool-cases, update, times,
}
use native.Mathlib.Decide.{ℕ_discrete}
use simple_os_simulator.Timer.{Device, Place, Phase, Timer, done_at, fsh_at, timer_step}
use simple_os_simulator.Timer.System.{place_at}
use simple_os_simulator.Timer.Invariant.{
  one, rest, pending, IsHeld, IsFit, Counted, Inv, update-IsFit, update_place,
}
use simple_os_simulator.Timer.Rounds.{IsUnder, listed_once, move-Inv, top_step, moved-IsFit}

-- A phase that is given is one where the timer runs.
checking-IsUnder :
    (ph : Phase) (temp : List ℕ) (fsh event : ℕ) → ph ≡ Phase.checking temp fsh event → IsUnder ph
checking-IsUnder ph temp fsh event e = (λ h. cc, λ h. cc)

releasing-IsUnder :
    (ph : Phase) (temp : List ℕ) (fsh event : ℕ) → ph ≡ Phase.releasing temp fsh event → IsUnder ph
releasing-IsUnder ph temp fsh event e = (λ h. cc, λ h. cc)

-- The counter of the devices that have left is raised for those alone.
pass-Counted :
    (s : Timer) (d : ℕ) (temp : List ℕ) (fsh event : ℕ)
    → ((j : ℕ) → fsh_at s j ≡ true → j < s.attached → place_at s j ≡ Place.left)
    → Counted s.devices s.attached s.ticks (Phase.checking (d ∷ temp) fsh event)
    → Counted s.devices s.attached s.ticks
        (Phase.checking temp (if fsh_at s d then fsh + 1 else fsh) (event + 1))
pass-Counted s d temp fsh event leaves (le, all) = (
  ground (arith, le),
  λ e j lt out. elim (Bool-cases (fsh_at s d)) [
    | inr here ↦ absurd (ground (arith, e, here, le))
    | inl gone ↦ elim (ℕ_discrete d j) [
      | yes here ↦ leaves j (subst (λ k. fsh_at s k ≡ true) here gone) lt
      | no other ↦ all (ground (arith, e, gone)) j lt (ground (arith, out, other))
    ]
  ],
)

pass_step :
    (s : Timer) (d : ℕ) (temp : List ℕ) (fsh event : ℕ)
    → s.phase ≡ Phase.checking (d ∷ temp) fsh event
    → (done_at s d ≡ true) ⊎ (fsh_at s d ≡ true)
    → Inv s
    → Inv
        (record s { phase = Phase.checking temp (if fsh_at s d then fsh + 1 else fsh) (event + 1) })
pass_step s d temp fsh event e ready inv =
    move-Inv s (Phase.checking temp (if fsh_at s d then fsh + 1 else fsh) (event + 1)) inv
      (checking-IsUnder s.phase _ _ _ e)
      (λ j. omega (arith, inv.part j, ap (λ ph. times j (rest ph)) e))
      (λ j lt out. elim (ℕ_discrete d j) [
        | yes here ↦ elim ready [
          | inl done ↦ inl (subst (λ k. done_at s k ≡ true) here done)
          | inr fin ↦ inr ((inv.fit j lt).fsh_left (subst (λ k. fsh_at s k ≡ true) here fin))
        ]
        | no other ↦
            (inv.fit j lt).held (subst (λ ph. IsHeld ph j) (sym e) (ground (arith, out, other)))
      ])
      (λ j. ap (λ ph. times j (pending ph)) (sym e))
      (pass-Counted s d temp fsh event (λ j fin lt. (inv.fit j lt).fsh_left fin)
        (subst (Counted s.devices s.attached s.ticks) e inv.counted))

tick-IsFit :
    (s : Timer) (fsh event j : ℕ)
    → s.phase ≡ Phase.checking [] fsh event
    → times j s.dev_list ≡ 1
    → IsFit s.ticks s.phase j (s.devices j)
    → IsFit (s.ticks + 1) (Phase.releasing s.dev_list fsh event) j (s.devices j)
tick-IsFit s fsh event j e once fit = record {
  fsh_left = fit.fsh_left;
  left_fsh = fit.left_fsh;
  working_done = fit.working_done;
  held = λ h. fit.held (subst (λ ph. IsHeld ph j) (sym e) refl);
  slots = elim fit.slots [
    | inl gone ↦ inl gone
    | inr eq ↦ inr (omega (arith, eq, once, ap (λ ph. times j (pending ph)) e))
  ];
}

-- All the devices are done: the time goes on.
tick_step :
    (s : Timer) (fsh event : ℕ)
    → s.phase ≡ Phase.checking [] fsh event
    → Inv s
    → Inv (record s {
      time = (s.time + 1) % 2 ^ 64;
      ticks = s.ticks + 1;
      phase = Phase.releasing s.dev_list fsh event;
    })
tick_step s fsh event e inv =
    let under = checking-IsUnder s.phase _ _ _ e in
    let (le, all) = subst (Counted s.devices s.attached s.ticks) e inv.counted in
    record {
      listed = inr (listed_once s inv under);
      part = λ j. omega arith;
      fit = λ j lt.
          tick-IsFit s fsh event j e (grind (arith, listed_once s inv under j, lt)) (inv.fit j lt);
      counted = (le, λ same j lt. all same j lt refl);
      stopped = inv.stopped;
      created = λ h. absurd (under.0 (inv.created h));
      wraps = omega (arith, inv.wraps);
    }

released-IsFit :
    (ticks : ℕ) (phase : Phase) (d : ℕ) (temp : List ℕ) (fsh event : ℕ) (v : Device)
    → phase ≡ Phase.releasing (d ∷ temp) fsh event
    → times d temp ≡ 0
    → IsFit ticks phase d v
    → IsFit ticks
        (Phase.releasing temp fsh event)
        d
        (record v { id = record v.id { done = false } })
released-IsFit ticks phase d temp fsh event v e last fit = record {
  fsh_left = fit.fsh_left;
  left_fsh = fit.left_fsh;
  working_done = λ h. refl;
  held = λ h. absurd (omega (arith, h, last));
  slots = elim (fit.held (subst (λ ph. IsHeld ph d) (sym e) (grind arith))) [
    | inr gone ↦ inl gone
    | inl done ↦ elim fit.slots [
      | inl gone ↦ inl gone
      | inr eq ↦ inr (grind (arith, eq, ap one done, ap (λ ph. times d (pending ph)) e))
    ]
  ];
}

-- A device that is done is let into the new slot.
release_step :
    (s : Timer) (d : ℕ) (temp : List ℕ) (fsh event : ℕ)
    → s.phase ≡ Phase.releasing (d ∷ temp) fsh event
    → Inv s
    → Inv (record s {
      devices =
          update s.devices d
            (record (s.devices d) { id = record (s.devices d).id { done = false } });
      phase = Phase.releasing temp fsh event;
    })
release_step s d temp fsh event e inv =
    let under = releasing-IsUnder s.phase _ _ _ e in
    let (le, all) = subst (Counted s.devices s.attached s.ticks) e inv.counted in
    let old : (j : ℕ) → times j (rest s.phase) ≡ times j (d ∷ temp) =
      λ j. ap (λ ph. times j (rest ph)) e in
    let pend : (j : ℕ) → times j (pending s.phase) ≡ times j (d ∷ temp) =
      λ j. ap (λ ph. times j (pending ph)) e in
    let within : d < s.attached = grind (arith, old d, inv.part d, listed_once s inv under d) in
    let last : times d temp ≡ 0 = grind (arith, old d, inv.part d, listed_once s inv under d) in
    let v : Device = record (s.devices d) { id = record (s.devices d).id { done = false } } in
    record {
      listed = inr (listed_once s inv under);
      part = λ j. omega (arith, old j, inv.part j);
      fit = λ j lt.
          update-IsFit s.ticks (Phase.releasing temp fsh event) s.devices d v j
            (λ ne.
              moved-IsFit s.ticks s.phase (Phase.releasing temp fsh event) j (s.devices j)
                (grind (arith, pend j, ne))
                (λ h. (inv.fit j lt).held (subst (λ ph. IsHeld ph j) (sym e) (grind (arith, h))))
                (inv.fit j lt))
            (released-IsFit s.ticks s.phase d temp fsh event (s.devices d) e last
              (inv.fit d within));
      counted = (le, λ same j lt. update_place s.devices d v j (λ gone. gone) (all same j lt));
      stopped = λ h. (
        (inv.stopped h).0,
        λ j lt. update_place s.devices d v j (λ gone. gone) ((inv.stopped h).1 j lt),
      );
      created = λ h. absurd (under.0 (inv.created h));
      wraps = inv.wraps;
    }

finish_step :
    (s : Timer) (fsh event : ℕ)
    → s.phase ≡ Phase.releasing [] fsh event
    → Inv s
    → Inv (record s { phase = if fsh == event then Phase.ended else Phase.top })
finish_step s fsh event e inv =
    let under = releasing-IsUnder s.phase _ _ _ e in
    let same : (j : ℕ) → 0 ≡ times j (pending s.phase) =
      λ j. ap (λ ph. times j (pending ph)) (sym e) in
    let (le, all) = subst (Counted s.devices s.attached s.ticks) e inv.counted in
    elim (ℕ_discrete fsh event) [
      | yes eq ↦
          subst (λ ph. Inv (record s { phase = ph })) (ground (arith, eq))
            (move-Inv s Phase.ended inv under (λ j. omega arith) (λ j lt h. absurd h) same (all eq))
      | no ne ↦
          subst (λ ph. Inv (record s { phase = ph })) (ground (arith, ne))
            (move-Inv s Phase.top inv under (λ j. omega arith) (λ j lt h. absurd h) same tt)
    ]

pub timer_step-Inv : (s t : Timer) → timer_step s ≡ some t → Inv s → Inv t
unfolding timer_step
timer_step-Inv s t e inv = go s.phase refl
  where
    go : (ph : Phase) → s.phase ≡ ph → Inv t
    go Phase.unborn h = absurd (ground (arith, e, h))
    go Phase.top h = subst Inv (ground (arith, e, h)) (top_step s h inv)
    go (Phase.checking [] fsh event) h =
        subst Inv (ground (arith, e, h)) (tick_step s fsh event h inv)
    go (Phase.checking (d ∷ temp) fsh event) h = elim (Bool-cases (done_at s d || fsh_at s d)) [
      | inl ready ↦
          subst Inv (ground (arith, e, h, ready))
            (pass_step s d temp fsh event h (ground (arith, ready)) inv)
      | inr busy ↦ absurd (ground (arith, e, h, busy))
    ]
    go (Phase.releasing [] fsh event) h =
        subst Inv (ground (arith, e, h)) (finish_step s fsh event h inv)
    go (Phase.releasing (d ∷ temp) fsh event) h =
        subst Inv (ground (arith, e, h)) (release_step s d temp fsh event h inv)
    go Phase.ended h = absurd (ground (arith, e, h))
