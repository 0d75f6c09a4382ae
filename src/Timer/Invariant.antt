-- ===== src/Timer/Invariant.antt =====
-- The invariant of the timer and its devices.
use simple_os_simulator.Prelude.{
  ℕ, ◌+◌, ◌%◌, ◌^◌, ◌<◌, ◌≤◌, ◌≡◌, ◌≢◌, refl, ap, subst, sym, ◌∙◌, ◌⊎◌, inr, arith, Bool, true,
  false, List, [], update, update_self, update_ne, times, ltb,
}
use native.Mathlib.Decide.{ℕ_discrete}
use simple_os_simulator.Timer.{Device, Place, Phase, Timer}
use simple_os_simulator.Timer.System.{init, place_at}

abbrev pub one : Bool → ℕ
one true = 1
one false = 0

-- The devices that the inner loop has not come to yet.
abbrev pub rest : Phase → List ℕ
rest Phase.unborn = []
rest Phase.top = []
rest (Phase.checking temp fsh event) = temp
rest (Phase.releasing temp fsh event) = temp
rest Phase.ended = []

-- The devices that have yet to be let into the new slot.
abbrev pub pending : Phase → List ℕ
pending Phase.unborn = []
pending Phase.top = []
pending (Phase.checking temp fsh event) = []
pending (Phase.releasing temp fsh event) = temp
pending Phase.ended = []

-- The device was found to be done in this round, and not yet let go on.
abbrev pub IsHeld : Phase → ℕ → Type 0
IsHeld Phase.unborn d = ⊥
IsHeld Phase.top d = ⊥
IsHeld (Phase.checking temp fsh event) d = times d temp ≡ 0
IsHeld (Phase.releasing temp fsh event) d = 0 < times d temp
IsHeld Phase.ended d = ⊥

-- One device: its flags fit its thread, and the slots that it completed fit the time.
pub record IsFit (ticks : ℕ) (phase : Phase) (d : ℕ) (v : Device) : Type 0 where
  pub fsh_left : v.id.fsh ≡ true → v.place ≡ Place.left
  pub left_fsh : v.place ≡ Place.left → v.id.fsh ≡ true
  pub working_done : v.place ≡ Place.working → v.id.done ≡ false
  pub held : IsHeld phase d → (v.id.done ≡ true) ⊎ (v.place ≡ Place.left)
  pub slots : (v.place ≡ Place.left) ⊎ (v.slots + times d (pending phase) ≡ ticks + one v.id.done)

-- What the counters of the timer's loop say: where they agree, all the devices seen have left.
abbrev pub AllLeft : (ℕ → Device) → ℕ → Type 0
AllLeft devices attached = (d : ℕ) → d < attached → (devices d).place ≡ Place.left

abbrev pub Counted : (ℕ → Device) → (attached ticks : ℕ) → Phase → Type 0
Counted devices attached ticks Phase.unborn = ticks ≡ 0
Counted devices attached ticks Phase.top = Unit
Counted devices attached ticks (Phase.checking temp fsh event) =
    (fsh ≤ event)
    × (fsh ≡ event → (d : ℕ) → d < attached → times d temp ≡ 0 → (devices d).place ≡ Place.left)
Counted devices attached ticks (Phase.releasing temp fsh event) =
    (fsh ≤ event) × (fsh ≡ event → AllLeft devices attached)
Counted devices attached ticks Phase.ended = AllLeft devices attached

pub record Inv (s : Timer) : Type 0 where
  pub listed :
      ((s.phase ≡ Phase.ended) × (s.dev_list ≡ []))
      ⊎ ((d : ℕ) → times d s.dev_list ≡ one (ltb d s.attached))
  pub part : (d : ℕ) → times d (rest s.phase) ≤ times d s.dev_list
  pub fit : (d : ℕ) → d < s.attached → IsFit s.ticks s.phase d (s.devices d)
  pub counted : Counted s.devices s.attached s.ticks s.phase
  pub stopped : s.timer_stop ≡ true → (s.timer_started ≡ true) × AllLeft s.devices s.attached
  pub created : s.timer_started ≡ false → s.phase ≡ Phase.unborn
  pub wraps : s.time ≡ s.ticks % 2 ^ 64

pub init-Inv : Inv init
init-Inv = record {
  listed = inr (λ d. grind arith);
  part = λ d. omega arith;
  fit = λ d lt. absurd (omega arith);
  counted = refl;
  stopped = λ e. cc;
  created = λ e. refl;
  wraps = omega arith;
}

Counted-devices :
    (f g : ℕ → Device) (attached ticks : ℕ) (phase : Phase)
    → ((d : ℕ) → (f d).place ≡ Place.left → (g d).place ≡ Place.left)
    → Counted f attached ticks phase
    → Counted g attached ticks phase
Counted-devices f g attached ticks Phase.unborn stay c = c
Counted-devices f g attached ticks Phase.top stay c = tt
Counted-devices f g attached ticks (Phase.checking temp fsh event) stay (le, all) =
    (le, λ e d lt out. stay d (all e d lt out))
Counted-devices f g attached ticks (Phase.releasing temp fsh event) stay (le, all) =
    (le, λ e d lt. stay d (all e d lt))
Counted-devices f g attached ticks Phase.ended stay all = λ d lt. stay d (all d lt)

pub update_place :
    (f : ℕ → Device) (d : ℕ) (v : Device) (j : ℕ)
    → ((f d).place ≡ Place.left → v.place ≡ Place.left)
    → (f j).place ≡ Place.left
    → (update f d v j).place ≡ Place.left
update_place f d v j stay h = elim (ℕ_discrete j d) [
  | yes e ↦
      subst (λ k. (update f d v k).place ≡ Place.left) (sym e)
        (ap (λ w. w.place) (update_self f d v) ∙ stay (subst (λ k. (f k).place ≡ Place.left) e h))
  | no ne ↦ ap (λ w. w.place) (update_ne f d v j ne) ∙ h
]

pub update-IsFit :
    (ticks : ℕ) (phase : Phase) (f : ℕ → Device) (d : ℕ) (v : Device) (j : ℕ)
    → (j ≢ d → IsFit ticks phase j (f j))
    → IsFit ticks phase d v
    → IsFit ticks phase j (update f d v j)
update-IsFit ticks phase f d v j others here = elim (ℕ_discrete j d) [
  | yes e ↦
      subst (λ k. IsFit ticks phase k (update f d v k)) (sym e)
        (subst (IsFit ticks phase d) (sym (update_self f d v)) here)
  | no ne ↦ subst (IsFit ticks phase j) (sym (update_ne f d v j ne)) (others ne)
]

-- A step of one device keeps the invariant if the device still fits, and does not come back.
pub device-Inv :
    (s : Timer) (d : ℕ) (v : Device)
    → Inv s
    → (place_at s d ≡ Place.left → v.place ≡ Place.left)
    → IsFit s.ticks s.phase d v
    → Inv (record s { devices = update s.devices d v })
device-Inv s d v inv stay here = record {
  listed = inv.listed;
  part = inv.part;
  fit = λ j lt. update-IsFit s.ticks s.phase s.devices d v j (λ ne. inv.fit j lt) here;
  counted =
      Counted-devices s.devices (update s.devices d v) s.attached s.ticks s.phase
        (λ j. update_place s.devices d v j stay) inv.counted;
  stopped =
      λ e. ((inv.stopped e).0, λ j lt. update_place s.devices d v j stay ((inv.stopped e).1 j lt));
  created = inv.created;
  wraps = inv.wraps;
}
