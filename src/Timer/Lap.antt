-- ===== src/Timer/Lap.antt =====
-- One round of the loop of `timer_routine` of src/timer.c as a whole, where no device keeps it waiting.
use simple_os_simulator.Prelude.{
  ℕ, zero, suc, ◌+◌, ◌%◌, ◌^◌, ◌<◌, ◌≡◌, refl, ap, subst, sym, ◌∙◌, inl, inr, arith, true, false,
  ◌||◌, Option, none, some, List, [], ◌∷◌, ◌==◌, if◌then◌else◌, length, Option-cases, update, times,
}
use native.Mathlib.Decide.{ℕ_discrete}
use simple_os_simulator.Timer.{Device, Phase, Timer, done_at, fsh_at, reset, timer_step}
use simple_os_simulator.Timer.System.{Reach, timing, later}

-- That many steps of the timer's thread.
unfoldable pub timer_steps : ℕ → Timer → Option Timer
timer_steps zero s = some s
timer_steps (suc n) s = elim (timer_step s) [ none ↦ none | some t ↦ timer_steps n t ]

timer_steps-suc :
    (n : ℕ) (s t : Timer) (r : Option Timer)
    → timer_step s ≡ some t
    → timer_steps n t ≡ r
    → timer_steps (suc n) s ≡ r
unfolding timer_steps
timer_steps-suc n s t r e f = rw (e, timer_steps) f

timer_steps-add :
    (m n : ℕ) (s t : Timer) (r : Option Timer)
    → timer_steps m s ≡ some t
    → timer_steps n t ≡ r
    → timer_steps (m + n) s ≡ r
unfolding timer_steps
timer_steps-add zero n s t r e f =
    let same : s ≡ t = cc in
    let none_more : n ≡ 0 + n = omega arith in
    subst (λ k. timer_steps k s ≡ r) none_more (subst (λ u. timer_steps n u ≡ r) (sym same) f)
timer_steps-add (suc m) n s t r e f = elim (Option-cases (timer_step s)) [
  | inl h ↦ absurd (ground (arith, e, h))
  | inr (u, h) ↦
      (let one_more : suc (m + n) ≡ suc m + n = omega arith in
        subst (λ k. timer_steps k s ≡ r) one_more
          (timer_steps-suc (m + n) s u r h (timer_steps-add m n u t r (ground (arith, e, h)) f)))
]

-- The steps of the thread alone reach what the system reaches.
pub timer_steps-Reach : (n : ℕ) (s t : Timer) → Reach s → timer_steps n s ≡ some t → Reach t
unfolding timer_steps
timer_steps-Reach zero s t r e = (let same : s ≡ t = cc in subst Reach same r)
timer_steps-Reach (suc n) s t r e = elim (Option-cases (timer_step s)) [
  | inl h ↦ absurd (ground (arith, e, h))
  | inr (u, h) ↦ timer_steps-Reach n u t (later r (timing u h)) (ground (arith, e, h))
]

-- How many of the devices have detached.
unfoldable pub gone : (ℕ → Device) → List ℕ → ℕ
gone f [] = 0
gone f (d ∷ temp) = (if (f d).id.fsh then 1 else 0) + gone f temp

-- The devices of the list with `done` reset.
unfoldable pub let_go : (ℕ → Device) → List ℕ → ℕ → Device
let_go f [] = f
let_go f (d ∷ temp) = let_go (update f d (reset (f d))) temp

abbrev AllReady : Timer → List ℕ → Type 0
AllReady s temp = (d : ℕ) → 0 < times d temp → done_at s d || fsh_at s d ≡ true

checking_at :
    (s : Timer) {a b c d : ℕ}
    → a ≡ b
    → c ≡ d
    → record s { phase = Phase.checking [] a c } ≡ record s { phase = Phase.checking [] b d }
checking_at s e f = cc

check_all :
    (s : Timer) (temp : List ℕ) (fsh event : ℕ)
    → AllReady s temp
    → timer_steps (length temp) (record s { phase = Phase.checking temp fsh event })
      ≡ some
          (record s { phase = Phase.checking [] (fsh + gone s.devices temp) (event + length temp) })
unfolding timer_steps timer_step gone
check_all s [] fsh event ready = ap some (checking_at s (omega arith) (omega arith))
check_all s (d ∷ temp) fsh event ready =
    let next : Timer = record s {
      phase = Phase.checking temp (if fsh_at s d then fsh + 1 else fsh) (event + 1);
    } in
    let first : done_at s d || fsh_at s d ≡ true = ready d (grind arith) in
    let others =
      check_all s temp (if fsh_at s d then fsh + 1 else fsh) (event + 1)
        (λ j h. ready j (grind (arith, h))) in
    timer_steps-suc (length temp) (record s { phase = Phase.checking (d ∷ temp) fsh event }) next _
      (ground (arith, first)) (others ∙ ap some (checking_at s (grind arith) (omega arith)))

release_all :
    (s : Timer) (temp : List ℕ) (fsh event : ℕ)
    → timer_steps (length temp) (record s { phase = Phase.releasing temp fsh event })
      ≡ some (record s { devices = let_go s.devices temp; phase = Phase.releasing [] fsh event })
unfolding timer_steps timer_step let_go
release_all s [] fsh event = refl
release_all s (d ∷ temp) fsh event =
    release_all (record s { devices = update s.devices d (reset (s.devices d)) }) temp fsh event

let_go-done :
    (f : ℕ → Device) (temp : List ℕ) (d : ℕ)
    → (f d).id.done ≡ false
    → (let_go f temp d).id.done ≡ false
unfolding let_go
let_go-done f [] d h = h
let_go-done f (x ∷ temp) d h = let_go-done (update f x (reset (f x))) temp d (ground (arith, h))

let_go_reset :
    (f : ℕ → Device) (temp : List ℕ) (d : ℕ) → 0 < times d temp → (let_go f temp d).id.done ≡ false
unfolding let_go
let_go_reset f [] d h = absurd (omega (arith, h))
let_go_reset f (x ∷ temp) d h = elim (ℕ_discrete d x) [
  | yes e ↦ let_go-done (update f x (reset (f x))) temp d (ground (arith, e))
  | no ne ↦ let_go_reset (update f x (reset (f x))) temp d (grind (arith, h, ne))
]

-- Nothing else of a device is changed.
abbrev pub SameSlot : Device → Device → Type 0
SameSlot v w = (w.place ≡ v.place) × (w.slots ≡ v.slots) × (w.id.fsh ≡ v.id.fsh)

let_go-SameSlot : (f : ℕ → Device) (temp : List ℕ) (d : ℕ) → SameSlot (f d) (let_go f temp d)
unfolding let_go
let_go-SameSlot f [] d = (refl, refl, refl)
let_go-SameSlot f (x ∷ temp) d =
    let g = update f x (reset (f x)) in
    let (a, b, c) = let_go-SameSlot g temp d in
    let (u, v, w) : SameSlot (f d) (g d) = ground arith in (a ∙ u, b ∙ v, c ∙ w)

-- A round of timer_routine with no stop requested that starts where every listed device is done or
-- has detached ends after 2 n + 3 steps for n devices: every listed done flag is reset, no thread,
-- slot count or fsh flag is changed, the time is one more modulo 2 ^ 64, and the loop is left just
-- where as many devices have detached as there are.
pub timer_round :
    (s : Timer)
    → s.phase ≡ Phase.top
    → s.timer_stop ≡ false
    → AllReady s s.dev_list
    → (t : Timer) × (timer_steps (length s.dev_list + (length s.dev_list + 3)) s ≡ some t)
      × ((d : ℕ) → 0 < times d s.dev_list → done_at t d ≡ false)
      × ((d : ℕ) → SameSlot (s.devices d) (t.devices d))
      × (t.time ≡ (s.time + 1) % 2 ^ 64)
      × (t.phase
          ≡ (if gone s.devices s.dev_list == length s.dev_list then Phase.ended else Phase.top))
unfolding timer_steps timer_step
timer_round s at going ready =
    let n = length s.dev_list in
    let m = gone s.devices s.dev_list in
    let first : Timer = record s { phase = Phase.checking s.dev_list 0 0 } in
    let checked : Timer = record s { phase = Phase.checking [] m n } in
    let ticked : Timer = record s {
      time = (s.time + 1) % 2 ^ 64;
      ticks = s.ticks + 1;
      phase = Phase.releasing s.dev_list m n;
    } in
    let freed : Timer = record ticked {
      devices = let_go s.devices s.dev_list;
      phase = Phase.releasing [] m n;
    } in
    let last : Timer = record freed { phase = if m == n then Phase.ended else Phase.top } in
    let check : timer_steps n first ≡ some checked =
      check_all s s.dev_list 0 0 ready ∙ ap some (checking_at s (omega arith) (omega arith)) in
    let finish : timer_steps 1 freed ≡ some last = timer_steps-suc 0 freed last _ refl refl in
    let release : timer_steps (n + 1) ticked ≡ some last =
      timer_steps-add n 1 ticked freed _ (release_all ticked s.dev_list m n) finish in
    let run : timer_steps (1 + (n + (1 + (n + 1)))) s ≡ some last =
      timer_steps-add 1 (n + (1 + (n + 1))) s first _
        (timer_steps-suc 0 s first _ (ground (arith, at, going)) refl)
        (timer_steps-add n (1 + (n + 1)) first checked _ check (
          timer_steps-add 1 (n + 1) checked ticked _ (timer_steps-suc 0 checked ticked _ refl refl)
            release)) in
    (
      last,
      subst (λ k. timer_steps k s ≡ some last) (omega arith) run,
      λ d h. let_go_reset s.devices s.dev_list d h,
      λ d. let_go-SameSlot s.devices s.dev_list d,
      refl,
      refl,
    )
