-- ===== src/Tests/Barrier.antt =====
-- Runs of src/timer.c with two devices.
use simple_os_simulator.Prelude.{
  ℕ, ◌≡◌, ◌≢◌, ◌<◌, ◌≤◌, ◌+◌, ◌%◌, ◌^◌, ◌⊎◌, refl, arith, true, false, none, some, [], ◌∷◌, times,
  ◌==◌, if◌then◌else◌,
}
use simple_os_simulator.Timer.{
  Place, Phase, Timer, current_time, done_at, attach_event, start_timer, timer_step, next_slot,
  resume, detach_event,
}
use simple_os_simulator.Timer.System.{
  init, place_at, Reach, attaching, starting, timing, reporting, detaching, start, later,
}
use simple_os_simulator.Timer.Barrier.{
  working_in_time, slots_apart, tick_waits, ended_all, never_stuck,
}
use simple_os_simulator.Timer.Lap.{
  timer_steps, gone, SameSlot, timer_steps-Reach, timer_round, let_go,
}

-- Two devices are attached, and the timer is started.
abbrev two : Timer
two = start_timer (attach_event (attach_event init).1).1

two-Reach : Reach two
unfolding attach_event
two-Reach = later (later (later start attaching) attaching) (starting refl)

-- The first has done its job.
abbrev reported : Timer
reported = next_slot two 0

reported-Reach : Reach reported
unfolding attach_event start_timer
reported-Reach = later two-Reach (reporting 0 (omega arith) refl)

working_in_time_example : current_time reported ≡ (reported.devices 1).slots % 2 ^ 64
unfolding attach_event start_timer next_slot
working_in_time_example = working_in_time reported-Reach 1 (omega arith) refl

slots_apart_example : (reported.devices 0).slots ≤ (reported.devices 1).slots + 1
unfolding attach_event start_timer next_slot
slots_apart_example = slots_apart reported-Reach 0 1 (omega arith) (omega arith) (λ e. cc) (λ e. cc)

-- The timer waits for the second.
abbrev blocked : Timer
blocked = record reported { phase = Phase.checking (1 ∷ 0 ∷ []) 0 0 }

blocked-Reach : Reach blocked
unfolding attach_event start_timer next_slot timer_step
blocked-Reach = later reported-Reach (timing blocked refl)

never_stuck_example :
    (1 < blocked.attached)
    × ((place_at blocked 1 ≡ Place.working)
        ⊎ ((place_at blocked 1 ≡ Place.waiting) × (resume blocked 1 ≢ none)))
unfolding attach_event start_timer next_slot timer_step
never_stuck_example = never_stuck 1 (0 ∷ []) 0 0 blocked-Reach refl refl

-- Both have done their jobs, or left.
abbrev all_reported : Timer
all_reported = next_slot reported 1

abbrev all_left : Timer
all_left = detach_event (detach_event two 0) 1

-- The timer has found both done.
abbrev before_tick : Timer
before_tick = record all_reported { phase = Phase.checking [] 0 2 }

before_tick-Reach : Reach before_tick
unfolding attach_event start_timer next_slot timer_step timer_steps
before_tick-Reach =
    timer_steps-Reach 3 all_reported before_tick
      (later reported-Reach (reporting 1 (omega arith) refl)) refl

tick_waits_example :
    ((place_at before_tick 1 ≡ Place.waiting) × (done_at before_tick 1 ≡ true))
    ⊎ (place_at before_tick 1 ≡ Place.left)
unfolding attach_event start_timer next_slot
tick_waits_example = tick_waits 0 2 before_tick-Reach refl 1 (omega arith)

all_left-Reach : Reach all_left
unfolding attach_event start_timer detach_event
all_left-Reach =
    later (later two-Reach (detaching 0 (omega arith) refl)) (detaching 1 (omega arith) refl)

abbrev over : Timer
over = record all_left {
  devices = let_go all_left.devices (1 ∷ 0 ∷ []);
  time = 1;
  ticks = 1;
  phase = Phase.ended;
}

over-Reach : Reach over
unfolding attach_event start_timer detach_event timer_step timer_steps let_go
over-Reach = timer_steps-Reach 7 all_left over all_left-Reach refl

ended_all_example : place_at over 1 ≡ Place.left
unfolding attach_event start_timer detach_event
ended_all_example = ended_all over-Reach refl 1 (omega arith)

timer_round_example :
    (t : Timer) × (timer_steps 7 all_reported ≡ some t)
    × ((d : ℕ) → 0 < times d all_reported.dev_list → done_at t d ≡ false)
    × ((d : ℕ) → SameSlot (all_reported.devices d) (t.devices d))
    × (t.time ≡ (all_reported.time + 1) % 2 ^ 64)
    × (t.phase
        ≡ (if gone all_reported.devices all_reported.dev_list == 2 then Phase.ended else Phase.top))
unfolding attach_event start_timer next_slot
timer_round_example = timer_round all_reported refl refl (λ d h. grind (arith, h))
