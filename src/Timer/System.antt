-- ===== src/Timer/System.antt =====
-- The steps of src/timer.c, of the timer's thread and of the threads of the devices, in any order. `main`
-- starts the timer once, stops it when it has joined the other threads, and frees the containers when
-- the timer has ended.
use simple_os_simulator.Prelude.{ℕ, ◌<◌, ◌≡◌, true, false, some, []}
use simple_os_simulator.Timer.{
  Place, Phase, Timer, attach_event, start_timer, timer_step, next_slot, resume, detach_event,
  stop_timer, free_devices,
}

-- The static variables of timer.c.
abbrev pub init : Timer
init = record {
  devices =
      λ _. record { id = record { done = false; fsh = false }; place = Place.working; slots = 0 };
  attached = 0;
  dev_list = [];
  time = 0;
  ticks = 0;
  timer_started = false;
  timer_stop = false;
  phase = Phase.unborn;
}

abbrev pub place_at : Timer → ℕ → Place
place_at s d = (s.devices d).place

pub data Step (s : Timer) : Timer → Type 0 where
  attaching : Step s (attach_event s).1
  starting : s.timer_started ≡ false → Step s (start_timer s)
  timing : (t : Timer) → timer_step s ≡ some t → Step s t
  reporting : (d : ℕ) → d < s.attached → place_at s d ≡ Place.working → Step s (next_slot s d)
  resuming :
      (d : ℕ) (t : Timer)
      → d < s.attached
      → place_at s d ≡ Place.waiting
      → resume s d ≡ some t
      → Step s t
  detaching : (d : ℕ) → d < s.attached → place_at s d ≡ Place.working → Step s (detach_event s d)
  stopping :
      s.timer_started ≡ true
      → ((d : ℕ) → d < s.attached → place_at s d ≡ Place.left)
      → Step s (stop_timer s)
  freeing : s.phase ≡ Phase.ended → Step s (free_devices s)

pub data Reach : Timer → Type 0 where
  start : Reach init
  later : {s t : Timer} → Reach s → Step s t → Reach t
