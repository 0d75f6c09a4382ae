-- ===== src/Timer.antt =====
-- src/timer.c: the barrier that makes the loader and the CPUs advance one time slot at a time. A
-- container is named by its pointer, the number of those that were attached before it. Each stretch
-- under a mutex is one step; a wait on a condition variable is a step that is not possible until the
-- condition holds. The counters `fsh` and `event` of the timer's loop are at most the number of
-- devices.
pub mod System
pub mod Invariant
pub mod Devices
pub mod Rounds
pub mod Loops
pub mod Barrier
pub mod Lap
use simple_os_simulator.Prelude.{
  ℕ, zero, suc, ◌+◌, ◌%◌, ◌^◌, Bool, true, false, ◌||◌, Option, none, some, List, [], ◌∷◌, ◌==◌,
  if◌then◌else◌, update,
}

-- `struct timer_id_t`, without its mutexes and condition variables.
pub record TimerId : Type 0 where
  pub done : Bool
  pub fsh : Bool

-- Where the thread of a device stands: between two calls of `next_slot`, in the wait of `next_slot`, or
-- past `detach_event`.
pub data Place : Type 0 where
  working waiting left : Place

-- A container with its thread; `slots` counts the calls of `next_slot`.
pub record Device : Type 0 where
  pub id : TimerId
  pub place : Place
  pub slots : ℕ

-- Where `timer_routine` stands: not created, at the head of its loop, in one of its two inner loops
-- before the rest of the list `temp`, or past the loop.
pub data Phase : Type 0 where
  unborn top : Phase
  checking releasing : (temp : List ℕ) (fsh event : ℕ) → Phase
  ended : Phase

-- The static variables and the threads. `ticks` is `_time` without the wrap-around.
pub record Timer : Type 0 where
  pub devices : ℕ → Device
  pub attached : ℕ
  pub dev_list : List ℕ
  pub time : ℕ
  pub ticks : ℕ
  pub timer_started : Bool
  pub timer_stop : Bool
  pub phase : Phase

abbrev pub done_at : Timer → ℕ → Bool
done_at s d = (s.devices d).id.done

abbrev pub fsh_at : Timer → ℕ → Bool
fsh_at s d = (s.devices d).id.fsh

abbrev pub current_time : Timer → ℕ
current_time s = s.time

-- The pointer is `none` for NULL.
unfoldable pub attach_event : Timer → Option ℕ × Timer
attach_event s = if s.timer_started then (none, s) else (
  some s.attached,
  record s {
    devices =
        update s.devices s.attached
          (record { id = record { done = false; fsh = false }; place = Place.working; slots = 0 });
    attached = s.attached + 1;
    dev_list = s.attached ∷ s.dev_list;
  },
)

unfoldable pub start_timer : Timer → Timer
start_timer s = record s { timer_started = true; phase = Phase.top }

-- `temp->id.done = 0`
abbrev pub reset : Device → Device
reset v = record v { id = record v.id { done = false } }

-- One step of `timer_routine`; `none` where it waits for a device or has ended.
unfoldable pub timer_step : Timer → Option Timer
timer_step s = elim s.phase [
  | unborn ↦ none
  | top ↦
      some
        (record s { phase = if s.timer_stop then Phase.ended else Phase.checking s.dev_list 0 0 })
  | checking temp fsh event ↦ elim temp [
    | [] ↦ some (record s {
      time = (s.time + 1) % 2 ^ 64;
      ticks = s.ticks + 1;
      phase = Phase.releasing s.dev_list fsh event;
    })
    | d ∷ temp' ↦
        if done_at s d || fsh_at s d
        then some (record s {
          phase = Phase.checking temp' (if fsh_at s d then fsh + 1 else fsh) (event + 1);
        })
        else none
  ]
  | releasing temp fsh event ↦ elim temp [
    | [] ↦ some (record s { phase = if fsh == event then Phase.ended else Phase.top })
    | d ∷ temp' ↦ some (record s {
      devices = update s.devices d (reset (s.devices d));
      phase = Phase.releasing temp' fsh event;
    })
  ]
  | ended ↦ none
]

-- `next_slot` up to its wait, ...
unfoldable pub next_slot : Timer → ℕ → Timer
next_slot s d = record s {
  devices = update s.devices d (record {
    id = record (s.devices d).id { done = true };
    place = Place.waiting;
    slots = (s.devices d).slots + 1;
  });
}

-- ... and its return, possible once the timer has reset `done`.
unfoldable pub resume : Timer → ℕ → Option Timer
resume s d =
    if done_at s d
    then none
    else some
        (record s { devices = update s.devices d (record (s.devices d) { place = Place.working }) })

unfoldable pub detach_event : Timer → ℕ → Timer
detach_event s d = record s {
  devices =
      update s.devices d
        (record (s.devices d) { id = record (s.devices d).id { fsh = true }; place = Place.left });
}

-- `stop_timer` up to `pthread_join`, ...
unfoldable pub stop_timer : Timer → Timer
stop_timer s = record s { timer_stop = true }

-- ... and after it, where it frees the containers.
unfoldable pub free_devices : Timer → Timer
free_devices s = record s { dev_list = [] }
