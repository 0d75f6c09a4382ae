-- ===== src/Queue.antt =====
-- src/queue.c and include/queue.h: a queue of process pointers in an array of fixed size.
-- A pointer is a number, `none` is NULL. The queue itself is never NULL: every caller passes the
-- address of a static queue. The slots that a shift or a fresh array leaves behind hold numbers
-- that no function reads.
pub mod Laws
use simple_os_simulator.Prelude.{
  ℕ, zero, suc, ◌+◌, ◌-◌, Bool, true, false, Option, none, some, List, ltb, leb, ◌==◌,
  if◌then◌else◌, get_or, set,
}

abbrev pub max_queue_size : ℕ
max_queue_size = 50

pub record Queue : Type 0 where
  pub proc : List ℕ
  pub size : ℕ

unfoldable pub empty : Queue → Bool
empty q = q.size == 0

unfoldable pub enqueue : Queue → Option ℕ → Queue
enqueue q none = q
enqueue q (some p) =
    if leb max_queue_size q.size
    then q
    else record q { proc = set q.proc q.size p; size = q.size + 1 }

-- `for (j = i; j < size - 1; j++) proc[j] = proc[j + 1]`, with the number of rounds that are left.
unfoldable pub shift : ℕ → ℕ → List ℕ → List ℕ
shift zero i a = a
shift (suc rounds) i a = shift rounds (suc i) (set a i (get_or a (suc i) 0))

unfoldable pub dequeue : Queue → Option ℕ × Queue
unfolding shift
dequeue q = if q.size == 0 then (none, q) else (
  some (get_or q.proc 0 0),
  record q { proc = shift (q.size - 1) 0 q.proc; size = q.size - 1 },
)

-- The loop that looks for the process: the index at which it stands first.
unfoldable pub index_from : ℕ → ℕ → List ℕ → ℕ → Option ℕ
index_from zero i a p = none
index_from (suc rounds) i a p =
    let rest = index_from rounds (suc i) a p in if get_or a i 0 == p then some i else rest

unfoldable pub purgequeue : Queue → Option ℕ → Option ℕ × Queue
unfolding index_from shift
purgequeue q none = (none, q)
purgequeue q (some p) = elim (index_from q.size 0 q.proc p) [
  | none ↦ (none, q)
  | some i ↦ (some p, record q { proc = shift (q.size - 1 - i) i q.proc; size = q.size - 1 })
]
