-- ===== src/Sched/Priority.antt =====
-- Which process `get_proc` of src/sched.c dispatches, in terms of the lists that the queues hold.
use simple_os_simulator.Prelude.{
  ℕ, zero, suc, ◌+◌, ◌-◌, ◌≤◌, ◌<◌, ◌≡◌, ◌≢◌, refl, ap, sym, ◌∙◌, ◌↔◌, ◌⊎◌, inl, inr, Bool, true,
  false, Option, none, some, List, [], ◌∷◌, arith, length, get_or-set_self, get_or-set_ne,
  Bool-cases,
}
use native.Mathlib.Decide.{dec_le}
use simple_os_simulator.Queue.{Queue, empty, dequeue}
use simple_os_simulator.Queue.Laws.{IsValid as IsQueue}
use simple_os_simulator.Queue.Laws.{contents, length-contents, pop_front, dequeue_refines}
use simple_os_simulator.Sched.{
  Sched, max_prio, no_procs, queue_at, slot_at, serve, retry, choose, get_mlq_proc, first_from,
  is_filled, is_eligible,
}
use simple_os_simulator.Sched.Invariant.{IsValid, fresh, reset-IsValid}

-- Where the search stops: at the first index that passes, or past the last one.
abbrev First : (ℕ → Bool) → ℕ → ℕ → Option ℕ → Type 0
First test n i none = (j : ℕ) → i ≤ j → j < i + n → test j ≡ false
First test n i (some p) =
    (i ≤ p) × (p < i + n) × (test p ≡ true) × ((j : ℕ) → i ≤ j → j < p → test j ≡ false)

first_from-First : (test : ℕ → Bool) (n i : ℕ) → First test n i (first_from test n i)
unfolding first_from
first_from-First test zero i = λ j p q. absurd (omega arith)
first_from-First test (suc n) i = elim (Bool-cases (test i)) [
  | inl hit ↦ rw hit (omega arith, omega arith, hit, λ j p q. absurd (omega arith))
  | inr miss ↦
      rw miss (First-suc _ (first_from test n (suc i)) miss (first_from-First test n (suc i)))
]
  where
    First-suc :
        (k : ℕ) (o : Option ℕ) → test k ≡ false → First test n (suc k) o → First test (suc n) k o
    First-suc k none m f = λ j p q. elim (dec_le j k) [
      | yes low ↦ (let e : k ≡ j = omega arith in rw e at m)
      | no high ↦ f j (omega arith) (omega arith)
    ]
    First-suc k (some p) m f = (
      omega arith,
      omega arith,
      f.2,
      λ j q r. elim (dec_le j k) [
        | yes low ↦ (let e : k ≡ j = omega arith in rw e at m)
        | no high ↦ f.3 j (omega arith) r
      ],
    )

-- A queue is empty by its size where it holds an empty list.
empty-cases :
    (q : Queue)
    → IsQueue q
    → ((empty q ≡ true) × (contents q ≡ [])) ⊎ ((empty q ≡ false) × (contents q ≢ []))
unfolding empty
empty-cases q v = by_size q.size refl
  where
    by_size :
        (n : ℕ)
        → q.size ≡ n
        → ((empty q ≡ true) × (contents q ≡ [])) ⊎ ((empty q ≡ false) × (contents q ≢ []))
    by_size zero e = inl (ground arith, rw e)
    by_size (suc n) e = inr (ground arith, λ h. omega (arith, ap length h, length-contents q v))

-- The oldest process of queue `p` is taken, the slot of `p` goes down by one, and nothing else
-- of the queues and slots changes.
pub record Served (s : Sched) (p : ℕ) (r : Option ℕ × Sched) : Type 0 where
  pub oldest : (r.0, contents (queue_at r.1 p)) ≡ pop_front (contents (queue_at s p))
  pub counted : slot_at r.1 p ≡ slot_at s p - 1
  pub queues : (j : ℕ) → p ≢ j → queue_at r.1 j ≡ queue_at s j
  pub slots : (j : ℕ) → p ≢ j → slot_at r.1 j ≡ slot_at s j

serve-Served : (s : Sched) (p : ℕ) → IsValid s → p < max_prio → Served s p (serve s p)
unfolding serve
serve-Served s p v h = record {
  oldest =
      rw (get_or-set_self s.mlq_ready_queue p (dequeue (queue_at s p)).1 no_procs levels)
        (dequeue_refines (queue_at s p) (v.queues p));
  counted = get_or-set_self s.slot p _ 0 slots;
  queues = λ j ne. get_or-set_ne s.mlq_ready_queue p j _ no_procs ne;
  slots = λ j ne. get_or-set_ne s.slot p j _ 0 ne;
}
  where
    levels : p < length s.mlq_ready_queue
    levels = omega (arith, v.levels)

    slots : p < length s.slot
    slots = omega (arith, v.slots)

-- Queue `j` has spent its slots, or holds nobody.
abbrev Passed : Sched → ℕ → Type 0
Passed s j = (slot_at s j ≡ 0) ⊎ (contents (queue_at s j) ≡ [])

-- The policy: nobody is ready; or the first queue with a slot and a process is served; or every
-- queue that holds a process has spent its slots, all get their slots back, and the first of them
-- that holds a process is served.
pub data Turn (s : Sched) (r : Option ℕ × Sched) : Type 0 where
  idle :
      r.0 ≡ none
      → ((j : ℕ) → j < max_prio → contents (queue_at s j) ≡ [])
      → ((j : ℕ) → (queue_at r.1 j ≡ queue_at s j) × (slot_at r.1 j ≡ slot_at s j))
      → Turn s r
  next :
      (p : ℕ)
      → p < max_prio
      → 0 < slot_at s p
      → contents (queue_at s p) ≢ []
      → ((j : ℕ) → j < p → Passed s j)
      → Served s p r
      → Turn s r
  renewed :
      (p : ℕ)
      → p < max_prio
      → contents (queue_at s p) ≢ []
      → ((j : ℕ) → j < max_prio → Passed s j)
      → ((j : ℕ) → j < p → contents (queue_at s j) ≡ [])
      → Served (fresh s) p r
      → Turn s r

is_filled-false :
    (s : Sched) (j : ℕ) → IsValid s → is_filled s j ≡ false → contents (queue_at s j) ≡ []
is_filled-false s j v e = ground (arith, empty-cases (queue_at s j) (v.queues j))

is_filled-true :
    (s : Sched) (j : ℕ) → IsValid s → is_filled s j ≡ true → contents (queue_at s j) ≢ []
is_filled-true s j v e = ground (arith, empty-cases (queue_at s j) (v.queues j))

is_eligible-true :
    (s : Sched) (j : ℕ)
    → IsValid s
    → is_eligible s j ≡ true
    → (0 < slot_at s j) × (contents (queue_at s j) ≢ [])
is_eligible-true s j v e = (ground arith, is_filled-true s j v (ground arith))

is_eligible-false : (s : Sched) (j : ℕ) → IsValid s → is_eligible s j ≡ false → Passed s j
is_eligible-false s j v e = ground (arith, empty-cases (queue_at s j) (v.queues j))

retry-Served :
    (s : Sched) (p : ℕ)
    → IsValid s
    → first_from (is_filled s) max_prio 0 ≡ some p
    → p < max_prio
    → Served (fresh s) p (retry s)
unfolding retry
retry-Served s p v e h = rw (e, retry) (serve-Served (fresh s) p (reset-IsValid s v) h)

choose_without :
    (s : Sched)
    → IsValid s
    → first_from (is_eligible s) max_prio 0 ≡ none
    → ((j : ℕ) → j < max_prio → Passed s j)
    → (o : Option ℕ) → first_from (is_filled s) max_prio 0 ≡ o
    → First (is_filled s) max_prio 0 o
    → Turn s (choose s)
unfolding choose
choose_without s v e passed none g f =
    rw (e, g, choose)
      (idle refl (λ j h. is_filled-false s j v (f j (omega arith) h)) (λ j. (refl, refl)))
choose_without s v e passed (some p) g f =
    rw (e, g, choose)
      (renewed p f.1 (is_filled-true s p v f.2) passed
        (λ j h. is_filled-false s j v (f.3 j (omega arith) h)) (retry-Served s p v g f.1))

Served-running :
    (s : Sched) (p : ℕ) (r : Option ℕ × Sched) (q : Queue)
    → Served s p r
    → Served s p (r.0, record r.1 { running_list = q })
Served-running s p r q w = record {
  oldest = w.oldest;
  counted = w.counted;
  queues = w.queues;
  slots = w.slots;
}

choose-Turn : (s : Sched) → IsValid s → Turn s (choose s)
unfolding choose
choose-Turn s v =
    by_budget (first_from (is_eligible s) max_prio 0) refl
      (first_from-First (is_eligible s) max_prio 0)
  where
    by_budget :
        (o : Option ℕ)
        → first_from (is_eligible s) max_prio 0 ≡ o
        → First (is_eligible s) max_prio 0 o
        → Turn s (choose s)
    by_budget (some p) e f =
        let ready = is_eligible-true s p v f.2 in
        rw (e, choose)
          (next p f.1 ready.0 ready.1 (λ j h. is_eligible-false s j v (f.3 j (omega arith) h))
            (serve-Served s p v f.1))
    by_budget none e f =
        choose_without s v e (λ j h. is_eligible-false s j v (f j (omega arith) h))
          (first_from (is_filled s) max_prio 0) refl (first_from-First (is_filled s) max_prio 0)

Turn-running :
    (s : Sched) (r : Option ℕ × Sched) (q : Queue)
    → Turn s r
    → Turn s (r.0, record r.1 { running_list = q })
Turn-running s r q (idle e h k) = idle e h k
Turn-running s r q (next p a b c d w) = next p a b c d (Served-running s p r q w)
Turn-running s r q (renewed p a b c d w) = renewed p a b c d (Served-running (fresh s) p r q w)

-- In a valid state get_proc follows the policy: the lowest priority number among the queues with
-- slots left, first in first out within it, and a new round of slots where no filled queue has one
-- left.
pub get_mlq_proc-Turn : (s : Sched) → IsValid s → Turn s (get_mlq_proc s)
unfolding get_mlq_proc
get_mlq_proc-Turn s v = Turn-running s (choose s) _ (choose-Turn s v)

pop_front-none : (xs : List ℕ) → (pop_front xs).0 ≡ none → xs ≡ []
unfolding pop_front
pop_front-none [] e = refl
pop_front-none (x ∷ xs) e = cc

Served-none :
    (s : Sched) (p : ℕ) (r : Option ℕ × Sched)
    → Served s p r
    → r.0 ≡ none
    → contents (queue_at s p) ≡ []
Served-none s p r w e = pop_front-none _ (sym (ap (λ t. t.0) w.oldest) ∙ e)

Turn-none :
    (s : Sched) (r : Option ℕ × Sched)
    → Turn s r
    → r.0 ≡ none
    → (j : ℕ) → j < max_prio
    → contents (queue_at s j) ≡ []
Turn-none s r (idle e h k) n = h
Turn-none s r (next p a b c d w) n = absurd (c (Served-none s p r w n))
Turn-none s r (renewed p a b c d w) n = absurd (b (Served-none (fresh s) p r w n))

Turn-empty :
    (s : Sched) (r : Option ℕ × Sched)
    → Turn s r
    → ((j : ℕ) → j < max_prio → contents (queue_at s j) ≡ [])
    → r.0 ≡ none
Turn-empty s r (idle e h k) n = e
Turn-empty s r (next p a b c d w) n = absurd (c (n p a))
Turn-empty s r (renewed p a b c d w) n = absurd (b (n p a))

-- In a valid state get_proc returns NULL exactly when no MLQ queue holds a process.
pub get_mlq_proc-none_iff :
    (s : Sched)
    → IsValid s
    → ((get_mlq_proc s).0 ≡ none) ↔ ((j : ℕ) → j < max_prio → contents (queue_at s j) ≡ [])
get_mlq_proc-none_iff s v =
    (Turn-none s _ (get_mlq_proc-Turn s v), Turn-empty s _ (get_mlq_proc-Turn s v))
