-- ===== src/Queue/Laws.antt =====
-- src/queue.c against a list of at most 50 pointers, oldest first.
use simple_os_simulator.Prelude.{
  ℕ, zero, suc, ◌+◌, ◌-◌, ◌≤◌, ◌<◌, ◌≡◌, refl, sym, ap, ◌∙◌, inl, inr, Bool, true, false, Option,
  none, some, ◌||◌, List, [], ◌∷◌, ◌++◌, arith, leb, ◌==◌, if◌then◌else◌, get_or, set, length, take,
  length-set, length-take, Option-cases, Bool-cases,
}
use mathlib.Core.Option
use native.Mathlib.Numerals.{add-one}
use simple_os_simulator.Queue.{
  Queue, max_queue_size, enqueue, shift, dequeue, index_from, purgequeue,
}

-- The array has its full length, and the size counts slots of it.
pub record IsValid (q : Queue) : Type 0 where
  pub slots : length q.proc ≡ max_queue_size
  pub bounded : q.size ≤ max_queue_size

abbrev pub contents : Queue → List ℕ
contents q = take q.size q.proc

length-shift : (n i : ℕ) (a : List ℕ) → length (shift n i a) ≡ length a
unfolding shift
length-shift zero i a = refl
length-shift (suc n) i a = length-shift n (suc i) (set a i (get_or a (suc i) 0)) ∙ length-set a i _

shift-cons : (n i x : ℕ) (a : List ℕ) → shift n (suc i) (x ∷ a) ≡ x ∷ shift n i a
unfolding shift
shift-cons zero i x a = refl
shift-cons (suc n) i x a = shift-cons n (suc i) x (set a i (get_or a (suc i) 0))

-- A shift from the front drops the first slot.
take-shift : (n x : ℕ) (a : List ℕ) → n ≤ length a → take n (shift n 0 (x ∷ a)) ≡ take n a
unfolding shift
take-shift zero x a h = refl
take-shift (suc n) x [] h = absurd (omega arith)
take-shift (suc n) x (y ∷ a) h =
    rw (shift-cons n 0 y (y ∷ a)) (ap (◌∷◌ y) (take-shift n y a (omega arith)))

-- Without the element at an index.
abbrev remove_at : ℕ → List ℕ → List ℕ
remove_at i [] = []
remove_at zero (x ∷ xs) = xs
remove_at (suc i) (x ∷ xs) = x ∷ remove_at i xs

take-shift_at :
    (i n m : ℕ) (a : List ℕ)
    → m ≡ i + n
    → m < length a
    → take m (shift n i a) ≡ remove_at i (take (suc m) a)
take-shift_at i n m [] e h = absurd (omega arith)
take-shift_at zero n m (x ∷ a) e h =
    let e' : n ≡ m = omega arith in rw e' (take-shift m x a (omega arith))
take-shift_at (suc i) n zero (x ∷ a) e h = absurd (omega arith)
take-shift_at (suc i) n (suc m) (x ∷ a) e h =
    rw (shift-cons n i x a) (ap (◌∷◌ x) (take-shift_at i n m a (omega arith) (omega arith)))

take-set : (n p : ℕ) (a : List ℕ) → n < length a → take (suc n) (set a n p) ≡ take n a ++ p ∷ []
take-set n p [] h = absurd (omega arith)
take-set zero p (x ∷ a) h = refl
take-set (suc n) p (x ∷ a) h = ap (◌∷◌ x) (take-set n p a (omega arith))

pub length-contents : (q : Queue) → IsValid q → length (contents q) ≡ q.size
length-contents q v = omega (arith, length-take q.size q.proc)

pub enqueue-IsValid : (q : Queue) (p : Option ℕ) → IsValid q → IsValid (enqueue q p)
unfolding enqueue
enqueue-IsValid q none v = v
enqueue-IsValid q (some p) v = ground (arith, length-set q.proc q.size p)

-- In a valid queue enqueue adds a pointer at the end of the contents, and drops it where the queue
-- is full.
pub contents-enqueue :
    (q : Queue) (p : ℕ)
    → IsValid q
    → contents (enqueue q (some p))
      ≡ (if leb max_queue_size (length (contents q)) then contents q else contents q ++ p ∷ [])
unfolding enqueue
contents-enqueue q p v =
    ground (arith, length-contents q v, add-one q.size, take-set q.size p q.proc)

pub dequeue-IsValid : (q : Queue) → IsValid q → IsValid (dequeue q).1
unfolding dequeue
dequeue-IsValid q v = ground (arith, length-shift (q.size - 1) 0 q.proc)

-- What a list gives up at its front.
unfoldable pub pop_front : List ℕ → Option ℕ × List ℕ
pop_front [] = (none, [])
pop_front (x ∷ xs) = (some x, xs)

dequeue_array :
    (n : ℕ) (a : List ℕ)
    → suc n ≤ length a
    → (some (get_or a 0 0), take n (shift n 0 a)) ≡ pop_front (take (suc n) a)
unfolding pop_front
dequeue_array n [] h = absurd (omega arith)
dequeue_array n (x ∷ a) h = ap (λ t. (some x, t)) (take-shift n x a (omega arith))

-- In a valid queue dequeue gives the oldest pointer and keeps the others in order, and gives NULL
-- on the empty queue, which it leaves as it is.
pub dequeue_refines :
    (q : Queue) → IsValid q → ((dequeue q).0, contents (dequeue q).1) ≡ pop_front (contents q)
dequeue_refines q v = by_size q.size refl
  where
    by_size :
        (n : ℕ) → q.size ≡ n → ((dequeue q).0, contents (dequeue q).1) ≡ pop_front (contents q)
    by_size zero e = unfold dequeue pop_front in ground arith
    by_size (suc n) e = unfold dequeue in ground (arith, dequeue_array n q.proc)

-- Without the first pointer equal to `p`.
unfoldable pub erase : ℕ → List ℕ → List ℕ
erase p [] = []
erase p (x ∷ xs) = let rest = erase p xs in if x == p then xs else x ∷ rest

abbrev pub member : ℕ → List ℕ → Bool
member p [] = false
member p (x ∷ xs) = x == p || member p xs

-- What the search finds, stepping over the front of the array.
index_from-cons :
    (n i x : ℕ) (a : List ℕ) (p : ℕ)
    → index_from n (suc i) (x ∷ a) p ≡ Option.map suc (index_from n i a p)
unfolding index_from
index_from-cons zero i x a p = refl
index_from-cons (suc n) i x a p = ground (arith, index_from-cons n (suc i) x a p)

-- The search and the shift together take the first pointer equal to `p` out of the list.
abbrev Found : Option ℕ → ℕ → List ℕ → ℕ → Type 0
Found none n a p = (member p (take n a) ≡ false) × (erase p (take n a) ≡ take n a)
Found (some i) n a p =
    (i < n) × (member p (take n a) ≡ true) × (remove_at i (take n a) ≡ erase p (take n a))

Found-suc :
    (o : Option ℕ) (n x : ℕ) (a : List ℕ) (p : ℕ)
    → (x == p) ≡ false
    → Found o n a p
    → Found (Option.map suc o) (suc n) (x ∷ a) p
unfolding erase
Found-suc none n x a p miss f = ground arith
Found-suc (some i) n x a p miss f = ground arith

index_from-Found : (n : ℕ) (a : List ℕ) (p : ℕ) → n ≤ length a → Found (index_from n 0 a p) n a p
unfolding index_from erase
index_from-Found zero a p h = (refl, refl)
index_from-Found (suc n) [] p h = absurd (omega arith)
index_from-Found (suc n) (x ∷ a) p h = rw index_from-cons (elim (Bool-cases (x == p)) [
  | inl hit ↦ rw (hit, hit) (omega arith, refl, refl)
  | inr miss ↦
      rw (miss, if◌then◌else◌)
        (Found-suc (index_from n 0 a p) n x a p miss (index_from-Found n a p (omega arith)))
])

pub purgequeue-IsValid : (q : Queue) (p : Option ℕ) → IsValid q → IsValid (purgequeue q p).1
unfolding purgequeue
purgequeue-IsValid q none v = v
purgequeue-IsValid q (some p) v = elim (Option-cases (index_from q.size 0 q.proc p)) [
  | inl e ↦ rw (e, purgequeue) v
  | inr (i, e) ↦ rw (e, purgequeue) (ground (arith, length-shift (q.size - 1 - i) i q.proc))
]

-- In a valid queue purgequeue takes the first copy of the pointer out, keeps the order of the
-- others and returns the pointer; where no copy is there it returns NULL and the contents stay.
pub purgequeue_refines :
    (q : Queue) (p : ℕ)
    → IsValid q
    → ((purgequeue q (some p)).0 ≡ (if member p (contents q) then some p else none))
      × (contents (purgequeue q (some p)).1 ≡ erase p (contents q))
unfolding purgequeue
purgequeue_refines q p v =
    at (index_from q.size 0 q.proc p) refl (index_from-Found q.size q.proc p (omega arith))
  where
    at :
        (o : Option ℕ)
        → index_from q.size 0 q.proc p ≡ o
        → Found o q.size q.proc p
        → ((purgequeue q (some p)).0 ≡ (if member p (contents q) then some p else none))
          × (contents (purgequeue q (some p)).1 ≡ erase p (contents q))
    at none e f = rw (e, purgequeue) (rw f.0, sym f.1)
    at (some i) e f =
        let last : suc (q.size - 1) ≡ q.size = omega arith in
        rw (e, purgequeue)
          (
            rw f.1,
            take-shift_at i (q.size - 1 - i) (q.size - 1) q.proc (omega arith) (omega arith)
                ∙ ap (λ n. remove_at i (take n q.proc)) last
                ∙ f.2,
          )
