-- ===== src/Sched/Running.antt =====
-- The running list of src/sched.c, in which the system calls look their caller up.
use simple_os_simulator.Prelude.{
  ℕ, ◌<◌, ◌≡◌, refl, true, false, ◌||◌, some, List, [], ◌∷◌, ◌++◌, arith, leb, if◌then◌else◌,
  length,
}
use simple_os_simulator.Queue.{max_queue_size}
use simple_os_simulator.Queue.Laws.{contents, erase, member, contents-enqueue, purgequeue_refines}
use simple_os_simulator.Sched.{Sched, choose, retry, serve, get_mlq_proc, remove_proc}
use simple_os_simulator.Sched.Invariant.{IsValid, get_mlq_proc-IsValid}

abbrev pub running : Sched → List ℕ
running s = contents s.running_list

running_list-choose : (s : Sched) → (choose s).1.running_list ≡ s.running_list
unfolding choose retry serve
running_list-choose s = ground arith

-- In a valid state each dispatch puts a copy of the process at the end of the running list,
-- whether or not one stands there, and none where the list has 50 entries.
running-get_mlq_proc :
    (s : Sched) (p : ℕ)
    → IsValid s
    → (get_mlq_proc s).0 ≡ some p
    → running (get_mlq_proc s).1
      ≡ (if leb max_queue_size (length (running s)) then running s else running s ++ p ∷ [])
unfolding get_mlq_proc
running-get_mlq_proc s p v e =
    rw (e, running_list-choose s) (contents-enqueue s.running_list p v.running)

member-append : (p : ℕ) (xs ys : List ℕ) → member p (xs ++ ys) ≡ (member p xs || member p ys)
member-append p [] ys = refl
member-append p (x ∷ xs) ys = ground (arith, member-append p xs ys)

-- The first of two copies goes, the other stays.
member-erase_append :
    (p : ℕ) (xs : List ℕ) → member p xs ≡ true → member p (erase p (xs ++ p ∷ [])) ≡ true
unfolding erase
member-erase_append p [] e = cc
member-erase_append p (x ∷ xs) e =
    ground (arith, member-append p xs (p ∷ []), member-erase_append p xs)

running-remove_proc :
    (s : Sched) (p : ℕ) → IsValid s → running (remove_proc s p) ≡ erase p (running s)
unfolding remove_proc
running-remove_proc s p v = (purgequeue_refines s.running_list p v.running).1

-- In a valid state a process that is dispatched again while it stands in the running list, with
-- room left there, is still listed after remove_proc.
remove_proc_stale :
    (s : Sched) (p : ℕ)
    → IsValid s
    → (get_mlq_proc s).0 ≡ some p
    → member p (running s) ≡ true
    → length (running s) < max_queue_size
    → member p (running (remove_proc (get_mlq_proc s).1 p)) ≡ true
remove_proc_stale s p v e old room =
    rw (running-remove_proc (get_mlq_proc s).1 p (get_mlq_proc-IsValid s v))
      (ground (arith, running-get_mlq_proc s p v e, member-erase_append p (running s)))

-- In a valid state with 50 entries in the running list, a process that is not among them is
-- dispatched without being listed.
get_mlq_proc_unlisted :
    (s : Sched) (p : ℕ)
    → IsValid s
    → (get_mlq_proc s).0 ≡ some p
    → length (running s) ≡ max_queue_size
    → member p (running s) ≡ false
    → member p (running (get_mlq_proc s).1) ≡ false
get_mlq_proc_unlisted s p v e full new = ground (arith, running-get_mlq_proc s p v e)
