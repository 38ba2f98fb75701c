-- ===== src/Router/SetUp/Exits.antt =====
-- Every exit of the router's main.
use study_c.Prelude.{Bool, true, false, List, [], ◌∷◌, ◌≡◌, refl, ℕ, ◌==◌, ◌&&◌}
use study_c.Lifecycle.{orderly}
use study_c.Router.MainLoop.{Router, Arrival, event_loop, send_shm_quit}
use study_c.Router.SetUp.{
  Resource, log, main_queue, shm, pipe_read, pipe_write, semaphore, signal_thread, worker_thread,
  registry, mgmt_thread, leak_buffer, race_thread, Answers, main, skip_to_cleanup, ending, all_up,
}

abbrev number : Resource → ℕ
number log = 0
number main_queue = 1
number shm = 2
number pipe_read = 3
number pipe_write = 4
number semaphore = 5
number signal_thread = 6
number worker_thread = 7
number registry = 8
number mgmt_thread = 9
number leak_buffer = 10
number race_thread = 11

abbrev pub same : Resource → Resource → Bool
same r s = number r == number s

-- The threads that use a resource.
abbrev pub users : Resource → List Resource
users log = signal_thread ∷ worker_thread ∷ mgmt_thread ∷ []
users main_queue = signal_thread ∷ worker_thread ∷ mgmt_thread ∷ []
users shm = worker_thread ∷ []
users pipe_read = worker_thread ∷ []
users semaphore = signal_thread ∷ []
users registry = mgmt_thread ∷ []
users _ = []

-- The queue that the programs share is left, if there is one.
abbrev pub left_behind : Answers → Bool
left_behind a = a.main_queue_ok && a.shared_queue_ok

abbrev IsOrderly : Answers → List Arrival → Type 0
IsOrderly a arrivals =
    (orderly same users [] [] (main a arrivals).1.events ≡ true)
    × ((main a arrivals).1.shared_queue ≡ left_behind a)

abbrev pub answers :
    Bool
    → Bool
    → Bool
    → Bool
    → Bool
    → Bool
    → Bool
    → Bool
    → Bool
    → Bool
    → Bool
    → Bool
    → Bool
    → Answers
answers z a b c d e f g h i j k q = record {
  main_queue_ok = a;
  shared_queue_ok = z;
  shm_ok = b;
  pipe_ok = c;
  sem_init_ok = d;
  sigmask_ok = e;
  signal_thread_ok = f;
  sem_wait_ok = g;
  worker_thread_ok = h;
  registry_ok = i;
  handlers_ok = j;
  mgmt_thread_ok = k;
  quit_sent = q;
}

-- The exit behind the event loop.
ended :
    (r : Router) (z p q : Bool)
    → r.pipe_open ≡ p
    → (orderly same users [] [] (skip_to_cleanup true (ending r q (all_up z))).1.events ≡ true)
      × ((skip_to_cleanup true (ending r q (all_up z))).1.shared_queue ≡ z)
unfolding send_shm_quit
ended r z true true e = rw e (refl, refl)
ended r z true false e = rw e (refl, refl)
ended r z false true e = rw e (refl, refl)
ended r z false false e = rw e (refl, refl)

served :
    (z q : Bool) (arrivals : List Arrival)
    → IsOrderly (answers z true true true true true true true true true true true q) arrivals
unfolding main
served z q arrivals =
    let r = (event_loop arrivals (all_up z).router).1 in ended r z r.pipe_open q refl

exits :
    (z a b c d e f g h i j k q : Bool) (arrivals : List Arrival)
    → IsOrderly (answers z a b c d e f g h i j k q) arrivals
unfolding main send_shm_quit
exits z false b c d e f g h i j k q arrivals = (refl, refl)
exits z true false c d e f g h i j k q arrivals = (refl, refl)
exits z true true false d e f g h i j k q arrivals = (refl, refl)
exits z true true true false e f g h i j k q arrivals = (refl, refl)
exits z true true true true false f g h i j k q arrivals = (refl, refl)
exits z true true true true true false g h i j k q arrivals = (refl, refl)
exits z true true true true true true false h i j k q arrivals = (refl, refl)
exits z true true true true true true true false i j k q arrivals = (refl, refl)
exits z true true true true true true true true false j k true arrivals = (refl, refl)
exits z true true true true true true true true false j k false arrivals = (refl, refl)
exits z true true true true true true true true true false k true arrivals = (refl, refl)
exits z true true true true true true true true true false k false arrivals = (refl, refl)
exits z true true true true true true true true true true false true arrivals = (refl, refl)
exits z true true true true true true true true true true false false arrivals = (refl, refl)
exits z true true true true true true true true true true true true arrivals =
    served z true arrivals
exits z true true true true true true true true true true true false arrivals =
    served z false arrivals

-- On every path through the router's main, whatever each call answers and whatever events the loop
-- takes: each thing is acquired once and released once (neither end of the pipe is closed twice),
-- only while it is held, and only when the threads that use it are joined. Of the shared segment
-- only the attachment is such a thing; the segment itself stays. At the return nothing else is left
-- but the queue that the programs share, which is there exactly if both calls of msgget succeed,
-- and which main does not remove.
pub router_main-orderly :
    (a : Answers) (arrivals : List Arrival)
    → (orderly same users [] [] (main a arrivals).1.events ≡ true)
      × ((main a arrivals).1.shared_queue ≡ left_behind a)
router_main-orderly a arrivals =
    exits a.shared_queue_ok a.main_queue_ok a.shm_ok a.pipe_ok a.sem_init_ok a.sigmask_ok
      a.signal_thread_ok a.sem_wait_ok a.worker_thread_ok a.registry_ok a.handlers_ok
      a.mgmt_thread_ok a.quit_sent arrivals
