-- ===== src/Router/SetUp.antt =====
-- Router/src/main.c: the function main around the event loop: what it acquires, and the ladder of
-- its exits. What the calls answer is an argument. Faults has what the build option
-- ENABLE_FAULT_INJECTION adds.
pub mod Exits
pub mod Faults
use study_c.Prelude.{Bool, true, false, not, List, [], ◌∷◌, ◌++◌, ◌&&◌, ◌==◌, ℕ, if◌then◌else◌}
use study_c.Lifecycle.{Event, acquire, release}
use study_c.Router.MainLoop.{
  Router, Arrival, event_loop, after_loop, send_shm_quit, close_pipe, stop_running,
}

-- `shm` is the attachment, which shm_api_close ends; the segment itself is in Shm/Attach.antt.
pub data Resource : Type 0 where
  log main_queue shm pipe_read pipe_write semaphore signal_thread worker_thread registry mgmt_thread
        leak_buffer race_thread :
      Resource

-- What succeeds.
pub record Answers : Type 0 where
  pub main_queue_ok : Bool
  pub shared_queue_ok : Bool
  pub shm_ok : Bool
  pub pipe_ok : Bool
  pub sem_init_ok : Bool
  pub sigmask_ok : Bool
  pub signal_thread_ok : Bool
  pub sem_wait_ok : Bool
  pub worker_thread_ok : Bool
  pub registry_ok : Bool
  pub handlers_ok : Bool
  pub mgmt_thread_ok : Bool
  pub quit_sent : Bool

-- The events so far, whether the queue that the programs share is there (msgget with IPC_CREAT
-- makes it or finds it), the variables that the exits test, and what the event loop changes.
pub record Main : Type 0 where
  pub events : List (Event Resource)
  pub shared_queue : Bool
  pub fail_leak : Bool
  pub leak_buf : Bool
  pub router_started : Bool
  pub t2_created : Bool
  pub t3_created : Bool
  pub t_mgmt_created : Bool
  pub registry_initialized : Bool
  pub sem_initialized : Bool
  pub pipe_read_open : Bool
  pub router : Router

abbrev pub note : Event Resource → Main → Main
note e m = record m { events = m.events ++ (e ∷ []) }

abbrev pub note_if : Bool → Event Resource → Main → Main
note_if true e m = note e m
note_if false e m = m

-- The labels, from the last: the exit code and the state.
abbrev pub cleanup_log : Bool → Main → Bool × Main
cleanup_log ret m =
    let m' = note_if (not m.fail_leak && m.leak_buf) (release leak_buffer) m in
    (ret, note (release log) (note_if m'.registry_initialized (release registry) m'))

abbrev pub cleanup_main_msq : Bool → Main → Bool × Main
cleanup_main_msq ret m = cleanup_log ret (note (release main_queue) m)

abbrev pub cleanup_shm : Bool → Main → Bool × Main
cleanup_shm ret m = cleanup_main_msq ret (note (release shm) m)

abbrev pub cleanup_pipe : Bool → Main → Bool × Main
cleanup_pipe ret m = cleanup_shm ret (
    note_if m.router.pipe_open (release pipe_write)
      (note_if m.pipe_read_open (release pipe_read) m))

abbrev pub cleanup_sem : Bool → Main → Bool × Main
cleanup_sem ret m = cleanup_pipe ret (note_if m.sem_initialized (release semaphore) m)

abbrev pub cleanup_t2 : Bool → Main → Bool × Main
cleanup_t2 ret m = cleanup_sem ret (note_if m.t2_created (release signal_thread) m)

abbrev pub skip_to_cleanup : Bool → Main → Bool × Main
skip_to_cleanup ret m = cleanup_t2 ret (note_if m.t3_created (release worker_thread) m)

-- `if (g_shutdown_pipe[1] != -1) { close(..); .. = -1; }`, as the event that it is.
abbrev pub shut_pipe : Main → Main
shut_pipe m =
    let m' = note_if m.router.pipe_open (release pipe_write) m in
    record m' { router = close_pipe m.router }

abbrev pub with_router : (Router → Router) → Main → Main
with_router f m = record m { router = f m.router }

-- From the event loop to the joining of the management thread. The loop closes the pipe or leaves
-- it, and `r` is what it leaves.
abbrev pub ending : Router → Bool → Main → Main
ending r told m =
    let m1 = record (note_if (m.router.pipe_open && not r.pipe_open) (release pipe_write) m) {
      router = r;
    } in
    let m2 = shut_pipe (with_router stop_running m1) in
    let m3 = if m2.router_started then with_router (send_shm_quit told) m2 else m2 in
    note_if m3.t_mgmt_created (release mgmt_thread) m3

abbrev pub serve : List Arrival → Bool → Main → Main
serve arrivals told m = ending (event_loop arrivals m.router).1 told m

-- `if (!mgmt_ok)`
abbrev pub give_up : Bool → Main → Main
give_up told m = shut_pipe (with_router (send_shm_quit told) (with_router stop_running m))

abbrev pub with_pipe : Main → Main
with_pipe m = record (note (acquire pipe_write) (note (acquire pipe_read) m)) {
  pipe_read_open = true;
  router = record (m.router) { pipe_open = true };
}

-- From the management's set-up on.
abbrev pub manage : Answers → List Arrival → Main → Bool × Main
manage a arrivals m =
    let m' =
      if a.registry_ok
      then record (note (acquire registry) m) { registry_initialized = true }
      else m in
    if a.registry_ok && a.handlers_ok && a.mgmt_thread_ok
    then skip_to_cleanup true (
        serve arrivals a.quit_sent
          (record (note (acquire mgmt_thread) m') { t_mgmt_created = true }))
    else skip_to_cleanup false (give_up a.quit_sent m')

-- The threads, whose creation comes behind that of the semaphore. `exit` takes an exit's result,
-- and `rest` is what follows.
abbrev pub start_threads {ℓ} : {R : Type ℓ} → (Bool × Main → R) → (Main → R) → Answers → Main → R
start_threads exit rest a m =
    if not (a.sigmask_ok && a.signal_thread_ok)
    then exit (cleanup_sem false m)
    else let m' = record (note (acquire signal_thread) m) { t2_created = true } in
      if not (a.sem_wait_ok && a.worker_thread_ok)
      then exit (cleanup_t2 false m')
      else rest
          (record (note (acquire worker_thread) m') { t3_created = true; router_started = true })

abbrev pub at_start : Main
at_start = record {
  events = [];
  shared_queue = false;
  fail_leak = false;
  leak_buf = false;
  router_started = false;
  t2_created = false;
  t3_created = false;
  t_mgmt_created = false;
  registry_initialized = false;
  sem_initialized = false;
  pipe_read_open = false;
  router = record { keep_running = true; pipe_open = false; ipc_queue = [] };
}

-- The state in which everything has succeeded.
abbrev pub all_up : Bool → Main
all_up q =
    record (note (acquire mgmt_thread) (
      note (acquire registry) (
        note (acquire worker_thread) (
          note (acquire signal_thread) (
            note (acquire semaphore) (
              with_pipe (
                note (acquire shm)
                  (note (acquire main_queue) (note (acquire log) at_start))))))))) {
                    shared_queue = q;
                    router_started = true;
                    t2_created = true;
                    t3_created = true;
                    t_mgmt_created = true;
                    registry_initialized = true;
                    sem_initialized = true;
                  }

-- The lines from log_init on to the management's set-up.
unfoldable pub set_up {ℓ} : {R : Type ℓ} → (Bool × Main → R) → (Main → R) → Answers → Main → R
set_up exit rest a m0 =
    let m = note (acquire log) m0 in
    if not a.main_queue_ok
    then exit (cleanup_log false m)
    else let m1 = record (note (acquire main_queue) m) { shared_queue = a.shared_queue_ok } in
      if not a.shm_ok
      then exit (cleanup_main_msq false m1)
      else let m2 = note (acquire shm) m1 in
        if not a.pipe_ok
        then exit (cleanup_shm false m2)
        else let m3 = with_pipe m2 in
          if not a.sem_init_ok
          then exit (cleanup_pipe false m3)
          else start_threads exit rest a
              (record (note (acquire semaphore) m3) { sem_initialized = true })

-- main: whether it returns EXIT_SUCCESS, and the state it ends in.
unfoldable pub main : Answers → List Arrival → Bool × Main
unfolding set_up
main a arrivals = set_up (λ x. x) (manage a arrivals) a at_start
