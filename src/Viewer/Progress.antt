-- ===== src/Viewer/Progress.antt =====
-- What holds of the viewer's threads in every order of their steps.
use study_c.Prelude.{ℕ, ◌≤◌, ◌<◌, ◌≡◌, refl, Bool, true, false, List, [], ◌∷◌, ◌&&◌, ◌||◌, arith}
use study_c.Viewer.{
  Viewer, Signal, sigint, sigterm, sigusr1, MainAt, await_ready, start_mgmt, await_request,
  stop_mgmt, kill_signal, write_pipe, join_signal, join_tcp, join_mgmt, finished, SignalAt,
  announcing, waiting, TcpAt, opening, looping, polling, SetUp, Poll, Step, main_goes, signal_goes,
  tcp_opens, tcp_polls, mgmt_goes, mgmt_fails, shutdown_command, arrives, step, main_step,
  signal_step, tcp_open, tcp_round, mgmt_step, mgmt_failure, on_shutdown_command, run, at_start,
}

-- How far main is.
abbrev pub reached : MainAt → ℕ
reached await_ready = 0
reached start_mgmt = 1
reached await_request = 2
reached stop_mgmt = 3
reached kill_signal = 4
reached write_pipe = 5
reached join_signal = 6
reached join_tcp = 7
reached join_mgmt = 8
reached finished = 9

abbrev pub has_announced : SignalAt → Bool
has_announced announcing = false
has_announced waiting = true
has_announced SignalAt.over = true

abbrev pub is_over : SignalAt → Bool
is_over announcing = false
is_over waiting = false
is_over SignalAt.over = true

abbrev pub is_created : TcpAt → Bool
is_created TcpAt.absent = false
is_created opening = true
is_created (looping client) = true
is_created (polling client) = true
is_created TcpAt.over = true

-- Main does not sleep through what it waits for, and behind each line of its shutdown the thread
-- that the line is meant for can see it.
pub record IsSound (v : Viewer) : Type 0 where
  pub ready_seen : reached v.main_at ≡ 0 → (v.signal_thread_ready && v.asleep) ≡ false
  pub awake : reached v.main_at ≡ 1 → v.asleep ≡ false
  pub request_seen : reached v.main_at ≡ 2 → (v.shutdown_requested && v.asleep) ≡ false
  pub announced : has_announced v.signal_at ≡ true → v.signal_thread_ready ≡ true
  pub created : 1 ≤ reached v.main_at → is_created v.tcp_at ≡ true
  pub stopped : 4 ≤ reached v.main_at → v.mgmt_running ≡ false
  pub killed : 5 ≤ reached v.main_at → (is_over v.signal_at || v.pending.usr1) ≡ true
  pub written : 6 ≤ reached v.main_at → 0 < v.pipe_bytes

main_step-IsSound :
    (m : MainAt) (u : SetUp) (v : Viewer) → v.main_at ≡ m → IsSound v → IsSound (main_step m u v)
unfolding main_step
main_step-IsSound await_ready u v e i = ground (arith, i)
main_step-IsSound start_mgmt u v e i = ground (arith, i)
main_step-IsSound await_request u v e i = ground (arith, i)
main_step-IsSound stop_mgmt u v e i = ground (arith, i)
main_step-IsSound kill_signal u v e i = ground (arith, i)
main_step-IsSound write_pipe u v e i = ground (arith, i)
main_step-IsSound join_signal u v e i = ground (arith, i)
main_step-IsSound join_tcp u v e i = ground (arith, i)
main_step-IsSound join_mgmt u v e i = ground (arith, i)
main_step-IsSound finished u v e i = i

signal_step-IsSound :
    (g : SignalAt) (s : Signal) (v : Viewer)
    → v.signal_at ≡ g
    → IsSound v
    → IsSound (signal_step g s v)
unfolding signal_step
signal_step-IsSound announcing s v e i = ground (arith, i)
signal_step-IsSound waiting sigint v e i = ground (arith, i)
signal_step-IsSound waiting sigterm v e i = ground (arith, i)
signal_step-IsSound waiting sigusr1 v e i = ground (arith, i)
signal_step-IsSound SignalAt.over s v e i = i

tcp_open-created : (ok : Bool) (t : TcpAt) → is_created (tcp_open ok t) ≡ is_created t
unfolding tcp_open
tcp_open-created ok t = ground arith

tcp_round-created :
    (p : Poll) (v : Viewer) (t : TcpAt) → is_created (tcp_round p v t) ≡ is_created t
unfolding tcp_round
tcp_round-created p v t = ground arith

tcp-IsSound :
    (v : Viewer) (t : TcpAt)
    → is_created t ≡ is_created v.tcp_at
    → IsSound v
    → IsSound (record v { tcp_at = t })
tcp-IsSound v t e i = ground (arith, i, e)

pub step-IsSound : (s : Step) (v : Viewer) → IsSound v → IsSound (step s v)
unfolding step mgmt_step mgmt_failure on_shutdown_command
step-IsSound (main_goes u) v i = main_step-IsSound v.main_at u v refl i
step-IsSound (signal_goes s) v i = signal_step-IsSound v.signal_at s v refl i
step-IsSound (tcp_opens ok) v i = tcp-IsSound v _ (tcp_open-created ok v.tcp_at) i
step-IsSound (tcp_polls p) v i = tcp-IsSound v _ (tcp_round-created p v v.tcp_at) i
step-IsSound mgmt_goes v i = ground (arith, i)
step-IsSound mgmt_fails v i = ground (arith, i)
step-IsSound shutdown_command v i = ground (arith, i)
step-IsSound (arrives s) v i = ground (arith, i)

run-IsSound : (ss : List Step) (v : Viewer) → IsSound v → IsSound (run ss v)
unfolding run
run-IsSound [] v i = i
run-IsSound (s ∷ ss) v i = run-IsSound ss (step s v) (step-IsSound s v i)

at_start-IsSound : IsSound at_start
at_start-IsSound = ground arith

-- From the creation of the signal thread on, in whatever order the threads of the viewer make their
-- steps, signals arrive and system calls fail: main never sleeps through the readiness of the
-- signal thread or a request to stop; once main has left its wait and made the store, the kill or
-- the write of its shutdown, the management's flag is false, the signal thread has ended or SIGUSR1
-- is pending, and the pipe is not empty.
pub run-at_start-IsSound : (ss : List Step) → IsSound (run ss at_start)
run-at_start-IsSound ss = run-IsSound ss at_start at_start-IsSound
