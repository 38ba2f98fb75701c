-- ===== src/Viewer/Shutdown.antt =====
-- How the viewer ends.
use study_c.Prelude.{ℕ, ◌+◌, ◌-◌, ◌*◌, ◌<◌, ◌≡◌, Bool, true, false, ◌||◌, List, [], ◌∷◌}
use study_c.Viewer.{
  Viewer, sigusr1, MainAt, await_ready, join_signal, join_tcp, join_mgmt, SignalAt, announcing,
  waiting, TcpAt, opening, looping, polling, MgmtAt, running, Step, main_goes, signal_goes,
  tcp_opens, tcp_polls, mgmt_goes, run,
}
use study_c.Viewer.Progress.{reached}

abbrev signal_left : SignalAt → ℕ
signal_left announcing = 2
signal_left waiting = 1
signal_left SignalAt.over = 0

abbrev tcp_left : TcpAt → ℕ
tcp_left TcpAt.absent = 3
tcp_left opening = 3
tcp_left (polling client) = 2
tcp_left (looping client) = 1
tcp_left TcpAt.over = 0

abbrev mgmt_left : MgmtAt → ℕ
mgmt_left MgmtAt.absent = 0
mgmt_left running = 1
mgmt_left MgmtAt.over = 0

-- How much the threads have before them.
abbrev left : Viewer → ℕ
left v =
    4 * (9 - reached v.main_at) + signal_left v.signal_at + tcp_left v.tcp_at + mgmt_left v.mgmt_at

-- The threads' own steps: main's, the signal thread's with SIGUSR1, the opening of the TCP thread's
-- socket, a step of its loop, and the management's.
pub data Kind : Type 0 where
  of_main of_signal of_opening of_polling of_mgmt : Kind

abbrev pub is_kind : Kind → Step → Bool
is_kind of_main (main_goes u) = true
is_kind of_signal (signal_goes sigusr1) = true
is_kind of_opening (tcp_opens ok) = true
is_kind of_polling (tcp_polls p) = true
is_kind of_mgmt mgmt_goes = true
is_kind _ _ = false

abbrev pub has_kind : Kind → List Step → Bool
has_kind k [] = false
has_kind k (s ∷ ss) = is_kind k s || has_kind k ss

-- The step that main waits for, or main's own.
abbrev ready_wants : SignalAt → Kind
ready_wants announcing = of_signal
ready_wants _ = of_main

abbrev signal_wants : SignalAt → Kind
signal_wants SignalAt.over = of_main
signal_wants _ = of_signal

abbrev tcp_wants : TcpAt → Kind
tcp_wants TcpAt.over = of_main
tcp_wants (looping client) = of_polling
tcp_wants (polling client) = of_polling
tcp_wants _ = of_opening

abbrev mgmt_wants : MgmtAt → Kind
mgmt_wants running = of_mgmt
mgmt_wants _ = of_main

abbrev wants_at : MainAt → Viewer → Kind
wants_at await_ready v = ready_wants v.signal_at
wants_at join_signal v = signal_wants v.signal_at
wants_at join_tcp v = tcp_wants v.tcp_at
wants_at join_mgmt v = mgmt_wants v.mgmt_at
wants_at _ v = of_main

abbrev Nears : Viewer → Viewer → Type 0
Nears v w = (left w < left v) × (w.shutdown_requested ≡ true)

-- No thread has moved.
abbrev Stays : Viewer → Viewer → Type 0
Stays v w =
    (w.main_at ≡ v.main_at)
    × (w.signal_at ≡ v.signal_at)
    × (w.tcp_at ≡ v.tcp_at)
    × (w.mgmt_at ≡ v.mgmt_at)
    × (w.shutdown_requested ≡ true)

-- A round has every thread's own step in it, in any order and with any other steps between.
abbrev pub IsFair : List Step → Type 0
IsFair ss = (k : Kind) → has_kind k ss ≡ true

abbrev pub AllFair : List (List Step) → Type 0
AllFair [] = Unit {0}
AllFair (ss ∷ rounds) = IsFair ss × AllFair rounds

abbrev pub run_rounds : List (List Step) → Viewer → Viewer
run_rounds [] v = v
run_rounds (ss ∷ rounds) v = run_rounds rounds (run ss v)
