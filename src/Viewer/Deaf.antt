-- ===== src/Viewer/Deaf.antt =====
-- How the viewer gets deaf to signals.
use study_c.Prelude.{◌≡◌, ◌≢◌, refl, false, List, [], ◌∷◌, arith}
use study_c.Viewer.{
  Viewer, await_request, SignalAt, Step, main_goes, signal_goes, tcp_opens, tcp_polls, mgmt_goes,
  mgmt_fails, shutdown_command, arrives, step, main_step, signal_step, tcp_open, tcp_round,
  mgmt_step, mgmt_failure, run,
}

-- Nothing but signals and the other threads' own steps.
abbrev pub NoCommand : List Step → Type 0
NoCommand [] = Unit {0}
NoCommand (s ∷ ss) = (s ≢ shutdown_command) × NoCommand ss

-- The signal thread is gone, and main waits for a request that nobody has made.
pub record IsDeaf (v : Viewer) : Type 0 where
  pub gone : v.signal_at ≡ SignalAt.over
  pub waits : v.main_at ≡ await_request
  pub unasked : v.shutdown_requested ≡ false

step-IsDeaf : (s : Step) (v : Viewer) → s ≢ shutdown_command → IsDeaf v → IsDeaf (step s v)
unfolding step main_step signal_step tcp_open tcp_round mgmt_step mgmt_failure
step-IsDeaf (main_goes u) v n d = ground (arith, d)
step-IsDeaf (signal_goes s) v n d = ground (arith, d)
step-IsDeaf (tcp_opens ok) v n d = ground (arith, d)
step-IsDeaf (tcp_polls p) v n d = ground (arith, d)
step-IsDeaf mgmt_goes v n d = ground (arith, d)
step-IsDeaf mgmt_fails v n d = ground (arith, d)
step-IsDeaf shutdown_command v n d = absurd (n refl)
step-IsDeaf (arrives s) v n d = ground (arith, d)

-- Where the signal thread has ended, main waits for a request to stop and none is made, no signal
-- ends the viewer any more: main waits on, whatever signals arrive and whatever the threads do, as
-- long as no SHUTDOWN command comes.
pub signals_unheard :
    (ss : List Step) (v : Viewer) → IsDeaf v → NoCommand ss → (run ss v).main_at ≡ await_request
unfolding run
signals_unheard [] v d n = d.waits
signals_unheard (s ∷ ss) v d n = signals_unheard ss (step s v) (step-IsDeaf s v n.0 d) n.1
