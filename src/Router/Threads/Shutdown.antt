-- ===== src/Router/Threads/Shutdown.antt =====
-- How the router ends.
use study_c.Prelude.{◌+◌, ◌*◌, ◌≤◌, ◌≡◌, true, List, arith, length}
use study_c.Collector.{Link}
use study_c.Router.Relay.Stop.{AllNotify}
use study_c.Router.Threads.{finished, Step, run, at_start}
use study_c.Router.Threads.Sound.{AllTold, run-IsSound, at_start-IsSound}
use study_c.Router.Threads.Measure.{is_stopping, left-le}
use study_c.Router.Threads.Rounds.{Round, AllRegular, steps, rounds_end}

-- The router cannot hang in its shutdown, if its shared queue holds only notifications at first,
-- and no quit message is refused by that queue or taken out of it by another process: take any
-- state that any order of its threads' steps, of datagrams, signals, SHUTDOWN commands, failing
-- calls and quit messages of other routers leads to, in which main is behind its event loop, the
-- flag is cleared, or a message that ends the loop is in the main queue. From there rounds in which
-- each thread makes one step, main's msgrcv is not interrupted, the worker's does not fail and the
-- quit message is taken, bring main behind its joins, whatever connect, send, the lock and the
-- signals do in them. It takes at most 30 rounds, one for each waiting notification and two for
-- each message in the main queue.
pub router_shutdown_completes :
    (link : Link) (xs : List Step) (rs : List Round)
    → AllNotify link.queue
    → AllTold xs
    → AllRegular rs
    → is_stopping (run xs (at_start link)) ≡ true
    → 30
        + 2 * length (run xs (at_start link)).worker.main_queue
        + length (run xs (at_start link)).worker.link.queue
      ≤ length rs
    → (run (steps rs) (run xs (at_start link))).main_at ≡ finished
router_shutdown_completes link xs rs n t g h l =
    let s = run xs (at_start link) in
    let i = run-IsSound xs (at_start link) t (at_start-IsSound link n) in
    rounds_end rs s g h i (omega (arith, left-le s i))
