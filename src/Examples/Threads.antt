-- ===== src/Examples/Threads.antt =====
-- Runs of the viewer's threads, and of processes that attach the shared segment.
use study_c.Prelude.{ℕ, ◌≤◌, ◌≡◌, refl, inl, inr, true, false, none, some, List, [], ◌∷◌, arith}
use study_c.Shm.Attach.{
  ok, error, system_v, posix, Action, going_on, World, run, world_step, act, system_v_init,
  posix_init, opened, attached, at_start,
}
use study_c.Shm.Attach.Moves.{creating}
use study_c.Shm.Attach.Once.{run_once}
use study_c.Shm.Attach.Waiting.{IsStuck, waits_for_ever}
use study_c.Viewer.{
  Viewer, Step, SetUp, main_goes, signal_goes, tcp_opens, tcp_polls, mgmt_goes, quiet, arrives,
  sigusr1, sigterm, MainAt, SignalAt, main_step, signal_step,
}
use study_c.Viewer
use study_c.Viewer.Deaf.{IsDeaf, signals_unheard}

abbrev go : Action
go = going_on ok

-- Process 0 creates the segment, and process 1 attaches it before 0 has initialised the mutex.
abbrev race : List (ℕ × Action)
race = (0, go) ∷ (1, go) ∷ (1, go) ∷ (1, go) ∷ (1, go) ∷ []

run_once_example :
    let w = run system_v race at_start in
    ((i : ℕ) → (w.system.segments i).inits ≤ 1)
    × ((p i : ℕ) → creating (w.stage p) ≡ some i → (w.system.segments i).inits ≡ 0)
    × ((p q i : ℕ) → creating (w.stage p) ≡ some i → creating (w.stage q) ≡ some i → p ≡ q)
run_once_example = run_once system_v race

-- It then has a handle to a segment whose mutex is not initialised.
race_lost :
    ((run system_v race at_start).stage 1 ≡ attached false 0)
    × (((run system_v race at_start).system.segments 0).inits ≡ 0)
unfolding run world_step act system_v_init
race_lost = (refl, refl)

-- Process 0 creates the segment and cannot attach it; process 1 attaches what nobody will
-- initialise.
abbrev deserted : List (ℕ × Action)
deserted = (0, go) ∷ (0, going_on error) ∷ (1, go) ∷ (1, go) ∷ (1, go) ∷ (1, go) ∷ []

deserted_attached :
    ((run system_v deserted at_start).stage 1 ≡ attached false 0)
    × (((run system_v deserted at_start).system.segments 0).inits ≡ 0)
    × (creating ((run system_v deserted at_start).stage 0) ≡ none)
unfolding run world_step act system_v_init
deserted_attached = (refl, refl, refl)

-- Process 1 opens the segment, and then the creator's ftruncate fails.
abbrev orphan : World
orphan = run posix ((0, go) ∷ (1, go) ∷ (1, go) ∷ (0, going_on error) ∷ []) at_start

orphan-IsStuck : IsStuck 1 0 orphan
unfolding run world_step act posix_init
orphan-IsStuck = record {
  waits = refl;
  unsized = refl;
  known = omega arith;
  orphaned = λ q. ground arith;
}

waits_for_ever_example :
    (run posix ((1, go) ∷ (0, go) ∷ (1, go) ∷ []) orphan).stage 1 ≡ opened false 0
waits_for_ever_example =
    waits_for_ever 1 0 orphan ((1, go) ∷ (0, go) ∷ (1, go) ∷ []) orphan-IsStuck
      (inr refl, (inl (ground arith), (inr refl, tt)))

abbrev all_well : SetUp
all_well = record { registry_ok = true; handlers_ok = true; thread_ok = true }

-- The viewer starts and takes a SIGTERM.
abbrev terminated : List Step
terminated =
    main_goes all_well
    ∷ signal_goes sigterm
    ∷ main_goes all_well
    ∷ main_goes all_well
    ∷ main_goes all_well
    ∷ arrives sigterm
    ∷ signal_goes sigterm
    ∷ []

-- The management's thread first, main last, and a signal between.
abbrev round : List Step
round =
    mgmt_goes
    ∷ tcp_polls quiet
    ∷ arrives sigterm
    ∷ tcp_opens true
    ∷ signal_goes sigusr1
    ∷ main_goes all_well
    ∷ []

-- It starts and takes a SIGUSR1 from outside.
abbrev deafened : Viewer
deafened =
    Viewer.run
      (main_goes all_well
        ∷ signal_goes sigterm
        ∷ main_goes all_well
        ∷ main_goes all_well
        ∷ main_goes all_well
        ∷ arrives sigusr1
        ∷ signal_goes sigusr1
        ∷ [])
      Viewer.at_start

deafened-IsDeaf : IsDeaf deafened
unfolding Viewer.run Viewer.step main_step signal_step
deafened-IsDeaf = record { gone = refl; waits = refl; unasked = refl }

signals_unheard_example :
    (Viewer.run (arrives sigterm ∷ signal_goes sigterm ∷ []) deafened).main_at
    ≡ MainAt.await_request
signals_unheard_example =
    signals_unheard (arrives sigterm ∷ signal_goes sigterm ∷ []) deafened deafened-IsDeaf
      (ground arith, (ground arith, tt))
