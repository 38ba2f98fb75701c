-- ===== src/Examples/Limits.antt =====
-- The variants of the shared memory, and the emptying of the old queue.
use study_c.Prelude.{◌≡◌, refl, true, false, some, [], ◌∷◌, ◌++◌, arith, pos, codes, replicate}
use study_c.Ipc.Emptying.{empty_old, empty_old_ends}
use study_c.Collector.{data_ready}
use study_c.Router.MainLoop.{quit_message}
use study_c.Shm
use study_c.Shm.{SharedData, Locking, max_payload_size}
use study_c.Shm.Posix.{Agree, safe_lock, read, write, variants-Agree}

abbrev cleared : SharedData
cleared = record { status_code = pos 0; message = replicate 256 0 }

abbrev stale : SharedData
stale = record { status_code = pos 7; message = codes "old" ++ replicate 1021 0 }

locked : safe_lock Locking.owner_died ≡ true
unfolding safe_lock
locked = refl

variants-Agree_example :
    Agree
      (codes "hello")
      (read
        (write (some cleared) Locking.owner_died (pos 100) (codes "hello")).1
        Locking.owner_died
        true
        (some []))
      (Shm.read max_payload_size
        (Shm.write max_payload_size (some stale) Locking.owner_died (pos 100) (codes "hello")).1
        Locking.owner_died
        true
        (some (codes "x")))
variants-Agree_example =
    variants-Agree cleared stale Locking.owner_died Locking.owner_died (pos 100) (codes "hello") []
      (codes "x") locked locked

-- A quit message and a notification of an earlier run, and a notification that arrives meanwhile.
empty_old_ends_example :
    empty_old ([] ∷ (data_ready ∷ []) ∷ [] ∷ [] ∷ []) (quit_message ∷ data_ready ∷ []) ≡ (false, [])
empty_old_ends_example =
    empty_old_ends ([] ∷ (data_ready ∷ []) ∷ [] ∷ [] ∷ []) (quit_message ∷ data_ready ∷ [])
      (omega arith)
