-- ===== src/Shm/Attach.antt =====
-- SHM/src/shm_api.c and PosixSHM/src/shm_api.c: shm_api_init, shm_api_close and shm_api_destroy in
-- several processes. Each step of a process is one system call of shm_api_init, or one of the other
-- two functions, so the processes' steps can stand in any order. What a call answers is an
-- argument, where the state of the system does not decide it; `error` is any error but EEXIST, and
-- before the first call also a failed malloc.
pub mod Moves
pub mod Once
pub mod Waiting
use study_c.Prelude.{
  ℕ, ◌+◌, Bool, true, false, Option, none, some, List, [], ◌∷◌, ◌==◌, if◌then◌else◌,
}

pub data Answer : Type 0 where
  ok error : Answer

-- A segment: whether it has its size, and how often its mutex was initialised.
pub record Segment : Type 0 where
  pub sized : Bool
  pub inits : ℕ

-- The segments by number, how many were created, and the one that the key or the name stands for.
pub record System : Type 0 where
  pub segments : ℕ → Segment
  pub created : ℕ
  pub name : Option ℕ

-- Where a process stands in shm_api_init: before it, behind the EEXIST of the exclusive call, with
-- the segment open (as its creator, or not), with the size known, and mapped. `attached` is a
-- handle, and `failed` the return of NULL.
pub data Stage : Type 0 where
  outside : Stage
  exists : Stage
  opened : Bool → ℕ → Stage
  measured : Bool → ℕ → Stage
  mapped : Bool → ℕ → Stage
  attached : Bool → ℕ → Stage
  failed : Stage

abbrev pub update {ℓ} : {A : Type ℓ} → (ℕ → A) → ℕ → A → ℕ → A
update f k v n = if n == k then v else f n

-- The exclusive creation, of a segment that has its size at once or not.
abbrev pub create : Bool → System → System × Stage
create sized s = (
  record {
    segments = update s.segments s.created (record { sized = sized; inits = 0 });
    created = s.created + 1;
    name = some s.created;
  },
  opened true s.created,
)

-- The first call, with O_EXCL or IPC_EXCL, and the second without it.
abbrev pub open_first : Bool → System → System × Stage
open_first sized s = elim s.name [ none ↦ create sized s | some i ↦ (s, exists) ]

abbrev pub open_again : System → System × Stage
open_again s = elim s.name [ none ↦ (s, failed) | some i ↦ (s, opened false i) ]

abbrev pub change : ℕ → (Segment → Segment) → System → System
change i f s = record s { segments = update s.segments i (f (s.segments i)) }

-- pthread_mutex_init in the segment, which only the creator calls.
abbrev pub mutex_init : ℕ → System → System
mutex_init i s = change i (λ g. record g { inits = g.inits + 1 }) s

abbrev pub set_size : ℕ → System → System
set_size i s = change i (λ g. record g { sized = true }) s

abbrev pub unlink : System → System
unlink s = record s { name = none }

-- shmctl(IPC_RMID) removes the segment itself.
abbrev pub remove : ℕ → System → System
remove i s = elim s.name [ none ↦ s | some j ↦ if j == i then unlink s else s ]

-- System V: shmget, shmget without IPC_EXCL, shmat, and the mutex or the 10 ms of sleep.
unfoldable pub system_v_init : Answer → System → Stage → System × Stage
system_v_init ok s outside = open_first true s
system_v_init error s outside = (s, failed)
system_v_init ok s exists = open_again s
system_v_init error s exists = (s, failed)
system_v_init ok s (opened creator i) = (s, mapped creator i)
system_v_init error s (opened creator i) = (s, failed)
system_v_init a s (mapped true i) = (mutex_init i s, attached true i)
system_v_init a s (mapped false i) = (s, attached false i)
system_v_init a s (measured creator i) = (s, measured creator i)
system_v_init a s (attached creator i) = (s, attached creator i)
system_v_init a s failed = (s, failed)

-- POSIX: shm_open, shm_open without O_EXCL, ftruncate or one round of the loop around fstat, mmap,
-- and the mutex.
unfoldable pub posix_init : Answer → System → Stage → System × Stage
posix_init ok s outside = open_first false s
posix_init error s outside = (s, failed)
posix_init ok s exists = open_again s
posix_init error s exists = (s, failed)
posix_init ok s (opened true i) = (set_size i s, measured true i)
posix_init error s (opened true i) = (unlink s, failed)
posix_init ok s (opened false i) =
    (s, if (s.segments i).sized then measured false i else opened false i)
posix_init error s (opened false i) = (s, measured false i)
posix_init ok s (measured creator i) = (s, mapped creator i)
posix_init error s (measured creator i) = (s, failed)
posix_init a s (mapped true i) = (mutex_init i s, attached true i)
posix_init a s (mapped false i) = (s, attached false i)
posix_init a s (attached creator i) = (s, attached creator i)
posix_init a s failed = (s, failed)

-- shm_api_close, and shm_api_destroy, which removes the segment or the name where the caller made
-- it.
unfoldable pub close : System → Stage → System × Stage
close s (attached creator i) = (s, outside)
close s st = (s, st)

unfoldable pub system_v_destroy : System → Stage → System × Stage
system_v_destroy s (attached true i) = (remove i s, outside)
system_v_destroy s (attached false i) = (s, outside)
system_v_destroy s st = (s, st)

unfoldable pub posix_destroy : System → Stage → System × Stage
posix_destroy s (attached true i) = (unlink s, outside)
posix_destroy s (attached false i) = (s, outside)
posix_destroy s st = (s, st)

pub data Variant : Type 0 where
  system_v posix : Variant

-- What a process does in a step. A process that failed may start again.
pub data Action : Type 0 where
  going_on : Answer → Action
  closing destroying retrying : Action

abbrev pub retry : System → Stage → System × Stage
retry s failed = (s, outside)
retry s st = (s, st)

unfoldable pub act : Variant → Action → System → Stage → System × Stage
act system_v (going_on a) s st = system_v_init a s st
act posix (going_on a) s st = posix_init a s st
act v closing s st = close s st
act system_v destroying s st = system_v_destroy s st
act posix destroying s st = posix_destroy s st
act v retrying s st = retry s st

-- The system and the processes, by number.
pub record World : Type 0 where
  pub system : System
  pub stage : ℕ → Stage

unfoldable pub world_step : Variant → ℕ → Action → World → World
world_step v p a w =
    let (s, st) = act v a w.system (w.stage p) in record { system = s; stage = update w.stage p st }

unfoldable pub run : Variant → List (ℕ × Action) → World → World
run v [] w = w
run v ((p, a) ∷ steps) w = run v steps (world_step v p a w)

-- No segment, and no process has begun.
abbrev pub at_start : World
at_start = record {
  system = record { segments = λ i. record { sized = false; inits = 0 }; created = 0; name = none };
  stage = λ p. outside;
}
