-- ===== src/Shm.antt =====
-- SHM/src/shm_api.c and PosixSHM/src/shm_api.c: writing to and reading from the shared segment.
-- The two files differ in how the segment is made and in the size of `message` (MAX_PAYLOAD_SIZE,
-- 1024, and 256), which is the argument `size`. A handle that may be NULL, and the segment behind
-- it, is an `Option`. What pthread_mutex_lock answers is an argument. `shm_api_write` aborts by its
-- `assert` on a null message, so `msg` is a string.
pub mod RoundTrip
pub mod Posix
pub mod Attach
use study_c.Prelude.{
  ℕ, ◌-◌, Bool, true, false, Option, none, some, Bytes, snprintf_str, take, ltb, if◌then◌else◌, ℤ,
}

-- `MAX_PAYLOAD_SIZE`
abbrev pub max_payload_size : ℕ
max_payload_size = 1024

-- The answers of pthread_mutex_lock: 0, EOWNERDEAD, and any other.
pub data Locking : Type 0 where
  acquired owner_died failed : Locking

-- `SharedData`, without its mutex and the field `updated`, which nothing reads
pub record SharedData : Type 0 where
  pub status_code : ℤ
  pub message : Bytes

-- After the death of an owner the mutex is made consistent, and is held.
unfoldable pub safe_lock : Locking → Bool
safe_lock acquired = true
safe_lock owner_died = true
safe_lock failed = false

-- What the out-pointers receive: `none` is a null pointer, or one that is not written.
pub record Read : Type 0 where
  pub done : Bool
  pub status : Option ℤ
  pub msg : Option Bytes

abbrev pub status_of : Bool → SharedData → Option ℤ
status_of want shared = if want then some shared.status_code else none

module _ (size : ℕ) where
  unfoldable pub write : Option SharedData → Locking → ℤ → Bytes → Bool × Option SharedData
  write none lock status msg = (false, none)
  write (some shared) lock status msg =
      if safe_lock lock
      then (
        true,
        some (record shared {
          status_code = status;
          message = snprintf_str shared.message msg size;
        }),
      )
      else (false, some shared)

  -- `snprintf(out_msg, max_len, "%.*s", (int)(max_len - 1), message)` where `out` is the old buffer
  abbrev pub read_msg : Bool → SharedData → Option Bytes → Read
  read_msg want shared none = record { done = true; status = status_of want shared; msg = none }
  read_msg want shared (some out) =
      if ltb size 1
      then record { done = false; status = status_of want shared; msg = some out }
      else record {
        done = true;
        status = status_of want shared;
        msg = some (snprintf_str out (take (size - 1) shared.message) size);
      }

  unfoldable pub read : Option SharedData → Locking → Bool → Option Bytes → Read
  read none lock want out = record { done = false; status = none; msg = out }
  read (some shared) lock want out =
      if safe_lock lock
      then read_msg want shared out
      else record { done = false; status = none; msg = out }
