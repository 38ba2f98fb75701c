-- ===== src/Registry.antt =====
-- Mgmt/include/event_handler.h and Mgmt/src/event_handler.c: the handler registry.
-- The global `g_registry` is a record that each function takes and returns; `entries` is the whole
-- array of 64 slots, of which the first `entry_count` are live. A handler is a value of `H` and a
-- context a value of `C`; `none` is NULL. The mutex is not a value: each function's locked region
-- is one step, and `handler_dispatch`, which has two of them, is `begin`, the call, and `finish`.
pub mod Array
pub mod Find
pub mod Search
pub mod Live
pub mod Valid
pub mod Reset
pub mod Views
pub mod Listing
pub mod Dispatch
pub mod Threads
use study_c.Prelude.{
  ℕ, zero, suc, ◌+◌, ◌-◌, ◌%◌, ◌^◌, Bool, true, false, Option, none, some, List, [], ◌∷◌, ◌&&◌,
  Bytes, c_str, str_eq, strncpy, set, get_elem?, replicate, leb, ltb, ◌==◌, if◌then◌else◌, ℤ, pos,
  ret_ok, ret_err, ret_internal, is_zero, is_some,
}
use study_c.Protocol.{
  Request, Response, request_validate, response_latency_us, cmd_max, module_name_size, result_ok,
  result_invalid_cmd, result_module_not_found, result_handler_failed, target_region,
}

abbrev pub max_event_handlers : ℕ
max_event_handlers = 64

-- `EventHandlerEntry`
pub record Entry (H C : Type 0) : Type 0 where
  pub cmd_type : ℕ
  pub module_name : Bytes
  pub handler : Option H
  pub context : Option C
  pub invocation_count : ℕ  -- uint32_t
  pub total_latency_us : ℕ  -- uint64_t

-- `EventHandlerRegistry`, with `g_registry_initialized`
pub record Registry (H C : Type 0) : Type 0 where
  pub entries : List (Entry H C)
  pub entry_count : ℕ
  pub total_dispatches : ℕ  -- uint32_t
  pub total_failures : ℕ  -- uint32_t
  pub initialized : Bool

module _ {H C : Type 0} where
  -- A slot of the array as the program starts.
  abbrev pub blank : Entry H C
  blank = record {
    cmd_type = 0;
    module_name = replicate module_name_size 0;
    handler = none;
    context = none;
    invocation_count = 0;
    total_latency_us = 0;
  }

  -- `g_registry` as the program starts
  unfoldable pub at_start : Registry H C
  at_start = record {
    entries = replicate max_event_handlers blank;
    entry_count = 0;
    total_dispatches = 0;
    total_failures = 0;
    initialized = false;
  }

  -- `mutex_ok` says whether `pthread_mutex_init` returned 0.
  unfoldable pub registry_init : Bool → Registry H C → ℤ × Registry H C
  registry_init mutex_ok r =
      if r.initialized
      then (ret_ok, r)
      else if mutex_ok
      then (
        ret_ok,
        record r { entry_count = 0; total_dispatches = 0; total_failures = 0; initialized = true },
      )
      else (ret_err, r)

  unfoldable pub registry_destroy : Registry H C → Registry H C
  registry_destroy r =
      if r.initialized
      then record r {
        entry_count = 0;
        total_dispatches = 0;
        total_failures = 0;
        initialized = false;
      }
      else r

  -- `entry->cmd_type == cmd_type && strcmp(entry->module_name, module_name) == 0`
  unfoldable pub matches : ℕ → Bytes → Entry H C → Bool
  matches cmd_type module_name e = e.cmd_type == cmd_type && str_eq e.module_name module_name

  -- The search loop: the first of `n` slots that matches, counted from `i`.
  unfoldable pub find_from : ℕ → Bytes → List (Entry H C) → ℕ → ℕ → Option ℕ
  find_from cmd_type module_name es zero i = none
  find_from cmd_type module_name [] (suc n) i = none
  find_from cmd_type module_name (e ∷ es) (suc n) i =
      if matches cmd_type module_name e then some i else find_from cmd_type module_name es n (suc i)

  unfoldable pub find : ℕ → Bytes → Registry H C → Option ℕ
  find cmd_type module_name r = find_from cmd_type module_name r.entries r.entry_count 0

  -- A store through a pointer to slot `i`.
  unfoldable pub update_at : List (Entry H C) → ℕ → (Entry H C → Entry H C) → List (Entry H C)
  update_at es i f = elim (get_elem? es i) [ none ↦ es | some e ↦ set es i (f e) ]

  -- What registration writes into a slot that already has the key.
  abbrev pub rebind : Option H → Option C → Entry H C → Entry H C
  rebind h c e = record e { handler = h; context = c; invocation_count = 0; total_latency_us = 0 }

  -- What it writes into a new slot: the name is cut to 63 bytes.
  abbrev pub fill : ℕ → Bytes → Option H → Option C → Entry H C → Entry H C
  fill cmd_type name h c e = record {
    cmd_type = cmd_type;
    handler = h;
    context = c;
    invocation_count = 0;
    total_latency_us = 0;
    module_name = set (strncpy e.module_name name (module_name_size - 1)) (module_name_size - 1) 0;
  }

  -- The part of `handler_register` under the lock, by what the search found.
  unfoldable pub register_at :
      Option ℕ → Bytes → ℕ → Option H → Option C → Registry H C → ℤ × Registry H C
  register_at (some i) name cmd_type h c r =
      (ret_ok, record r { entries = update_at r.entries i (rebind h c) })
  register_at none name cmd_type h c r =
      if leb max_event_handlers r.entry_count then (ret_err, r) else (
        ret_ok,
        record r {
          entries = update_at r.entries r.entry_count (fill cmd_type name h c);
          entry_count = r.entry_count + 1;
        },
      )

  unfoldable pub register : Option Bytes → ℕ → Option H → Option C → Registry H C → ℤ × Registry H C
  unfolding register_at
  register none cmd_type h c r = (ret_err, r)
  register (some name) cmd_type none c r = (ret_err, r)
  register (some name) cmd_type (some h) c r =
      if leb cmd_max cmd_type
      then (ret_err, r)
      else register_at (find cmd_type name r) name cmd_type (some h) c r

  -- `entries[j] = entries[j + 1]`
  abbrev pub copy_down : List (Entry H C) → ℕ → List (Entry H C)
  copy_down es j = elim (get_elem? es (suc j)) [ none ↦ es | some e ↦ set es j e ]

  -- The loop that closes the gap, from slot `j` on for `rounds` slots.
  unfoldable pub shift_down : List (Entry H C) → ℕ → ℕ → List (Entry H C)
  shift_down es j zero = es
  shift_down es j (suc rounds) = shift_down (copy_down es j) (suc j) rounds

  unfoldable pub unregister_at : Option ℕ → Registry H C → ℤ × Registry H C
  unregister_at none r = (ret_err, r)
  unregister_at (some i) r = (
    ret_ok,
    record r {
      entries = shift_down r.entries i (r.entry_count - 1 - i);
      entry_count = r.entry_count - 1;
    },
  )

  unfoldable pub unregister : Option Bytes → ℕ → Registry H C → ℤ × Registry H C
  unfolding unregister_at
  unregister none cmd_type r = (ret_err, r)
  unregister (some name) cmd_type r = unregister_at (find cmd_type name r) r

  -- `handler_stats`, by whether each out-pointer is given; `none` stands for the return of -1.
  unfoldable pub stats : Bool → Bool → Registry H C → Option (ℕ × ℕ)
  stats want_cmds want_fails r =
      if want_cmds && want_fails then some (r.total_dispatches, r.total_failures) else none

  abbrev pub clear_stats : Entry H C → Entry H C
  clear_stats e = record e { invocation_count = 0; total_latency_us = 0 }

  -- The loop of `handler_stats_reset` over the live slots.
  unfoldable pub clear_first : ℕ → List (Entry H C) → List (Entry H C)
  clear_first zero es = es
  clear_first (suc n) [] = []
  clear_first (suc n) (e ∷ es) = clear_stats e ∷ clear_first n es

  unfoldable pub stats_reset : Registry H C → Registry H C
  stats_reset r = record r {
    total_dispatches = 0;
    total_failures = 0;
    entries = clear_first r.entry_count r.entries;
  }
