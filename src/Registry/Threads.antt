-- ===== src/Registry/Threads.antt =====
-- The registry of Mgmt/src/event_handler.c under several threads. A step is one region that runs
-- under the lock; a dispatch is two steps, with the handler's call, and any steps of others,
-- between them.
pub mod Safe
pub mod Calls
pub mod Reach
use study_c.Prelude.{ℕ, Option, none, some, List, [], ◌∷◌, ◌++◌, ◌≡◌, ◌≤◌, ℤ, Bytes, c_str, length}
use study_c.Protocol.{Request, Response}
use study_c.Registry.{Registry, at_start, register, unregister, stats_reset}
use study_c.Registry.Dispatch.{begin, chosen, finish}

-- A dispatch between its two regions: the slot it points to, the request, and the prepared
-- response.
pub record Pending : Type 0 where
  pub slot : ℕ
  pub request : Request
  pub response : Response

module _ (H C : Type 0) where
  pub record Shared : Type 0 where
    pub registry : Registry H C
    pub pending : List Pending

  abbrev pub started : Shared
  started = record { registry = at_start; pending = [] }

  -- The result and the response of a handler are any values.
  pub data Step : Shared → Shared → Type 0 where
    registering :
        (s : Shared) (name : Bytes) (cmd : ℕ) (h : Option H) (c : Option C)
        → length (c_str name) ≤ 63
        → Step s (record s { registry = (register (some name) cmd h c s.registry).1 })
    unregistering :
        (s : Shared) (name : Option Bytes) (cmd : ℕ)
        → Step s (record s { registry = (unregister name cmd s.registry).1 })
    resetting : (s : Shared) → Step s (record s { registry = stats_reset s.registry })
    beginning :
        (s : Shared) (req req' : Request) (resp resp' : Response) (i : ℕ)
        → begin (some req) (some resp) s.registry ≡ chosen i req' resp'
        → Step s (record s {
          pending = record { slot = i; request = req'; response = resp' } ∷ s.pending;
        })
    finishing :
        (s : Shared) (before after : List Pending) (p : Pending) (result : ℤ) (resp : Response)
        → s.pending ≡ before ++ (p ∷ after)
        → Step s (record {
          registry = (finish p.slot result resp s.registry).1;
          pending = before ++ after;
        })

  pub data Reachable : Shared → Type 0 where
    start : Reachable started
    next : (s t : Shared) → Reachable s → Step s t → Reachable t
