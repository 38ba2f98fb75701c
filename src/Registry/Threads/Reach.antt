-- ===== src/Registry/Threads/Reach.antt =====
-- In every state that threads can reach, a dispatch that is between its regions calls a handler.
use study_c.Prelude.{
  ℕ, ◌≡◌, refl, Option, some, List, [], ◌∷◌, ◌++◌, arith, ℤ, inl, inr, Option-cases, get_elem?,
}
use study_c.Protocol.{Request, Response, response_latency_us}
use study_c.Registry.{Entry, Registry, register, unregister, stats_reset}
use study_c.Registry.Valid.{IsValid}
use study_c.Registry.Dispatch.{settle, count_call, finish, call}
use study_c.Registry.Threads.{
  Pending, Shared, Step, Reachable, registering, unregistering, resetting, beginning, finishing,
  start, next,
}
use study_c.Registry.Threads.Safe.{Reachable-IsValid}
use study_c.Registry.Threads.Calls.{
  IsBound, update_at-IsBound, register-IsBound, unregister-IsBound, clear_first-IsBound,
  begin-IsBound,
}

module _ {H C : Type 0} where
  abbrev pub AllBound : List (Entry H C) → List Pending → Type 0
  AllBound es [] = Unit {0}
  AllBound es (p ∷ ps) = IsBound es p.slot × AllBound es ps

  AllBound-keep :
      (es es' : List (Entry H C)) (ps : List Pending)
      → ((i : ℕ) → IsBound es i → IsBound es' i)
      → AllBound es ps
      → AllBound es' ps
  AllBound-keep es es' [] k a = tt
  AllBound-keep es es' (p ∷ ps) k a = (k p.slot a.0, AllBound-keep es es' ps k a.1)

  AllBound-drop :
      (es : List (Entry H C)) (before after : List Pending) (p : Pending)
      → AllBound es (before ++ (p ∷ after))
      → IsBound es p.slot × AllBound es (before ++ after)
  AllBound-drop es [] after p a = a
  AllBound-drop es (q ∷ before) after p a =
      let (b, rest) = AllBound-drop es before after p a.1 in (b, (a.0, rest))

  finish-IsBound :
      (k : ℕ) (result : ℤ) (resp : Response) (r : Registry H C) (i : ℕ)
      → IsBound r.entries i
      → IsBound (finish k result resp r).1.entries i
  unfolding finish
  finish-IsBound k result resp r i b =
      update_at-IsBound r.entries k i (count_call (response_latency_us (some (settle result resp))))
        (λ e p. p) b

  stats_reset-IsBound :
      (r : Registry H C) (i : ℕ) → IsBound r.entries i → IsBound (stats_reset r).entries i
  unfolding stats_reset
  stats_reset-IsBound r i b = clear_first-IsBound r.entry_count r.entries i b

  Step-AllBound :
      (s t : Shared H C)
      → Step H C s t
      → IsValid s.registry
      → AllBound s.registry.entries s.pending
      → AllBound t.registry.entries t.pending
  Step-AllBound s t (registering _ name cmd h c short) v a =
      AllBound-keep s.registry.entries (register (some name) cmd h c s.registry).1.entries s.pending
        (register-IsBound name cmd h c s.registry) a
  Step-AllBound s t (unregistering _ name cmd) v a =
      AllBound-keep s.registry.entries (unregister name cmd s.registry).1.entries s.pending
        (λ i b. unregister-IsBound name cmd s.registry i v b) a
  Step-AllBound s t (resetting _) v a =
      AllBound-keep s.registry.entries (stats_reset s.registry).entries s.pending
        (stats_reset-IsBound s.registry) a
  Step-AllBound s t (beginning _ req req' resp resp' i e) v a =
      (begin-IsBound req req' resp resp' s.registry i v e, a)
  Step-AllBound s t (finishing _ before after p result resp e) v a =
      let (b, rest) = AllBound-drop s.registry.entries before after p (rw (← e) a) in
      AllBound-keep s.registry.entries (finish p.slot result resp s.registry).1.entries
        (before ++ after) (finish-IsBound p.slot result resp s.registry) rest

  Reachable-AllBound : (s : Shared H C) → Reachable H C s → AllBound s.registry.entries s.pending
  Reachable-AllBound s start = tt
  Reachable-AllBound s (next s' _ r st) =
      Step-AllBound s' s st (Reachable-IsValid s' r) (Reachable-AllBound s' r)

module _ {H C W : Type 0} (invoke : H → Option C → Request → Response → W → ℤ × Response × W) where
  -- In every state that any interleaving of registrations under names of at most 63 bytes,
  -- unregistrations, resets and dispatches can reach from the start, a dispatch that has left its
  -- first region and not yet entered its second one can make its call: its slot lies in the array,
  -- and the handler there is not null. (Which handler it is may have changed.)
  pub Reachable-call :
      (s : Shared H C) (before after : List Pending) (p : Pending) (w : W)
      → Reachable H C s
      → s.pending ≡ before ++ (p ∷ after)
      → (h : H) × (e : Entry H C) × (get_elem? s.registry.entries p.slot ≡ some e)
        × (call invoke p.slot p.request p.response s.registry w
            ≡ some (invoke h e.context p.request p.response w))
  unfolding call
  Reachable-call s before after p w r q =
      let a = Reachable-AllBound s r in
      let ((e, g, b), rest) = AllBound-drop s.registry.entries before after p (rw (← q) a) in
      elim (Option-cases e.handler) [
        | inl n ↦ absurd (ground (arith, n, b))
        | inr (h, m) ↦ (h, e, g, rw (call, g, m) refl)
      ]
