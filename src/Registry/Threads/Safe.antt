-- ===== src/Registry/Threads/Safe.antt =====
-- What holds in every state that threads can reach.
use study_c.Prelude.{
  ℕ, zero, suc, ◌≡◌, refl, ap, ◌∙◌, inl, inr, none, some, List, [], ◌∷◌, get_elem?, set, take,
  length-set, ℤ, Option-cases,
}
use study_c.Protocol.{Response, response_latency_us}
use study_c.Registry.{Entry, Registry, update_at}
use study_c.Registry.Find.{live}
use study_c.Registry.Live.{live-update_at, update_at-some}
use study_c.Registry.Valid.{IsValid, at_start-IsValid, register-IsValid, unregister-IsValid}
use study_c.Registry.Reset.{stats_reset-IsValid}
use study_c.Registry.Dispatch.{settle, count_call, finish}
use study_c.Registry.Dispatch.Serve.{finish-IsValid}
use study_c.Registry.Threads.{
  Shared, Step, Reachable, registering, unregistering, resetting, beginning, finishing, start, next,
}

module _ {H C : Type 0} where
  pub set-none :
      (xs : List (Entry H C)) (i : ℕ) (v : Entry H C) → get_elem? xs i ≡ none → set xs i v ≡ xs
  set-none [] i v g = refl
  set-none (x ∷ xs) zero v g = cc
  set-none (x ∷ xs) (suc i) v g = ap (λ t. x ∷ t) (set-none xs i v g)

  get_elem?-of_take :
      (n : ℕ) (xs : List (Entry H C)) (i : ℕ) (e : Entry H C)
      → get_elem? (take n xs) i ≡ some e
      → get_elem? xs i ≡ some e
  unfolding take
  get_elem?-of_take zero xs i e g = cc
  get_elem?-of_take (suc n) [] i e g = g
  get_elem?-of_take (suc n) (x ∷ xs) zero e g = g
  get_elem?-of_take (suc n) (x ∷ xs) (suc i) e g = get_elem?-of_take n xs i e g

  -- The second region of a dispatch keeps the registry valid, whatever slot its pointer means by
  -- then.
  finish_stale-IsValid :
      (i : ℕ) (result : ℤ) (resp : Response) (r : Registry H C)
      → IsValid r
      → IsValid (finish i result resp r).1
  unfolding finish update_at
  finish_stale-IsValid i result resp r v = elim (Option-cases (get_elem? (live r) i)) [
    | inr (e, gl) ↦
        finish-IsValid i result resp r e v (get_elem?-of_take r.entry_count r.entries i e gl) gl
    | inl n ↦ elim (Option-cases (get_elem? r.entries i)) [
      | inl m ↦ record {
        slots = rw (m, update_at) v.slots;
        counted = v.counted;
        all_live = rw (m, update_at) v.all_live;
        distinct = rw (m, update_at) v.distinct;
      }
      | inr (e, g) ↦
          let f = count_call (response_latency_us (some (settle result resp))) in
          let same = live-update_at r i e f g ∙ set-none (live r) i (f e) n in
          record {
            slots = rw (update_at-some r.entries i e f g) (length-set r.entries i (f e) ∙ v.slots);
            counted = v.counted;
            all_live = rw same v.all_live;
            distinct = rw same v.distinct;
          }
    ]
  ]

  Step-IsValid : (s t : Shared H C) → Step H C s t → IsValid s.registry → IsValid t.registry
  Step-IsValid s t (registering _ name cmd h c short) v =
      register-IsValid name cmd h c s.registry short v
  Step-IsValid s t (unregistering _ name cmd) v = unregister-IsValid name cmd s.registry v
  Step-IsValid s t (resetting _) v = stats_reset-IsValid s.registry v
  Step-IsValid s t (beginning _ req req' resp resp' i e) v = v
  Step-IsValid s t (finishing _ before after p result resp e) v =
      finish_stale-IsValid p.slot result resp s.registry v

  -- The registry is valid in every state that any interleaving of registrations (of names of at
  -- most 63 bytes), unregistrations, resets and dispatches can reach from the start, even where a
  -- dispatch counts its call in a slot that another thread has moved or removed.
  pub Reachable-IsValid : (s : Shared H C) → Reachable H C s → IsValid s.registry
  Reachable-IsValid s start = at_start-IsValid
  Reachable-IsValid s (next s' _ r st) = Step-IsValid s' s st (Reachable-IsValid s' r)
