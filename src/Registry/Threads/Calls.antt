-- ===== src/Registry/Threads/Calls.antt =====
-- The slots of the handler table that hold a handler: no operation of the registry empties one.
use study_c.Prelude.{
  ℕ, zero, suc, ◌+◌, ◌-◌, ◌≤◌, ◌<◌, ◌≡◌, refl, ◌∙◌, inl, inr, true, Option, none, some, List, [],
  ◌∷◌, arith, get_elem?, set, Option-cases, Bool-cases, is_some, leb, Bytes,
}
use study_c.Protocol.{Request, Response, target_region, request_validate, cmd_max}
use study_c.Registry.{
  Entry, Registry, register, register_at, unregister, unregister_at, clear_first, clear_stats, find,
  update_at, rebind, fill, copy_down, shift_down, max_event_handlers,
}
use study_c.Registry.Array.{get_elem?-take, get_elem?_of_lt}
use study_c.Registry.Find.{live}
use study_c.Registry.Live.{find-some}
use study_c.Registry.Valid.{IsValid, AllLive-get}
use study_c.Registry.Dispatch.{begin, chosen}
use study_c.Registry.Threads.Safe.{set-none}

module _ {H C : Type 0} where
  abbrev HasHandler : Entry H C → Type 0
  HasHandler e = is_some e.handler ≡ true

  -- Slot `i` lies in the array and its handler is not null.
  abbrev pub IsBound : List (Entry H C) → ℕ → Type 0
  IsBound es i = (e : Entry H C) × (get_elem? es i ≡ some e) × HasHandler e

  set-IsBound :
      (es : List (Entry H C)) (k : ℕ) (v e : Entry H C) (i : ℕ)
      → get_elem? es k ≡ some e
      → (HasHandler e → HasHandler v)
      → IsBound es i
      → IsBound (set es k v) i
  set-IsBound [] k v e i g h b = cc
  set-IsBound (x ∷ es) zero v e zero g h (d, p, q) = (v, refl, h (ground (arith, g, p, q)))
  set-IsBound (x ∷ es) zero v e (suc i) g h b = b
  set-IsBound (x ∷ es) (suc k) v e zero g h b = b
  set-IsBound (x ∷ es) (suc k) v e (suc i) g h b = set-IsBound es k v e i g h b

  pub update_at-IsBound :
      (es : List (Entry H C)) (k i : ℕ) (f : Entry H C → Entry H C)
      → ((e : Entry H C) → HasHandler e → HasHandler (f e))
      → IsBound es i
      → IsBound (update_at es k f) i
  unfolding update_at
  update_at-IsBound es k i f h b = elim (Option-cases (get_elem? es k)) [
    | inl n ↦ rw (n, update_at) b
    | inr (e, g) ↦ rw (g, update_at) (set-IsBound es k (f e) e i g (h e) b)
  ]

  copy_down-IsBound :
      (es : List (Entry H C)) (j i : ℕ)
      → IsBound es (suc j)
      → IsBound es i
      → IsBound (copy_down es j) i
  copy_down-IsBound es j i (d, g, q) b = elim (Option-cases (get_elem? es j)) [
    | inl n ↦ rw (g, copy_down, set-none es j d n) b
    | inr (e, g') ↦ rw (g, copy_down) (set-IsBound es j d e i g' (λ x. q) b)
  ]

  shift_down-IsBound :
      (es : List (Entry H C)) (j rounds i : ℕ)
      → ((k : ℕ) → j < k → k ≤ j + rounds → IsBound es k)
      → IsBound es i
      → IsBound (shift_down es j rounds) i
  unfolding shift_down
  shift_down-IsBound es j zero i h b = b
  shift_down-IsBound es j (suc rounds) i h b =
      let next_one = h (suc j) (omega arith) (omega arith) in
      shift_down-IsBound (copy_down es j) (suc j) rounds i
        (λ k p q. copy_down-IsBound es j k next_one (h k (omega arith) (omega arith)))
        (copy_down-IsBound es j i next_one b)

  live-IsBound : (r : Registry H C) (i : ℕ) → IsValid r → i < r.entry_count → IsBound r.entries i
  live-IsBound r i v h =
      let (e, g) = get_elem?_of_lt r.entries i (omega (arith, v.slots, v.counted)) in
      (
        e,
        g,
        (AllLive-get (live r) i e v.all_live
            (get_elem?-take r.entry_count r.entries i h ∙ g)).bound,
      )

  register_at-IsBound :
      (o : Option ℕ) (name : Bytes) (cmd : ℕ) (h : H) (c : Option C) (r : Registry H C) (i : ℕ)
      → IsBound r.entries i
      → IsBound (register_at o name cmd (some h) c r).1.entries i
  unfolding register_at
  register_at-IsBound (some k) name cmd h c r i b =
      update_at-IsBound r.entries k i (rebind (some h) c) (λ e p. refl) b
  register_at-IsBound none name cmd h c r i b =
      elim (Bool-cases (leb max_event_handlers r.entry_count)) [
        | inl full ↦ rw full b
        | inr room ↦
            rw room (
              update_at-IsBound r.entries r.entry_count i (fill cmd name (some h) c) (λ e p. refl)
                b)
      ]

  pub register-IsBound :
      (name : Bytes) (cmd : ℕ) (h : Option H) (c : Option C) (r : Registry H C) (i : ℕ)
      → IsBound r.entries i
      → IsBound (register (some name) cmd h c r).1.entries i
  unfolding register
  register-IsBound name cmd none c r i b = b
  register-IsBound name cmd (some h) c r i b = elim (Bool-cases (leb cmd_max cmd)) [
    | inl big ↦ rw big b
    | inr small ↦ rw small (register_at-IsBound (find cmd name r) name cmd h c r i b)
  ]

  unregister_at-IsBound :
      (o : Option ℕ) (r : Registry H C) (i : ℕ)
      → IsValid r
      → IsBound r.entries i
      → IsBound (unregister_at o r).1.entries i
  unfolding unregister_at
  unregister_at-IsBound none r i v b = b
  unregister_at-IsBound (some k) r i v b =
      shift_down-IsBound r.entries k (r.entry_count - 1 - k) i
        (λ j p q. live-IsBound r j v (omega arith)) b

  pub unregister-IsBound :
      (name : Option Bytes) (cmd : ℕ) (r : Registry H C) (i : ℕ)
      → IsValid r
      → IsBound r.entries i
      → IsBound (unregister name cmd r).1.entries i
  unfolding unregister
  unregister-IsBound none cmd r i v b = b
  unregister-IsBound (some name) cmd r i v b = unregister_at-IsBound (find cmd name r) r i v b

  pub clear_first-IsBound :
      (n : ℕ) (es : List (Entry H C)) (i : ℕ) → IsBound es i → IsBound (clear_first n es) i
  unfolding clear_first
  clear_first-IsBound zero es i b = b
  clear_first-IsBound (suc n) [] i b = b
  clear_first-IsBound (suc n) (x ∷ es) zero (d, p, q) = (clear_stats x, refl, ground (arith, p, q))
  clear_first-IsBound (suc n) (x ∷ es) (suc i) b = clear_first-IsBound n es i b

  pub begin-IsBound :
      (req req' : Request) (resp resp' : Response) (r : Registry H C) (i : ℕ)
      → IsValid r
      → begin (some req) (some resp) r ≡ chosen i req' resp'
      → IsBound r.entries i
  unfolding begin
  begin-IsBound req req' resp resp' r i v e = elim (Bool-cases (request_validate (some req))) [
    | inr bad ↦ absurd (ground (arith, e))
    | inl ok ↦ elim (Option-cases (find req.cmd_type (target_region req) r)) [
      | inl n ↦ absurd (ground (arith, e))
      | inr (k, f) ↦
          let (d, lt, g, gl, m, fe) = find-some req.cmd_type (target_region req) r k f in
          let same : k ≡ i = ground (arith, e) in live-IsBound r i v (omega arith)
    ]
  ]
