-- ===== src/Registry/Dispatch/Stale.antt =====
-- What another thread's handler_unregister does to a dispatch that has left its first region.
use study_c.Prelude.{
  ℕ, zero, suc, ◌+◌, ◌-◌, ◌<◌, ◌≡◌, refl, sym, ap, ◌∙◌, false, Option, some, List, [], ◌∷◌, arith,
  get_elem?, Bytes, ℤ,
}
use study_c.Protocol.{Request, Response}
use study_c.Registry.{Entry, Registry, find, unregister, shift_down, matches}
use study_c.Registry.Array.{remove_at, get_elem?-take, get_elem?_of_lt}
use study_c.Registry.Find.{live, Distinct, find_entry-none-get, matches_exchange}
use study_c.Registry.Live.{find-some, live-removed}
use study_c.Registry.Valid.{IsValid}
use study_c.Registry.Dispatch.{call}

module _ {H C : Type 0} where
  get_elem?-remove_at :
      (xs : List (Entry H C)) (i : ℕ) → get_elem? (remove_at xs i) i ≡ get_elem? xs (suc i)
  unfolding remove_at
  get_elem?-remove_at [] i = refl
  get_elem?-remove_at (x ∷ xs) zero = refl
  get_elem?-remove_at (x ∷ xs) (suc i) = get_elem?-remove_at xs i

  Distinct-get :
      (es : List (Entry H C)) (i : ℕ) (e e' : Entry H C)
      → Distinct es
      → get_elem? es i ≡ some e
      → get_elem? es (suc i) ≡ some e'
      → matches e.cmd_type e.module_name e' ≡ false
  Distinct-get [] i e e' d g g' = cc
  Distinct-get (x ∷ es) zero e e' d g g' = ground (
    arith,
    find_entry-none-get e.cmd_type e.module_name es 0 e',
    find_entry-none-get x.cmd_type x.module_name es 0 e',
  )
  Distinct-get (x ∷ es) (suc i) e e' d g g' = Distinct-get es i e e' d.1 g g'

  unregister-entries :
      (cmd : ℕ) (name : Bytes) (r : Registry H C) (i : ℕ)
      → IsValid r
      → find cmd name r ≡ some i
      → i + 1 < r.entry_count
      → get_elem? (unregister (some name) cmd r).1.entries i ≡ get_elem? r.entries (suc i)
  unfolding unregister
  unregister-entries cmd name r i v f h =
      let (d, lt, g, gl, m, fe) = find-some cmd name r i f in
      let gap = shift_down r.entries i (r.entry_count - 1 - i) in
      rw f (
        sym (get_elem?-take (r.entry_count - 1) gap i (omega arith))
        ∙ ap (λ t. get_elem? t i) (live-removed r i lt (omega (arith, v.slots, v.counted)))
        ∙ get_elem?-remove_at (live r) i
        ∙ get_elem?-take r.entry_count r.entries (suc i) (omega arith))

module _ {H C W : Type 0} (invoke : H → Option C → Request → Response → W → ℤ × Response × W) where
  -- A dispatch has found slot `i` for its request and released the lock; then another thread
  -- unregisters that key. Unless the slot was the last one, the call goes to the handler of the
  -- next slot, whose key is not the request's.
  pub call-unregister :
      (cmd : ℕ) (name : Bytes) (req : Request) (resp : Response) (r : Registry H C) (w : W) (i : ℕ)
      → IsValid r
      → find cmd name r ≡ some i
      → i + 1 < r.entry_count
      → (e : Entry H C) × (get_elem? (live r) (suc i) ≡ some e)
        × (matches cmd name e ≡ false)
        × (call invoke i req resp (unregister (some name) cmd r).1 w
            ≡ call invoke (suc i) req resp r w)
  unfolding call
  call-unregister cmd name req resp r w i v f h =
      let (d, lt, g, gl, m, fe) = find-some cmd name r i f in
      let (e, g') = get_elem?_of_lt r.entries (suc i) (omega (arith, v.slots, v.counted)) in
      let gl' : get_elem? (live r) (suc i) ≡ some e =
        get_elem?-take r.entry_count r.entries (suc i) (omega arith) ∙ g' in
      (
        e,
        gl',
        ground
            (arith, Distinct-get (live r) i d e v.distinct gl gl', matches_exchange cmd name d e),
        rw (unregister-entries cmd name r i v f h, call) refl,
      )
