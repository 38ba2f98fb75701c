-- ===== src/Registry/Live.antt =====
-- How the live entries change when a slot is written, added or removed.
use study_c.Prelude.{
  ℕ, suc, ◌+◌, ◌-◌, ◌≤◌, ◌<◌, ◌≡◌, ◌∙◌, true, none, some, List, [], ◌∷◌, ◌++◌, arith, length,
  get_elem?, set, take, Bytes,
}
use study_c.Registry.{Entry, Registry, find, update_at, shift_down, matches}
use study_c.Registry.Array.{remove_at, take-set, take-set_next, get_elem?-take, take-shift_down}
use study_c.Registry.Find.{live, find_entry, find_from-some, find_from-none}

module _ {H C : Type 0} where
  pub update_at-some :
      (es : List (Entry H C)) (i : ℕ) (e : Entry H C) (f : Entry H C → Entry H C)
      → get_elem? es i ≡ some e
      → update_at es i f ≡ set es i (f e)
  unfolding update_at
  update_at-some es i e f g = rw (g, update_at)

  -- What the search found, read off the live entries.
  pub find-some :
      (cmd : ℕ) (name : Bytes) (r : Registry H C) (i : ℕ)
      → find cmd name r ≡ some i
      → (e : Entry H C) × (i < r.entry_count)
        × (get_elem? r.entries i ≡ some e)
        × (get_elem? (live r) i ≡ some e)
        × (matches cmd name e ≡ true)
        × (find_entry cmd name (live r) ≡ some e)
  unfolding find
  find-some cmd name r i h =
      let (j, e, p, q, g, m, f) = find_from-some cmd name r.entries r.entry_count 0 {k = i} h in
      let ij : i ≡ j = omega arith in
      (e, omega arith, rw ij g, rw ij (get_elem?-take r.entry_count r.entries j q ∙ g), m, f)

  pub find-none :
      (cmd : ℕ) (name : Bytes) (r : Registry H C)
      → find cmd name r ≡ none
      → find_entry cmd name (live r) ≡ none
  unfolding find
  find-none cmd name r h = find_from-none cmd name r.entries r.entry_count 0 h

  -- The three ways in which the live entries change.
  pub live-update_at :
      (r : Registry H C) (i : ℕ) (e : Entry H C) (f : Entry H C → Entry H C)
      → get_elem? r.entries i ≡ some e
      → take r.entry_count (update_at r.entries i f) ≡ set (live r) i (f e)
  live-update_at r i e f g =
      rw (update_at-some r.entries i e f g) (take-set r.entry_count r.entries i (f e))

  pub live-added :
      (r : Registry H C) (e : Entry H C) (f : Entry H C → Entry H C)
      → r.entry_count < length r.entries
      → get_elem? r.entries r.entry_count ≡ some e
      → take (r.entry_count + 1) (update_at r.entries r.entry_count f) ≡ live r ++ (f e ∷ [])
  live-added r e f h g =
      let e1 : r.entry_count + 1 ≡ suc r.entry_count = omega arith in
      rw (update_at-some r.entries r.entry_count e f g, e1)
        (take-set_next r.entry_count r.entries (f e) h)

  removed :
      (es : List (Entry H C)) (n i k : ℕ)
      → n ≡ suc (i + k)
      → n ≤ length es
      → take (n - 1) (shift_down es i k) ≡ remove_at (take n es) i
  removed es n i k e h =
      let e1 : n - 1 ≡ i + k = omega arith in rw (e1, e) (take-shift_down es i k (omega arith))

  pub live-removed :
      (r : Registry H C) (i : ℕ)
      → i < r.entry_count
      → r.entry_count ≤ length r.entries
      → take (r.entry_count - 1) (shift_down r.entries i (r.entry_count - 1 - i))
        ≡ remove_at (live r) i
  live-removed r i h k = removed r.entries r.entry_count i (r.entry_count - 1 - i) (omega arith) k
