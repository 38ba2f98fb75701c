-- ===== src/Registry/Find.antt =====
-- The search loop of event_handler.c, against a search of the live entries by key.
use study_c.Prelude.{
  ℕ, zero, suc, ◌+◌, ◌<◌, ◌≡◌, refl, sym, ◌∙◌, inl, inr, true, false, Option, none, some, List, [],
  ◌∷◌, arith, get_elem?, take, Bytes, c_str, if◌then◌else◌, bytes_eq_sound, bytes_eq_refl,
  Bool-cases,
}
use study_c.Registry.{Entry, Registry, matches, find_from}

module _ {H C : Type 0} where
  -- The live entries, in order.
  abbrev pub live : Registry H C → List (Entry H C)
  live r = take r.entry_count r.entries

  unfoldable pub find_entry : ℕ → Bytes → List (Entry H C) → Option (Entry H C)
  find_entry cmd name [] = none
  find_entry cmd name (e ∷ es) = if matches cmd name e then some e else find_entry cmd name es

  -- Every key occurs once.
  abbrev pub Distinct : List (Entry H C) → Type 0
  Distinct [] = Unit {0}
  Distinct (e ∷ es) = (find_entry e.cmd_type e.module_name es ≡ none) × Distinct es

  -- What the loop returns: an index into the live entries, and the entry there.
  pub find_from-some :
      (cmd : ℕ) (name : Bytes) (es : List (Entry H C)) (n i : ℕ) {k : ℕ}
      → find_from cmd name es n i ≡ some k
      → (j : ℕ) × (e : Entry H C) × (k ≡ i + j)
        × (j < n)
        × (get_elem? es j ≡ some e)
        × (matches cmd name e ≡ true)
        × (find_entry cmd name (take n es) ≡ some e)
  unfolding find_from find_entry take
  find_from-some cmd name [] zero i h = cc
  find_from-some cmd name [] (suc n) i h = cc
  find_from-some cmd name (e ∷ es) zero i h = cc
  find_from-some cmd name (e ∷ es) (suc n) i {k} h = elim (Bool-cases (matches cmd name e)) [
    | inl m ↦ (0, e, ground arith, omega arith, refl, m, rw m refl)
    | inr m ↦
        let (j, e', p, q, g, t, f) = find_from-some cmd name es n (suc i) {k = k} (ground arith) in
        (suc j, e', omega arith, omega arith, g, t, rw m f)
  ]

  pub find_from-none :
      (cmd : ℕ) (name : Bytes) (es : List (Entry H C)) (n i : ℕ)
      → find_from cmd name es n i ≡ none
      → find_entry cmd name (take n es) ≡ none
  unfolding find_from find_entry take
  find_from-none cmd name [] zero i h = refl
  find_from-none cmd name [] (suc n) i h = refl
  find_from-none cmd name (e ∷ es) zero i h = refl
  find_from-none cmd name (e ∷ es) (suc n) i h = elim (Bool-cases (matches cmd name e)) [
    | inl m ↦ ground arith
    | inr m ↦ rw m (find_from-none cmd name es n (suc i) (ground arith))
  ]

  pub matches-key :
      (cmd : ℕ) (name : Bytes) (e : Entry H C)
      → matches cmd name e ≡ true
      → (e.cmd_type ≡ cmd) × (c_str e.module_name ≡ c_str name)
  unfolding matches
  matches-key cmd name e h =
      (ground arith, bytes_eq_sound (c_str e.module_name) (c_str name) (ground arith))

  pub matches_of_key :
      (cmd : ℕ) (name : Bytes) (e : Entry H C)
      → e.cmd_type ≡ cmd
      → c_str e.module_name ≡ c_str name
      → matches cmd name e ≡ true
  unfolding matches
  matches_of_key cmd name e p q = rw q (ground (arith, bytes_eq_refl (c_str name)))

  -- Matching depends on the key alone.
  pub matches_congr :
      (cmd : ℕ) (name : Bytes) (d e : Entry H C)
      → d.cmd_type ≡ e.cmd_type
      → c_str d.module_name ≡ c_str e.module_name
      → matches cmd name d ≡ matches cmd name e
  unfolding matches
  matches_congr cmd name d e p q = rw (p, q)

  pub matches_congr_key :
      (cmd cmd' : ℕ) (name name' : Bytes) (e : Entry H C)
      → cmd ≡ cmd'
      → c_str name ≡ c_str name'
      → matches cmd name e ≡ matches cmd' name' e
  unfolding matches
  matches_congr_key cmd cmd' name name' e p q = rw (p, q)

  pub find_entry_congr_key :
      (cmd cmd' : ℕ) (name name' : Bytes) (es : List (Entry H C))
      → cmd ≡ cmd'
      → c_str name ≡ c_str name'
      → find_entry cmd name es ≡ find_entry cmd' name' es
  unfolding find_entry
  find_entry_congr_key cmd cmd' name name' [] p q = refl
  find_entry_congr_key cmd cmd' name name' (e ∷ es) p q =
      rw (
        matches_congr_key cmd cmd' name name' e p q,
        find_entry_congr_key cmd cmd' name name' es p q,
      )

  -- An entry that matches a key, by its own key.
  pub matches_exchange :
      (cmd : ℕ) (name : Bytes) (d e : Entry H C)
      → matches cmd name d ≡ true
      → matches cmd name e ≡ true
      → matches d.cmd_type d.module_name e ≡ true
  matches_exchange cmd name d e p q =
      let (a, b) = matches-key cmd name d p in
      let (a', b') = matches-key cmd name e q in
      matches_of_key d.cmd_type d.module_name e (a' ∙ sym a) (b' ∙ sym b)

  pub find_entry-none-get :
      (cmd : ℕ) (name : Bytes) (es : List (Entry H C)) (j : ℕ) (e : Entry H C)
      → find_entry cmd name es ≡ none
      → get_elem? es j ≡ some e
      → matches cmd name e ≡ false
  unfolding find_entry
  find_entry-none-get cmd name [] j e h g = cc
  find_entry-none-get cmd name (x ∷ es) zero e h g = ground arith
  find_entry-none-get cmd name (x ∷ es) (suc j) e h g =
      ground (arith, find_entry-none-get cmd name es j e)
