-- ===== src/Registry/Search.antt =====
-- How a search by key sees an entry replaced, added or removed.
use study_c.Prelude.{
  true, ℕ, zero, suc, ◌≡◌, refl, none, some, List, [], ◌∷◌, ◌++◌, arith, get_elem?, set, Bytes,
  c_str, if◌then◌else◌,
}
use study_c.Registry.{Entry, matches}
use study_c.Registry.Array.{remove_at}
use study_c.Registry.Find.{
  find_entry, Distinct, matches_congr, matches_exchange, find_entry-none-get, find_entry_congr_key,
  matches-key, matches_of_key,
}

module _ {H C : Type 0} (cmd : ℕ) (name : Bytes) where
  pub find_entry-set :
      (es : List (Entry H C)) (j : ℕ) (v : Entry H C) (e : Entry H C)
      → Distinct es
      → get_elem? es j ≡ some e
      → v.cmd_type ≡ e.cmd_type
      → c_str v.module_name ≡ c_str e.module_name
      → find_entry cmd name (set es j v)
        ≡ (if matches cmd name v then some v else find_entry cmd name es)
  unfolding find_entry
  find_entry-set [] j v e d g p q = cc
  find_entry-set (x ∷ es) zero v e d g p q = ground (arith, matches_congr cmd name v e)
  find_entry-set (x ∷ es) (suc j) v e d g p q = ground (
    arith,
    find_entry-set es j v e,
    matches_congr cmd name v e,
    matches_exchange cmd name x e,
    find_entry-none-get x.cmd_type x.module_name es j e,
  )

  -- With distinct keys the search finds any entry by its key.
  pub find_entry-get :
      (es : List (Entry H C)) (j : ℕ) (e : Entry H C)
      → Distinct es
      → get_elem? es j ≡ some e
      → matches cmd name e ≡ true
      → find_entry cmd name es ≡ some e
  unfolding find_entry
  find_entry-get [] j e d g m = cc
  find_entry-get (x ∷ es) zero e d g m = ground arith
  find_entry-get (x ∷ es) (suc j) e d g m = ground (
    arith,
    find_entry-get es j e,
    matches_exchange cmd name x e,
    find_entry-none-get x.cmd_type x.module_name es j e,
  )

  pub find_entry-append :
      (es : List (Entry H C)) (v : Entry H C)
      → find_entry cmd name es ≡ none
      → find_entry cmd name (es ++ (v ∷ [])) ≡ (if matches cmd name v then some v else none)
  unfolding find_entry
  find_entry-append [] v h = refl
  find_entry-append (x ∷ es) v h = ground (arith, find_entry-append es v)

  pub find_entry-append_some :
      (es : List (Entry H C)) (v : Entry H C) (e : Entry H C)
      → find_entry cmd name es ≡ some e
      → find_entry cmd name (es ++ (v ∷ [])) ≡ some e
  unfolding find_entry
  find_entry-append_some [] v e h = cc
  find_entry-append_some (x ∷ es) v e h = ground (arith, find_entry-append_some es v e)

  pub find_entry-remove_at :
      (es : List (Entry H C)) (j : ℕ) (e : Entry H C)
      → Distinct es
      → get_elem? es j ≡ some e
      → find_entry cmd name (remove_at es j)
        ≡ (if matches cmd name e then none else find_entry cmd name es)
  unfolding find_entry remove_at
  find_entry-remove_at [] j e d g = cc
  find_entry-remove_at (x ∷ es) zero e d g =
      ground
        (arith, matches-key cmd name x, find_entry_congr_key cmd x.cmd_type name x.module_name es)
  find_entry-remove_at (x ∷ es) (suc j) e d g = ground (
    arith,
    find_entry-remove_at es j e,
    matches_exchange cmd name x e,
    find_entry-none-get x.cmd_type x.module_name es j e,
  )

module _ {H C : Type 0} where
  pub Distinct-set :
      (es : List (Entry H C)) (j : ℕ) (v e : Entry H C)
      → Distinct es
      → get_elem? es j ≡ some e
      → v.cmd_type ≡ e.cmd_type
      → c_str v.module_name ≡ c_str e.module_name
      → Distinct (set es j v)
  Distinct-set [] j v e d g p q = d
  Distinct-set (x ∷ es) zero v e d g p q = (
    ground (arith, find_entry_congr_key v.cmd_type x.cmd_type v.module_name x.module_name es),
    d.1,
  )
  Distinct-set (x ∷ es) (suc j) v e d g p q = (
    ground (
      arith,
      find_entry-set x.cmd_type x.module_name es j v e,
      matches_congr x.cmd_type x.module_name v e,
      find_entry-none-get x.cmd_type x.module_name es j e,
    ),
    Distinct-set es j v e d.1 g p q,
  )

  pub Distinct-append :
      (es : List (Entry H C)) (v : Entry H C)
      → Distinct es
      → find_entry v.cmd_type v.module_name es ≡ none
      → Distinct (es ++ (v ∷ []))
  unfolding find_entry
  Distinct-append [] v d h = (refl, tt)
  Distinct-append (x ∷ es) v d h = (
    ground (
      arith,
      find_entry-append x.cmd_type x.module_name es v,
      matches_exchange x.cmd_type x.module_name v x,
      matches_of_key x.cmd_type x.module_name x refl refl,
    ),
    Distinct-append es v d.1 (ground arith),
  )

  pub Distinct-remove_at :
      (es : List (Entry H C)) (j : ℕ) (e : Entry H C)
      → Distinct es
      → get_elem? es j ≡ some e
      → Distinct (remove_at es j)
  unfolding remove_at
  Distinct-remove_at [] j e d g = d
  Distinct-remove_at (x ∷ es) zero e d g = d.1
  Distinct-remove_at (x ∷ es) (suc j) e d g = (
    ground (
      arith,
      find_entry-remove_at x.cmd_type x.module_name es j e,
      find_entry-none-get x.cmd_type x.module_name es j e,
    ),
    Distinct-remove_at es j e d.1 g,
  )
