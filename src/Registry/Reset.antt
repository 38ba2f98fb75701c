-- ===== src/Registry/Reset.antt =====
-- handler_registry_init, handler_registry_destroy and handler_stats_reset keep the registry valid.
use study_c.Prelude.{
  ℕ, zero, suc, ◌≡◌, refl, ap, ◌∙◌, inl, inr, Bool, none, List, [], ◌∷◌, arith, length, take, Bytes,
  Bool-cases,
}
use study_c.Registry.{
  Entry, Registry, registry_init, registry_destroy, stats_reset, clear_first, clear_stats,
}
use study_c.Registry.Find.{live, find_entry, Distinct, matches_congr}
use study_c.Registry.Valid.{IsValid, AllLive}

module _ {H C : Type 0} where
  map_clear : List (Entry H C) → List (Entry H C)
  map_clear [] = []
  map_clear (e ∷ es) = clear_stats e ∷ map_clear es

  take-clear_first :
      (n : ℕ) (es : List (Entry H C)) → take n (clear_first n es) ≡ map_clear (take n es)
  unfolding take clear_first map_clear
  take-clear_first zero es = refl
  take-clear_first (suc n) [] = refl
  take-clear_first (suc n) (e ∷ es) = ap (λ t. clear_stats e ∷ t) (take-clear_first n es)

  length-clear_first : (n : ℕ) (es : List (Entry H C)) → length (clear_first n es) ≡ length es
  unfolding clear_first
  length-clear_first zero es = refl
  length-clear_first (suc n) [] = refl
  length-clear_first (suc n) (e ∷ es) = ap suc (length-clear_first n es)

  AllLive-map_clear : (es : List (Entry H C)) → AllLive es → AllLive (map_clear es)
  unfolding map_clear
  AllLive-map_clear [] a = tt
  AllLive-map_clear (e ∷ es) a = (
    record { bound = a.0.bound; known = a.0.known; terminated = a.0.terminated },
    AllLive-map_clear es a.1,
  )

  find_entry-map_clear :
      (cmd : ℕ) (name : Bytes) (es : List (Entry H C))
      → find_entry cmd name es ≡ none
      → find_entry cmd name (map_clear es) ≡ none
  unfolding find_entry map_clear
  find_entry-map_clear cmd name [] h = refl
  find_entry-map_clear cmd name (e ∷ es) h =
      ground (
        arith,
        find_entry-map_clear cmd name es,
        matches_congr cmd name e (clear_stats e) refl refl,
      )

  Distinct-map_clear : (es : List (Entry H C)) → Distinct es → Distinct (map_clear es)
  unfolding map_clear
  Distinct-map_clear [] d = tt
  Distinct-map_clear (e ∷ es) d =
      (find_entry-map_clear e.cmd_type e.module_name es d.0, Distinct-map_clear es d.1)

  -- handler_stats_reset keeps the registry valid.
  pub stats_reset-IsValid : (r : Registry H C) → IsValid r → IsValid (stats_reset r)
  unfolding stats_reset
  stats_reset-IsValid r v = record {
    slots = length-clear_first r.entry_count r.entries ∙ v.slots;
    counted = v.counted;
    all_live =
        rw (take-clear_first r.entry_count r.entries) (AllLive-map_clear (live r) v.all_live);
    distinct =
        rw (take-clear_first r.entry_count r.entries) (Distinct-map_clear (live r) v.distinct);
  }

  -- handler_registry_init and handler_registry_destroy keep it valid.
  pub registry_init-IsValid :
      (mutex_ok : Bool) (r : Registry H C) → IsValid r → IsValid (registry_init mutex_ok r).1
  unfolding registry_init take
  registry_init-IsValid mutex_ok r v = elim (Bool-cases r.initialized) [
    | inl e ↦ simp e v
    | inr e ↦ simp e (elim (Bool-cases mutex_ok) [
      | inl m ↦
          rw m (record { slots = v.slots; counted = omega arith; all_live = tt; distinct = tt })
      | inr m ↦ rw m v
    ])
  ]

  pub registry_destroy-IsValid : (r : Registry H C) → IsValid r → IsValid (registry_destroy r)
  unfolding registry_destroy take
  registry_destroy-IsValid r v = elim (Bool-cases r.initialized) [
    | inl e ↦
        simp e (record { slots = v.slots; counted = omega arith; all_live = tt; distinct = tt })
    | inr e ↦ simp e v
  ]
