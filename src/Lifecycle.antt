-- ===== src/Lifecycle.antt =====
-- The resources that the main functions of Router/src/main.c and Collector/src/main.c acquire and
-- release, as a list of events, and when such a list is in order. `same` compares two resources,
-- and `users r` are the threads that use `r` while they run.
use study_c.Prelude.{Bool, true, false, not, List, [], ◌∷◌, ◌&&◌, ◌||◌, if◌then◌else◌}

pub data Event (R : Type 0) : Type 0 where
  acquire : R → Event R
  release : R → Event R

module _ {R : Type 0} (same : R → R → Bool) (users : R → List R) where
  abbrev pub is_in : R → List R → Bool
  is_in r [] = false
  is_in r (x ∷ xs) = same r x || is_in r xs

  abbrev pub none_in : List R → List R → Bool
  none_in [] held = true
  none_in (r ∷ rs) held = not (is_in r held) && none_in rs held

  abbrev pub without : R → List R → List R
  without r [] = []
  without r (x ∷ xs) = if same r x then xs else x ∷ without r xs

  abbrev pub all_in : List R → List R → Bool
  all_in [] ys = true
  all_in (x ∷ xs) ys = is_in x ys && all_in xs ys

  -- Nothing is acquired twice, what is released is held and not in use, and what is held at the end
  -- is what is kept.
  abbrev pub orderly : List R → List R → List (Event R) → Bool
  orderly kept held [] = all_in held kept && all_in kept held
  orderly kept held (acquire r ∷ es) = not (is_in r held) && orderly kept (r ∷ held) es
  orderly kept held (release r ∷ es) =
      is_in r held && none_in (users r) held && orderly kept (without r held) es
