-- ===== src/Ipc/Emptying.antt =====
-- The lines of Router/src/main.c and Collector/src/main.c that take the messages of an earlier run
-- out of the shared queue.
use study_c.Prelude.{
  ℕ, suc, ◌+◌, ◌<◌, ◌≡◌, refl, Bool, true, false, List, [], ◌∷◌, ◌++◌, arith, length, length-append,
}
use study_c.Ipc.{Notify}

-- The loop, whose msgrcv does not wait and takes a message of any type: each round is given the
-- messages that other processes have put into the queue before it. The flag says whether the loop
-- still runs.
unfoldable pub empty_old : List (List Notify) → List Notify → Bool × List Notify
empty_old [] queue = (true, queue)
empty_old (new ∷ rounds) queue = elim (queue ++ new) [
  | [] ↦ (false, [])
  | n ∷ rest ↦ empty_old rounds rest
]

-- The number of messages that arrive meanwhile.
abbrev pub arriving : List (List Notify) → ℕ
arriving [] = 0
arriving (new ∷ rounds) = length new + arriving rounds

empty_old-next :
    (queue : List Notify) (rounds : List (List Notify)) (new all : List Notify)
    → queue ++ new ≡ all
    → ((rest : List Notify)
        → length rest + arriving rounds < length rounds
        → empty_old rounds rest ≡ (false, []))
    → length all + arriving rounds < suc (length rounds)
    → empty_old (new ∷ rounds) queue ≡ (false, [])
unfolding empty_old
empty_old-next queue rounds new [] e ih h = rw (e, empty_old) refl
empty_old-next queue rounds new (n ∷ all) e ih h = rw (e, empty_old) (ih all (omega arith))

-- The emptying ends, with an empty queue, in at most one round more than there are messages in the
-- queue at first and messages that arrive in those rounds.
pub empty_old_ends :
    (rounds : List (List Notify)) (queue : List Notify)
    → length queue + arriving rounds < length rounds
    → empty_old rounds queue ≡ (false, [])
empty_old_ends [] queue h = absurd (omega arith)
empty_old_ends (new ∷ rounds) queue h =
    empty_old-next queue rounds new (queue ++ new) refl (empty_old_ends rounds)
      (omega (arith, length-append queue new))
