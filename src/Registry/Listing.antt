-- ===== src/Registry/Listing.antt =====
-- Mgmt/src/event_handler.c, handler_list: the live slots as JSON.
pub mod Text
pub mod Overflow
use study_c.Prelude.{
  ℕ, zero, suc, ◌+◌, ◌-◌, ◌/◌, ◌≤◌, ◌<◌, ◌≡◌, refl, sym, ap, ◌∙◌, subst, Bool, true, false, ◌||◌,
  Option, none, some, List, [], ◌∷◌, ◌++◌, arith, Bytes, codes, unsigned, length, take, c_str, ltb,
  ltb_of_lt, if◌then◌else◌, ◌==◌, ℤ, pos, ret_err, append_assoc, append-nil, length-append, inl,
  inr, ◌⊎◌,
}
use study_c.Protocol.{command_str}
use study_c.Registry.{Entry, Registry}
use study_c.Printing.{Cursor, print, append, at_front}

-- The comma before every entry but the first.
abbrev pub separate : Bool → Cursor → Option Cursor
separate true c = some c
separate false c = print (codes ",") c

abbrev pub head_text : Bytes
head_text = codes "{\"handlers\": ["

-- What such a comma adds.
abbrev pub comma : Bool → Bytes
comma true = []
comma false = codes ","

module _ {H C : Type 0} where
  abbrev avg_latency : Entry H C → ℕ
  avg_latency e = if ltb 0 e.invocation_count then e.total_latency_us / e.invocation_count else 0

  unfoldable pub entry_text : Entry H C → Bytes
  entry_text e =
      codes "{\"module\":\""
      ++ c_str e.module_name
      ++ codes "\",\"command\":\""
      ++ command_str e.cmd_type
      ++ codes "\",\"invocations\":"
      ++ unsigned e.invocation_count
      ++ codes ",\"avg_latency_us\":"
      ++ unsigned (avg_latency e)
      ++ codes "}"

  -- The loop over the live slots: `n` of them are left, and the flag says that none is printed yet.
  -- `false` with the cursor is the return of -1.
  unfoldable pub list_entries : List (Entry H C) → ℕ → Bool → Cursor → Option (Bool × Cursor)
  list_entries es zero first c = some (true, c)
  list_entries [] (suc n) first c = some (true, c)
  list_entries (e ∷ es) (suc n) first c = elim (separate first c) [
    | none ↦ none
    | some c1 ↦ elim (append (entry_text e) c1) [
      | none ↦ none
      | some (false, c2) ↦ some (false, c2)
      | some (true, c2) ↦ list_entries es n false c2
    ]
  ]

  unfoldable pub tail_text : Registry H C → Bytes
  tail_text r =
      codes "], \"total_dispatches\": "
      ++ unsigned r.total_dispatches
      ++ codes ", \"total_failures\": "
      ++ unsigned r.total_failures
      ++ codes "}"

  abbrev pub close_list : Registry H C → Option (Bool × Cursor) → Option (ℤ × Bytes)
  close_list r none = none
  close_list r (some (false, c)) = some (ret_err, c.buf)
  close_list r (some (true, c)) = elim (print (tail_text r) c) [
    | none ↦ none
    | some c' ↦ some (pos r.entry_count, c'.buf)
  ]

  -- handler_list on a buffer that is given; `none` is a write behind the buffer.
  unfoldable pub handler_list : Bytes → Registry H C → Option (ℤ × Bytes)
  handler_list [] r = some (ret_err, [])
  handler_list (b ∷ bs) r = elim (print head_text (at_front (b ∷ bs))) [
    | none ↦ none
    | some c ↦ close_list r (list_entries r.entries r.entry_count true c)
  ]

  -- The text of the entries, and the whole.
  abbrev pub entries_text : List (Entry H C) → ℕ → Bool → Bytes
  entries_text es zero first = []
  entries_text [] (suc n) first = []
  entries_text (e ∷ es) (suc n) first =
      comma first ++ (c_str (entry_text e) ++ entries_text es n false)

  abbrev pub list_text : Registry H C → Bytes
  list_text r = (head_text ++ entries_text r.entries r.entry_count true) ++ c_str (tail_text r)
