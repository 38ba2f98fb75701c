-- ===== src/Registry/Listing/Overflow.antt =====
-- handler_list on a buffer that is too short for its head.
use study_c.Prelude.{
  ℕ, zero, suc, ◌<◌, ◌≡◌, refl, true, none, some, List, [], ◌∷◌, arith, Bytes, length, c_str, inl,
  inr, ◌⊎◌,
}
use study_c.Registry.{Entry, Registry}
use study_c.Registry.Listing.{
  list_entries, entry_text, head_text, tail_text, close_list, handler_list,
}
use study_c.Printing.{Cursor, append, at_front}
use study_c.Printing.Exact.{print-IsPrinted, at_front-IsPrinted}
use study_c.Printing.Overflow.{print_past}

-- With the offset behind the end, the loop or the end of the function writes there.
append_past : (text : Bytes) (c : Cursor) → length c.buf < c.offset → append text c ≡ none
unfolding append
append_past text c h = rw (print_past text c h, append) refl

list_entries_past :
    {H C : Type 0} (es : List (Entry H C)) (n : ℕ) (c : Cursor)
    → length c.buf < c.offset
    → (list_entries es n true c ≡ some (true, c)) ⊎ (list_entries es n true c ≡ none)
unfolding list_entries
list_entries_past es zero c h = inl refl
list_entries_past [] (suc n) c h = inl refl
list_entries_past (e ∷ es) (suc n) c h =
    inr (rw (append_past (entry_text e) c h, list_entries) refl)

close_list_past :
    {H C : Type 0} (r : Registry H C) (c : Cursor)
    → length c.buf < c.offset
    → close_list r (list_entries r.entries r.entry_count true c) ≡ none
close_list_past r c h = elim (list_entries_past r.entries r.entry_count c h) [
  | inl e ↦ rw (e, close_list, print_past (tail_text r) c h) refl
  | inr e ↦ rw e refl
]

-- A buffer that is not empty, but too short for the 14 bytes of the list's head, is always written
-- behind.
pub handler_list_overflow :
    {H C : Type 0} (r : Registry H C) (buf : Bytes)
    → 0 < length buf
    → length buf < 14
    → handler_list buf r ≡ none
unfolding handler_list c_str
handler_list_overflow r [] h k = absurd (omega (arith, h))
handler_list_overflow r (b ∷ bs) h k =
    let buf = b ∷ bs in
    let (c, e, p, held) =
      print-IsPrinted (length buf) [] head_text (at_front buf) (at_front-IsPrinted buf)
        (omega arith) in
    rw (e, handler_list) (close_list_past r c (omega (arith, k, p.sized, p.placed)))
