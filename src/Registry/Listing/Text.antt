-- ===== src/Registry/Listing/Text.antt =====
-- What handler_list leaves in its buffer.
use study_c.Prelude.{
  ℕ, zero, suc, ◌+◌, ◌-◌, ◌^◌, ◌≤◌, ◌<◌, ◌≡◌, refl, sym, ap, ◌∙◌, subst, Bool, true, false, ◌||◌,
  Option, some, List, [], ◌∷◌, ◌++◌, arith, Bytes, codes, length, take, c_str, ltb, if◌then◌else◌,
  ◌==◌, ℤ, pos, ret_err, append_assoc, append-nil, length-append, inl, inr, ◌⊎◌,
}
use study_c.Registry.{Entry, Registry}
use study_c.Registry.Listing.{
  comma, separate, list_entries, entry_text, entries_text, list_text, head_text, tail_text,
  close_list, handler_list,
}
use study_c.Printing.{Cursor, at_front}
use study_c.Printing.Exact.{IsPrinted, print-IsPrinted, at_front-IsPrinted}
use study_c.Printing.Pieces.{take-append_ge}
use study_c.Printing.Checked.{IsAppended, append-cases}

separate-IsPrinted :
    (size : ℕ) (done : Bytes) (first : Bool) (c : Cursor)
    → IsPrinted size done c
    → length (done ++ comma first) ≤ size
    → (c' : Cursor) × (separate first c ≡ some c') × IsPrinted size (done ++ comma first) c'
unfolding c_str
separate-IsPrinted size done true c p room =
    (c, refl, subst (λ d. IsPrinted size d c) (sym (append-nil done)) p)
separate-IsPrinted size done false c p room =
    let (c', e, q, held) =
      print-IsPrinted size done (codes ",") c p
        (omega (arith, room, length-append done (codes ","))) in
    (c', e, q)

-- How the loop ends: with all entries printed, or full.
abbrev Listed : ℕ → Bytes → Bytes → Option (Bool × Cursor) → Type 0
Listed size done ents o =
    ((c : Cursor) × (o ≡ some (true, c))
      × IsPrinted size (done ++ ents) c
      × (length (done ++ ents) ≤ size)
      × ((length ents == 0 || ltb (length (done ++ ents)) (size - 1)) ≡ true))
    ⊎ ((c : Cursor) × (o ≡ some (false, c))
        × IsAppended size (done ++ ents) false c
        × (0 < length ents))

nothing_left :
    (size : ℕ) (done : Bytes) (first : Bool) (c : Cursor)
    → IsPrinted size done c
    → length (done ++ comma first) ≤ size
    → Listed size done [] (some (true, c))
nothing_left size done first c p room = inl (
  c,
  refl,
  subst (λ d. IsPrinted size d c) (sym (append-nil done)) p,
  omega (arith, room, length-append done (comma first), ap length (append-nil done)),
  refl,
)

more_fits :
    (a r w' w s x : ℕ)
    → w ≡ w'
    → w' ≡ a + r
    → a < s
    → (r == 0 || ltb w' s) ≡ true
    → (x == 0 || ltb w s) ≡ true
more_fits a r w' w s x e f h g = ground arith

-- An entry behind what is done, and then the rest of the loop.
cons-Listed :
    (size : ℕ) (done sep text rest : Bytes) (o : Option (Bool × Cursor))
    → length ((done ++ sep) ++ text) < size - 1
    → 0 < length text
    → Listed size ((done ++ sep) ++ text) rest o
    → Listed size done (sep ++ (text ++ rest)) o
cons-Listed size done sep text rest o room t h =
    let a : ((done ++ sep) ++ text) ++ rest ≡ done ++ (sep ++ (text ++ rest)) =
      append_assoc (done ++ sep) text rest ∙ append_assoc done sep (text ++ rest) in
    elim h [
      | inl (c, e, p, l, n) ↦ inl (
        c,
        e,
        subst (λ d. IsPrinted size d c) a p,
        omega (arith, l, ap length a),
        more_fits (length ((done ++ sep) ++ text)) (length rest) _ _ (size - 1)
            (length (sep ++ (text ++ rest))) (sym (ap length a))
            (length-append ((done ++ sep) ++ text) rest) room n,
      )
      | inr (c, e, f, n) ↦ inr (
        c,
        e,
        subst (λ d. IsAppended size d false c) a f,
        omega (arith, t, length-append sep (text ++ rest), length-append text rest),
      )
    ]

module _ {H C : Type 0} where
  entry_text-nonempty : (e : Entry H C) → 0 < length (c_str (entry_text e))
  unfolding entry_text c_str
  entry_text-nonempty e = omega arith

  list_entries-Listed :
      (es : List (Entry H C)) (n size : ℕ) (done : Bytes) (first : Bool) (c : Cursor)
      → IsPrinted size done c
      → length (done ++ comma first) ≤ size
      → size < 2 ^ 31
      → Listed size done (entries_text es n first) (list_entries es n first c)
  unfolding list_entries
  list_entries-Listed es zero size done first c p room small = nothing_left size done first c p room
  list_entries-Listed [] (suc n) size done first c p room small =
      nothing_left size done first c p room
  list_entries-Listed (e ∷ es) (suc n) size done first c p room small =
      let (c1, h1, p1) = separate-IsPrinted size done first c p room in
      let a =
        append_assoc (done ++ comma first) (c_str (entry_text e)) (entries_text es n false)
        ∙ append_assoc done (comma first) (c_str (entry_text e) ++ entries_text es n false) in
      elim (append-cases size (done ++ comma first) (entry_text e) (entries_text es n false) c1 p1
        room small) [
          | inl (c2, h2, p2, held, r) ↦
              cons-Listed size done (comma first) (c_str (entry_text e)) (entries_text es n false)
                (list_entries (e ∷ es) (suc n) first c) r (entry_text-nonempty e)
                (rw (h1, h2, list_entries)
                  (list_entries-Listed es n size ((done ++ comma first) ++ c_str (entry_text e))
                    false c2 p2
                    (omega (
                      arith,
                      r,
                      length-append ((done ++ comma first) ++ c_str (entry_text e)) (comma false),
                    ))
                    small))
          | inr (c2, h2, f) ↦ inr (
            c2,
            rw (h1, h2, list_entries) refl,
            subst (λ d. IsAppended size d false c2) a f,
            omega (
              arith,
              entry_text-nonempty e,
              length-append (comma first) (c_str (entry_text e) ++ entries_text es n false),
              length-append (c_str (entry_text e)) (entries_text es n false),
            ),
          )
        ]

  -- The end of the function, by how the loop ended.
  closed :
      (size : ℕ) (r : Registry H C) (o : Option (Bool × Cursor))
      → Listed size head_text (entries_text r.entries r.entry_count true) o
      → (code : ℤ) × (buf' : Bytes) × (close_list r o ≡ some (code, buf'))
        × (length buf' ≡ size)
        × (c_str buf' ≡ take (size - 1) (list_text r))
        × (code ≡ (
            if length (entries_text r.entries r.entry_count true) == 0
              || ltb (length (head_text ++ entries_text r.entries r.entry_count true)) (size - 1)
            then pos r.entry_count
            else ret_err))
  closed size r o h =
      let ents = entries_text r.entries r.entry_count true in
      elim h [
        | inl (c, e, p, l, n) ↦
            let (c', e', q, held) = print-IsPrinted size (head_text ++ ents) (tail_text r) c p l in
            (pos r.entry_count, c'.buf, rw (e, close_list, e') refl, q.sized, held, rw n refl)
        | inr (c, e, f, n) ↦ (
          ret_err,
          c.buf,
          rw e refl,
          f.sized,
          f.held
              ∙ sym (
                  take-append_ge (size - 1) (head_text ++ ents) (c_str (tail_text r))
                    (ground (arith, f.fits))),
          ground (arith, f.fits),
        )
      ]

-- On a buffer of 14 bytes or more and less than 2^31 handler_list never writes behind it, and
-- leaves in it as much of the whole text as fits with the terminator. It returns the number of live
-- slots where there is none, or the text up to the last entry is shorter than the size less one,
-- and -1 otherwise.
pub handler_list-text :
    {H C : Type 0} (r : Registry H C) (buf : Bytes)
    → 14 ≤ length buf
    → length buf < 2 ^ 31
    → (code : ℤ) × (buf' : Bytes) × (handler_list buf r ≡ some (code, buf'))
      × (length buf' ≡ length buf)
      × (c_str buf' ≡ take (length buf - 1) (list_text r))
      × (code ≡ (
          if length (entries_text r.entries r.entry_count true) == 0
            || ltb
                (length (head_text ++ entries_text r.entries r.entry_count true))
                (length buf - 1)
          then pos r.entry_count
          else ret_err))
unfolding handler_list c_str
handler_list-text r [] h small = absurd (omega (arith, h))
handler_list-text r (b ∷ bs) h small =
    let buf = b ∷ bs in
    let (c, e, p, held) =
      print-IsPrinted (length buf) [] head_text (at_front buf) (at_front-IsPrinted buf)
        (omega arith) in
    let (code, buf', e', l, t, v) = closed (length buf) r _ (
      list_entries-Listed r.entries r.entry_count (length buf) head_text true c p (omega (arith, h))
        small) in
    (code, buf', rw (e, handler_list) e', l, t, v)
