-- ===== src/Printing/Checked.antt =====
-- Lines with the check behind each: they never write behind the buffer.
use study_c.Prelude.{
  ℕ, ◌-◌, ◌^◌, ◌≤◌, ◌<◌, ◌≡◌, refl, sym, ◌∙◌, subst, ◌⊎◌, inl, inr, some, List, [], ◌∷◌, ◌++◌,
  arith, Bytes, Bool, true, false, leb, ltb, ltb_of_le, take, length, c_str, length-append,
  append_assoc, append-nil, Bool-cases,
}
use study_c.Printing.{Cursor, at_end, append, append_all}
use study_c.Printing.Exact.{IsPrinted, print-IsPrinted, joined}
use study_c.Printing.Pieces.{take-append_ge}

-- Where a line sequence stands: it is full, and returned, or it still has room.
pub record IsAppended (size : ℕ) (whole : Bytes) (ok : Bool) (c : Cursor) : Type 0 where
  pub sized : length c.buf ≡ size
  pub held : c_str c.buf ≡ take (size - 1) whole
  pub fits : ok ≡ ltb (length whole) (size - 1)
  pub counted : ok ≡ true → c.offset ≡ length whole

-- A size that an int holds.
pub at_end-small : (size offset : ℕ) → size < 2 ^ 31 → at_end size offset ≡ leb (size - 1) offset
unfolding at_end
at_end-small size offset h = ground arith

-- A line behind `done` and before `rest`.
pub append-cases :
    (size : ℕ) (done text rest : Bytes) (c : Cursor)
    → IsPrinted size done c
    → length done ≤ size
    → size < 2 ^ 31
    → ((c' : Cursor) × (append text c ≡ some (true, c'))
        × IsPrinted size (done ++ c_str text) c'
        × (c_str c'.buf ≡ take (size - 1) (done ++ c_str text))
        × (length (done ++ c_str text) < size - 1))
      ⊎ ((c' : Cursor) × (append text c ≡ some (false, c'))
          × IsAppended size ((done ++ c_str text) ++ rest) false c')
unfolding append
append-cases size done text rest c p room small =
    let (c', e, q, held) = print-IsPrinted size done text c p room in
    elim (Bool-cases (leb (size - 1) (length (done ++ c_str text)))) [
      | inl h ↦ inr (
        c',
        rw (e, append, p.sized, q.placed, at_end-small size (length (done ++ c_str text)) small, h)
            refl,
        record {
          sized = q.sized;
          held = held ∙ sym (take-append_ge (size - 1) (done ++ c_str text) rest (ground arith));
          fits = sym (ltb_of_le _ _ (ground (arith, length-append (done ++ c_str text) rest)));
          counted = λ n. cc;
        },
      )
      | inr h ↦ inl (
        c',
        rw (e, append, p.sized, q.placed, at_end-small size (length (done ++ c_str text)) small, h)
            refl,
        q,
        held,
        ground arith,
      )
    ]

room-IsAppended :
    (size : ℕ) (done : Bytes) (c : Cursor)
    → IsPrinted size done c
    → c_str c.buf ≡ take (size - 1) done
    → length done < size - 1
    → IsAppended size done true c
room-IsAppended size done c p held room = record {
  sized = p.sized;
  held = held;
  fits = ground arith;
  counted = λ n. p.placed;
}

abbrev Ends : ℕ → Bytes → List Bytes → Cursor → Type 0
Ends size done texts c =
    (ok : Bool) × (c' : Cursor) × (append_all texts c ≡ some (ok, c'))
    × IsAppended size (done ++ joined texts) ok c'

append_all-step :
    (size : ℕ) (done text : Bytes) (texts : List Bytes) (c : Cursor)
    → IsPrinted size done c
    → length done ≤ size
    → size < 2 ^ 31
    → ((c' : Cursor)
        → IsPrinted size (done ++ c_str text) c'
        → c_str c'.buf ≡ take (size - 1) (done ++ c_str text)
        → length (done ++ c_str text) < size - 1
        → Ends size (done ++ c_str text) texts c')
    → Ends size done (text ∷ texts) c
unfolding append_all
append_all-step size done text texts c p room small next =
    let a = append_assoc done (c_str text) (joined texts) in
    elim (append-cases size done text (joined texts) c p room small) [
      | inl (c1, e, q, held, r) ↦
          let (ok, c2, e', f) = next c1 q held r in
          (ok, c2, rw (e, append_all) e', subst (λ d. IsAppended size d ok c2) a f)
      | inr (c1, e, f) ↦
          (false, c1, rw (e, append_all) refl, subst (λ d. IsAppended size d false c1) a f)
    ]

append_all-room :
    (size : ℕ) (done : Bytes) (texts : List Bytes) (c : Cursor)
    → IsPrinted size done c
    → c_str c.buf ≡ take (size - 1) done
    → length done < size - 1
    → size < 2 ^ 31
    → Ends size done texts c
unfolding append_all
append_all-room size done [] c p held room small = (
  true,
  c,
  refl,
  subst (λ d. IsAppended size d true c) (sym (append-nil done))
      (room-IsAppended size done c p held room),
)
append_all-room size done (t ∷ ts) c p held room small =
    append_all-step size done t ts c p (omega (arith, room)) small
      (λ c' q h r. append_all-room size (done ++ c_str t) ts c' q h r small)

-- A nonempty sequence of checked lines.
pub append_all-IsAppended :
    (size : ℕ) (done text : Bytes) (texts : List Bytes) (c : Cursor)
    → IsPrinted size done c
    → length done ≤ size
    → size < 2 ^ 31
    → Ends size done (text ∷ texts) c
append_all-IsAppended size done text texts c p room small =
    append_all-step size done text texts c p room small
      (λ c' q h r. append_all-room size (done ++ c_str text) texts c' q h r small)
