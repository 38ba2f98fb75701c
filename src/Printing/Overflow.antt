-- ===== src/Printing/Overflow.antt =====
-- When a sequence of unchecked lines writes behind the buffer.
use study_c.Prelude.{
  ℕ, ◌≤◌, ◌<◌, ◌≡◌, refl, ap, ◌⊎◌, inl, inr, none, List, [], ◌∷◌, ◌++◌, arith, Bytes, length, c_str,
  append_assoc, append-nil,
}
use study_c.Printing.{Cursor, print, print_all, at_front}
use study_c.Printing.Exact.{IsPrinted, print-IsPrinted, joined, at_front-IsPrinted}

-- A line at an offset behind the end.
pub print_past : (text : Bytes) (c : Cursor) → length c.buf < c.offset → print text c ≡ none
unfolding print
print_past text c h = ground arith

print_all_past :
    (texts : List Bytes) (last : Bytes) (c : Cursor)
    → length c.buf < c.offset
    → print_all (texts ++ (last ∷ [])) c ≡ none
unfolding print_all
print_all_past [] last c h = rw (print_past last c h, print_all) refl
print_all_past (t ∷ ts) last c h = rw (print_past t c h, print_all) refl

pub le_or_lt : (a b : ℕ) → (a ≤ b) ⊎ (b < a)
le_or_lt a b = ground arith

print_all_over :
    (size : ℕ) (done : Bytes) (texts : List Bytes) (last : Bytes) (c : Cursor)
    → IsPrinted size done c
    → length done ≤ size
    → size < length (done ++ joined texts)
    → print_all (texts ++ (last ∷ [])) c ≡ none
unfolding print_all
print_all_over size done [] last c p r h = absurd (omega (arith, r, h, ap length (append-nil done)))
print_all_over size done (t ∷ ts) last c p r h =
    let (c1, e, q, held) = print-IsPrinted size done t c p r in
    elim (le_or_lt (length (done ++ c_str t)) size) [
      | inl le ↦
          rw (e, print_all)
            (print_all_over size (done ++ c_str t) ts last c1 q le
              (omega (arith, h, ap length (append_assoc done (c_str t) (joined ts)))))
      | inr lt ↦
          rw (e, print_all) (print_all_past ts last c1 (omega (arith, lt, q.sized, q.placed)))
    ]

-- The lines before the last are together longer than the buffer.
pub print_all_overflow :
    (texts : List Bytes) (last buf : Bytes)
    → length buf < length (joined texts)
    → print_all (texts ++ (last ∷ [])) (at_front buf) ≡ none
print_all_overflow texts last buf h =
    print_all_over (length buf) [] texts last (at_front buf) (at_front-IsPrinted buf) (omega arith)
      h
