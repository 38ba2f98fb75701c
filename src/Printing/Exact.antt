-- ===== src/Printing/Exact.antt =====
-- What a buffer holds after some texts are printed to it.
use study_c.Prelude.{
  subst, ℕ, suc, ◌+◌, ◌-◌, ◌≤◌, ◌<◌, ◌≡◌, refl, sym, ap, ◌∙◌, ◌⊎◌, inl, inr, none, some, List, [],
  ◌∷◌, ◌++◌, arith, Bytes, ltb, ltb_of_le, take, drop, length, c_str, snprintf_str, length-append,
  length-take, length-drop, take_of_length_le, append_assoc, append-nil, c_str-snprintf_str,
  Option-cases, false,
}
use study_c.Printing.{Cursor, print, print_all, at_front}
use study_c.Printing.Pieces.{
  c_str-append, take_nil, take-c_str, empty-c_str, c_str-joined, lt_or_eq, take_zero,
  take-append_le, take-append_ge, take-append_drop, length-snprintf_str,
}

-- A buffer of `size` bytes to which the text `done` was printed: it holds as much of it as fits,
-- and the offset is its whole length. Nothing is known of a buffer to which nothing was printed.
pub record IsPrinted (size : ℕ) (done : Bytes) (c : Cursor) : Type 0 where
  pub sized : length c.buf ≡ size
  pub clean : c_str done ≡ done
  pub placed : c.offset ≡ length done
  pub held : (done ≡ []) ⊎ (c_str c.buf ≡ take (size - 1) done)

printed-front :
    (size : ℕ) (done : Bytes) (c : Cursor)
    → IsPrinted size done c
    → length done < size
    → take (length done) c.buf ≡ done
printed-front size done c p room = elim p.held [
  | inl e ↦ rw e (ap (λ t. t) (take_zero c.buf))
  | inr h ↦
      let q : c_str c.buf ≡ done = h ∙ take_of_length_le (size - 1) done (omega arith) in
      ap (λ t. take (length t) c.buf) (sym q) ∙ take-c_str c.buf ∙ q
]

-- The bytes that a line leaves at the offset L, with n bytes of room.
abbrev line_at : Bytes → ℕ → ℕ → Bytes → Bytes
line_at buf l n text = take l buf ++ snprintf_str (drop l buf) text n

length-line_at :
    (size : ℕ) (buf text : Bytes) (l : ℕ)
    → length buf ≡ size
    → l ≤ size
    → length (line_at buf l (size - l) text) ≡ size
length-line_at size buf text l h k = omega (
  arith,
  h,
  length-append (take l buf) (snprintf_str (drop l buf) text (size - l)),
  length-take l buf,
  length-snprintf_str (drop l buf) text (size - l) (omega (arith, h, length-drop l buf)),
  length-drop l buf,
)

line_at-room :
    (size : ℕ) (done text : Bytes) (c : Cursor)
    → IsPrinted size done c
    → length done < size
    → c_str (line_at c.buf (length done) (size - length done) text)
      ≡ take (size - 1) (done ++ c_str text)
line_at-room size done text c p room =
    let k = size - 1 - length done in
    let e : size - length done ≡ suc k = omega arith in
    rw
      (
        e,
        printed-front size done c p room,
        c_str-append done (snprintf_str (drop (length done) c.buf) text (suc k)) p.clean,
        c_str-snprintf_str (drop (length done) c.buf) text k,
        take-append_le (size - 1) done (c_str text) (omega arith),
      )
      refl

line_at-full :
    (size : ℕ) (done text : Bytes) (c : Cursor)
    → IsPrinted size done c
    → length done ≡ size
    → c_str (line_at c.buf (length done) (size - length done) text)
      ≡ take (size - 1) (done ++ c_str text)
unfolding snprintf_str
line_at-full size done text c p e =
    let z : size - length done ≡ 0 = omega arith in
    let z0 : done ≡ [] → size ≡ 0 = λ n. sym e ∙ ap length n in
    rw
      (
        z,
        take-append_drop (length done) c.buf,
        take-append_ge (size - 1) done (c_str text) (omega arith),
      )
      (elim p.held [
        | inl n ↦ rw (n, take_nil (size - 1)) (empty-c_str c.buf (omega (arith, p.sized, z0 n)))
        | inr h ↦ h
      ])

-- A line at an offset that is not behind the end: the buffer holds the longer text, as far as it
-- fits.
pub print-IsPrinted :
    (size : ℕ) (done text : Bytes) (c : Cursor)
    → IsPrinted size done c
    → length done ≤ size
    → (c' : Cursor) × (print text c ≡ some c')
      × IsPrinted size (done ++ c_str text) c'
      × (c_str c'.buf ≡ take (size - 1) (done ++ c_str text))
unfolding print
print-IsPrinted size done text c p room =
    let line = line_at c.buf (length done) (size - length done) text in
    let n : ltb (length c.buf) c.offset ≡ false =
      ltb_of_le (length c.buf) c.offset (omega (arith, p.sized, p.placed)) in
    let h : c_str line ≡ take (size - 1) (done ++ c_str text) =
      elim (lt_or_eq (length done) size room) [
        | inl l ↦ line_at-room size done text c p l
        | inr e ↦ line_at-full size done text c p e
      ] in
    (
      record { buf = line; offset = length done + length (c_str text) },
      rw (n, p.placed, p.sized) refl,
      record {
        sized = length-line_at size c.buf text (length done) p.sized room;
        clean = c_str-joined done text p.clean;
        placed = sym (length-append done (c_str text));
        held = inr h;
      },
      h,
    )

-- The texts one behind another.
abbrev pub joined : List Bytes → Bytes
joined [] = []
joined (t ∷ ts) = c_str t ++ joined ts

print_all-IsPrinted :
    (size : ℕ) (done : Bytes) (texts : List Bytes) (c : Cursor)
    → IsPrinted size done c
    → length (done ++ joined texts) ≤ size
    → (c' : Cursor) × (print_all texts c ≡ some c') × IsPrinted size (done ++ joined texts) c'
unfolding print_all
print_all-IsPrinted size done [] c p h =
    (c, refl, subst (λ d. IsPrinted size d c) (sym (append-nil done)) p)
print_all-IsPrinted size done (t ∷ ts) c p h =
    let room : length done ≤ size = omega (arith, h, length-append done (joined (t ∷ ts))) in
    let a = append_assoc done (c_str t) (joined ts) in
    let (c1, e, q, held) = print-IsPrinted size done t c p room in
    let (c2, e', q') =
      print_all-IsPrinted size (done ++ c_str t) ts c1 q (omega (arith, h, ap length a)) in
    (c2, rw (e, print_all) e', subst (λ d. IsPrinted size d c2) a q')

print_all-append :
    (xs ys : List Bytes) (c c' : Cursor)
    → print_all xs c ≡ some c'
    → print_all (xs ++ ys) c ≡ print_all ys c'
unfolding print_all
print_all-append [] ys c c' h = ap (λ o. elim o [ none ↦ none | some d ↦ print_all ys d ]) h
print_all-append (x ∷ xs) ys c c' h = elim (Option-cases (print x c)) [
  | inl e ↦ absurd (ground (arith, e))
  | inr (d, e) ↦ rw (e, print_all) (print_all-append xs ys d c' (ground (arith, e)))
]

pub at_front-IsPrinted : (buf : Bytes) → IsPrinted (length buf) [] (at_front buf)
unfolding c_str
at_front-IsPrinted buf = record { sized = refl; clean = refl; placed = refl; held = inl refl }

-- Texts that fit, and a last one that may be cut.
pub print_all-last :
    (texts : List Bytes) (text buf : Bytes)
    → length (joined texts) ≤ length buf
    → (c : Cursor) × (print_all (texts ++ (text ∷ [])) (at_front buf) ≡ some c)
      × (length c.buf ≡ length buf)
      × (c_str c.buf ≡ take (length buf - 1) (joined texts ++ c_str text))
unfolding print_all
print_all-last texts text buf h =
    let (c1, e, q) =
      print_all-IsPrinted (length buf) [] texts (at_front buf) (at_front-IsPrinted buf) h in
    let (c2, e', q', held) = print-IsPrinted (length buf) (joined texts) text c1 q h in
    (
      c2,
      print_all-append texts (text ∷ []) (at_front buf) c1 e ∙ rw (e', print_all) refl,
      q'.sized,
      held,
    )
