-- ===== src/Logger/Bounds.antt =====
-- How long the lines before a message are.
use study_c.Prelude.{
  ℕ, zero, suc, ◌+◌, ◌/◌, ◌%◌, subst, ◌≤◌, ◌≡◌, sym, inl, inr, Bool, true, false, List, [], ◌∷◌,
  ◌++◌, arith, Bytes, codes, digits, unsigned, c_str, length, length-append, length-c_str-le, drop,
  Bool-cases, ltb,
}
use study_c.Logger.{
  Logger, Message, Location, only_if, level_str, prefixes, has_flag, tag_is_set, location_text,
}
use study_c.Printing.Exact.{joined}

-- The tag's array is whole, and its last byte is the terminator.
pub record IsLogger (l : Logger) : Type 0 where
  pub tag_length : length l.context_tag ≡ 32
  pub tag_end : drop 31 l.context_tag ≡ 0 ∷ []

length-digits-le : (fuel n : ℕ) → length (digits fuel n) ≤ fuel
length-digits-le zero n = omega arith
length-digits-le (suc fuel) n = elim (Bool-cases (ltb n 10)) [
  | inl e ↦ rw (e, digits) (omega arith)
  | inr e ↦
      rw (e, digits)
        (omega (
          arith,
          length-digits-le fuel (n / 10),
          length-append (digits fuel (n / 10)) ((48 + n % 10) ∷ []),
        ))
]

length-level_str-le : (level : ℕ) → length (level_str level) ≤ 7
unfolding level_str
length-level_str-le level = ground arith

-- A string is at most as long as the bytes before a NUL.
length-c_str-drop : (n : ℕ) (a : Bytes) → drop n a ≡ 0 ∷ [] → length (c_str a) ≤ n
unfolding drop c_str
length-c_str-drop zero a h = subst (λ b. length (c_str b) ≤ 0) (sym h) (omega arith)
length-c_str-drop (suc n) [] h = omega arith
length-c_str-drop (suc n) (x ∷ xs) h = ground (arith, length-c_str-drop n xs h)

length-joined-append :
    (xs ys : List Bytes) → length (joined (xs ++ ys)) ≡ length (joined xs) + length (joined ys)
length-joined-append [] ys = omega arith
length-joined-append (x ∷ xs) ys = omega (
  arith,
  length-append (c_str x) (joined (xs ++ ys)),
  length-append (c_str x) (joined xs),
  length-joined-append xs ys,
)

length-only_if-le : (b : Bool) (t : Bytes) → length (joined (only_if b t)) ≤ length t
length-only_if-le true t = omega (arith, length-append (c_str t) [], length-c_str-le t)
length-only_if-le false t = omega arith

-- A bracketed string, with the blank behind it.
length-bracketed :
    (start t : Bytes) → length (start ++ t ++ codes "] ") ≡ length start + length t + 2
length-bracketed start t =
    omega (arith, length-append (start ++ t) (codes "] "), length-append start t)

-- The time takes at most 34 bytes, the level 10, the thread 27 and the tag 34.
pub length-prefixes-le :
    (level : ℕ) (at : Location) (m : Message) (l : Logger)
    → IsLogger l
    → length (c_str m.time_str) ≤ 31
    → length (joined (prefixes level at m l)) ≤ 105 + length (joined (location_text at))
unfolding prefixes
length-prefixes-le level at m l v h =
    let time = codes "[" ++ c_str m.time_str ++ codes "] " in
    let name = codes "[" ++ level_str level ++ codes "] " in
    let thread = codes "[TID:" ++ unsigned m.thread ++ codes "] " in
    let tag = codes "[" ++ c_str l.context_tag ++ codes "] " in
    omega (
      arith,
      h,
      length-bracketed (codes "[") (c_str m.time_str),
      length-bracketed (codes "[") (level_str level),
      length-bracketed (codes "[TID:") (unsigned m.thread),
      length-bracketed (codes "[") (c_str l.context_tag),
      length-level_str-le level,
      length-digits-le 20 m.thread,
      length-c_str-drop 31 l.context_tag v.tag_end,
      length-only_if-le (has_flag l.flags 4) time,
      length-only_if-le true name,
      length-only_if-le (has_flag l.flags 2) thread,
      length-only_if-le (tag_is_set l.context_tag) tag,
      length-joined-append (only_if (has_flag l.flags 4) time) _,
      length-joined-append (only_if true name) _,
      length-joined-append (only_if (has_flag l.flags 2) thread) _,
      length-joined-append (only_if (tag_is_set l.context_tag) tag) (location_text at),
    )
