-- ===== src/Logger/Output.antt =====
-- What a logging call puts out, in terms of the logger's settings.
use study_c.Prelude.{
  ℕ, ◌+◌, ◌-◌, ◌%◌, ◌^◌, ◌≤◌, ◌<◌, ◌≡◌, refl, ap, ◌∙◌, inl, inr, ◌↔◌, Bool, true, false, none, some,
  List, [], ◌∷◌, ◌++◌, ◌&&◌, not, arith, Bytes, codes, unsigned, c_str, length, take, ltb, ◌==◌,
  if◌then◌else◌, Bool-cases,
}
use study_c.Logger.{
  Logger, Message, Location, Effect, syslog, write_line, only_if, effect_if, level_str,
  level_to_syslog_priority, prefixes, has_flag, tag_is_set, location_text, output, gated,
  drop_message, max_log_message_len,
}
use study_c.Logger.Bounds.{IsLogger, length-prefixes-le}
use study_c.Printing.Exact.{joined, print_all-last}
use study_c.Printing.Overflow.{print_all_overflow, le_or_lt}

-- The settings of a logger, and its counts without a bound.
pub record View : Type 0 where
  pub flags : ℕ
  pub min_level : ℕ
  pub tag : Bytes
  pub to_file : Bool
  pub total : ℕ
  pub dropped : ℕ

-- A logger, made by ulog_init, with these settings and counts.
pub record IsView (v : View) (l : Logger) : Type 0 where
  pub valid : IsLogger l
  pub same_flags : l.flags ≡ v.flags
  pub same_level : l.min_level ≡ v.min_level
  pub same_tag : c_str l.context_tag ≡ v.tag
  pub enabled : l.syslog_enabled ≡ true
  pub same_file : (l.file_enabled && l.file_ptr) ≡ v.to_file
  pub same_total : l.total_messages ≡ v.total % 2 ^ 64
  pub same_dropped : l.dropped_messages ≡ v.dropped % 2 ^ 64

abbrev pub is_empty : Bytes → Bool
is_empty [] = true
is_empty (x ∷ xs) = false

-- The line of a call: what the flags ask for, the level, the tag where it is not empty, the
-- location where it is given, and the message, all cut to 2047 bytes.
abbrev pub line_prefixes : ℕ → Location → Message → View → List Bytes
line_prefixes level at m v =
    only_if (has_flag v.flags 4) (codes "[" ++ c_str m.time_str ++ codes "] ")
    ++ (only_if true (codes "[" ++ level_str level ++ codes "] ")
        ++ (only_if (has_flag v.flags 2) (codes "[TID:" ++ unsigned m.thread ++ codes "] ")
            ++ (only_if (not (is_empty v.tag)) (codes "[" ++ v.tag ++ codes "] ")
                ++ location_text at)))

abbrev pub line_text : ℕ → Location → Message → View → Bytes
line_text level at m v =
    take (max_log_message_len - 1) (joined (line_prefixes level at m v) ++ c_str m.text)

-- The line goes to syslog, and to the file where there is one.
abbrev pub line_effects : ℕ → Location → Message → View → List Effect
line_effects level at m v =
    syslog (level_to_syslog_priority level) (line_text level at m v)
    ∷ effect_if v.to_file (write_line (line_text level at m v))

-- A call whose time and location leave room: localtime's 19 characters are in 31, and the
-- location's brackets, file, line and function in 1943.
pub record Fits (at : Location) (m : Message) : Type 0 where
  pub room : length m.memory ≡ max_log_message_len
  pub short_time : length (c_str m.time_str) ≤ 31
  pub short_location : length (joined (location_text at)) ≤ 1943

tag_is_set_iff : (tag : Bytes) → tag_is_set tag ≡ not (is_empty (c_str tag))
unfolding c_str
tag_is_set_iff [] = refl
tag_is_set_iff (x ∷ xs) = elim (Bool-cases (x == 0)) [ inl e ↦ rw e refl | inr e ↦ rw e refl ]

prefixes-View :
    (level : ℕ) (at : Location) (m : Message) (v : View) (l : Logger)
    → IsView v l
    → prefixes level at m l ≡ line_prefixes level at m v
unfolding prefixes
prefixes-View level at m v l i = rw (i.same_flags, tag_is_set_iff l.context_tag, i.same_tag) refl

abbrev pub counted : View → View
counted v = record v { total = v.total + 1 }

abbrev pub passed_over : View → View
passed_over v = record v { dropped = v.dropped + 1 }

pub output-View :
    (level : ℕ) (at : Location) (m : Message) (v : View) (l : Logger)
    → IsView v l
    → Fits at m
    → (l' : Logger) × (output level at m l ≡ some (line_effects level at m v, l'))
      × IsView (counted v) l'
unfolding output
output-View level at m v l i f =
    let (c, e, n, h) = print_all-last (prefixes level at m l) m.text m.memory (
      omega
        (arith, length-prefixes-le level at m l i.valid f.short_time, f.room, f.short_location)) in
    let t : c_str c.buf ≡ line_text level at m v =
      h ∙ rw (f.room, prefixes-View level at m v l i) refl in
    (
      record l { total_messages = (l.total_messages + 1) % 2 ^ 64 },
      rw (e, output, i.enabled, i.same_file, t) refl,
      record {
        valid = record { tag_length = i.valid.tag_length; tag_end = i.valid.tag_end };
        same_flags = i.same_flags;
        same_level = i.same_level;
        same_tag = i.same_tag;
        enabled = i.enabled;
        same_file = i.same_file;
        same_total = omega (arith, i.same_total);
        same_dropped = i.same_dropped;
      },
    )

-- What a call at a level does, by the test of the level.
abbrev pub gated_effects : ℕ → Location → Message → View → List Effect
gated_effects level at m v = if ltb level v.min_level then [] else line_effects level at m v

abbrev pub gated_view : ℕ → View → View
gated_view level v = if ltb level v.min_level then passed_over v else counted v

gate-true :
    (level : ℕ) (at : Location) (m : Message) (v : View) (l : Logger)
    → IsView v l
    → ltb level v.min_level ≡ true
    → gated level at m l ≡ some ([], drop_message l)
unfolding gated
gate-true level at m v l i e =
    let d : ltb level l.min_level ≡ true = ap (ltb level) i.same_level ∙ e in rw d refl

gate-false :
    (level : ℕ) (at : Location) (m : Message) (v : View) (l : Logger)
    → IsView v l
    → ltb level v.min_level ≡ false
    → gated level at m l ≡ output level at m l
unfolding gated
gate-false level at m v l i e =
    let d : ltb level l.min_level ≡ false = ap (ltb level) i.same_level ∙ e in rw d refl

pub gated-View :
    (level : ℕ) (at : Location) (m : Message) (v : View) (l : Logger)
    → IsView v l
    → Fits at m
    → (l' : Logger) × (gated level at m l ≡ some (gated_effects level at m v, l'))
      × IsView (gated_view level v) l'
unfolding gated
gated-View level at m v l i f = elim (Bool-cases (ltb level v.min_level)) [
  | inl e ↦ (
    drop_message l,
    gate-true level at m v l i e ∙ rw e refl,
    rw e (record {
      valid = record { tag_length = i.valid.tag_length; tag_end = i.valid.tag_end };
      same_flags = i.same_flags;
      same_level = i.same_level;
      same_tag = i.same_tag;
      enabled = i.enabled;
      same_file = i.same_file;
      same_total = i.same_total;
      same_dropped = omega (arith, i.same_dropped);
    }),
  )
  | inr e ↦
      let (l', o, i') = output-View level at m v l i f in
      (l', gate-false level at m v l i e ∙ rw e o, rw e i')
]

-- On any buffer for the message ulog_output writes behind it exactly where the parts before the
-- message are together longer than it is.
pub output_overflow_iff :
    (level : ℕ) (at : Location) (m : Message) (l : Logger)
    → (output level at m l ≡ none) ↔ (length m.memory < length (joined (prefixes level at m l)))
unfolding output
output_overflow_iff level at m l = (
  λ e. elim (le_or_lt (length (joined (prefixes level at m l))) (length m.memory)) [
    | inl le ↦
        let (c, p, n, h) = print_all-last (prefixes level at m l) m.text m.memory le in
        absurd (ground (arith, e, p))
    | inr lt ↦ lt
  ],
  λ h. rw (print_all_overflow (prefixes level at m l) m.text m.memory h, output) refl,
)
