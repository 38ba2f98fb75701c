-- ===== src/Logger/Runs/Follow.antt =====
-- The logger follows the description in every run.
use study_c.Prelude.{
  ℕ, ◌+◌, ◌%◌, ◌^◌, ◌≡◌, refl, ap, inl, inr, Bool, Bool-cases, true, false, ◌&&◌, Option, some,
  List, [], ◌∷◌, arith, Bytes, c_str, drop, replicate, ltb, if◌then◌else◌,
}
use study_c.Logger.{
  Logger, Message, Location, Effect, nowhere, on_handle, has_flag, output, gated, level_trace,
  level_debug, level_info, level_warn, level_error, level_fatal,
}
use study_c.Logger.Calls.{log_at, log, trace, debug, info, warn, error, fatal}
use study_c.Logger.Control.{
  init, set_level, get_level, stats, stats_reset, set_context_tag, copy_tag,
}
use study_c.Logger.Runs.{
  Op, traced, debugged, informed, warned, failed, died, logged, logged_at, leveled, tagged, cleared,
  apply, run, described, next_view, described_all, last_view, OpFits, AllFit, messages_since,
  messages_after, init_view,
}
use study_c.Logger.Tag.{copy_tag-text, copy_tag-IsLogger}
use study_c.Logger.Output.{
  View, IsView, Fits, line_effects, counted, gated_effects, gated_view, output-View, gated-View,
}

-- A step of the code against the description.
abbrev Follows : Op → View → Option Logger → Type 0
Follows op v h =
    (l' : Logger) × (apply op h ≡ some (described op v, some l')) × IsView (next_view op v) l'

handled :
    (f : Logger → Option (List Effect × Logger)) (v : View) (effects : List Effect) (l : Logger)
    → ((l' : Logger) × (f l ≡ some (effects, l')) × IsView v l')
    → (l' : Logger) × (on_handle f (some l) ≡ some (effects, some l')) × IsView v l'
handled f v effects l (l', e, i) = (l', rw (e, on_handle) refl, i)

gated-Handled :
    (level : ℕ) (at : Location) (m : Message) (v : View) (l : Logger)
    → IsView v l
    → Fits at m
    → (l' : Logger) × (on_handle (gated level at m) (some l)
        ≡ some (gated_effects level at m v, some l'))
      × IsView (gated_view level v) l'
gated-Handled level at m v l i f =
    handled (gated level at m) (gated_view level v) (gated_effects level at m v) l
      (gated-View level at m v l i f)

apply-Follows : (op : Op) (v : View) (l : Logger) → IsView v l → OpFits op → Follows op v (some l)
unfolding apply described next_view trace debug info warn error fatal log log_at set_level
    set_context_tag stats_reset
apply-Follows (traced m) v l i f = gated-Handled level_trace nowhere m v l i f
apply-Follows (debugged m) v l i f = gated-Handled level_debug nowhere m v l i f
apply-Follows (informed m) v l i f = gated-Handled level_info nowhere m v l i f
apply-Follows (warned m) v l i f = gated-Handled level_warn nowhere m v l i f
apply-Follows (failed m) v l i f = gated-Handled level_error nowhere m v l i f
apply-Follows (died m) v l i f =
    handled (output level_fatal nowhere m) (counted v) (line_effects level_fatal nowhere m v) l
      (output-View level_fatal nowhere m v l i f)
apply-Follows (logged level m) v l i f = gated-Handled level nowhere m v l i f
apply-Follows (logged_at level at m) v l i f = gated-Handled level at m v l i f
apply-Follows (leveled level) v l i f = (
  record l { min_level = level },
  refl,
  record {
    valid = record { tag_length = i.valid.tag_length; tag_end = i.valid.tag_end };
    same_flags = i.same_flags;
    same_level = refl;
    same_tag = i.same_tag;
    enabled = i.enabled;
    same_file = i.same_file;
    same_total = i.same_total;
    same_dropped = i.same_dropped;
  },
)
apply-Follows (tagged tag) v l i f = (
  record l { context_tag = copy_tag tag l.context_tag },
  refl,
  record {
    valid = copy_tag-IsLogger tag l i.valid;
    same_flags = i.same_flags;
    same_level = i.same_level;
    same_tag = copy_tag-text tag l.context_tag i.valid.tag_end;
    enabled = i.enabled;
    same_file = i.same_file;
    same_total = i.same_total;
    same_dropped = i.same_dropped;
  },
)
apply-Follows cleared v l i f = (
  record l { total_messages = 0; dropped_messages = 0 },
  refl,
  record {
    valid = record { tag_length = i.valid.tag_length; tag_end = i.valid.tag_end };
    same_flags = i.same_flags;
    same_level = i.same_level;
    same_tag = i.same_tag;
    enabled = i.enabled;
    same_file = i.same_file;
    same_total = omega arith;
    same_dropped = omega arith;
  },
)

run-follows :
    (ops : List Op) (v : View) (l : Logger)
    → IsView v l
    → AllFit ops
    → (l' : Logger) × (run ops (some l) ≡ some (described_all ops v, some l'))
      × IsView (last_view ops v) l'
unfolding run described_all last_view
run-follows [] v l i f = (l, refl, i)
run-follows (op ∷ ops) v l i f =
    let (l1, e, i1) = apply-Follows op v l i f.0 in
    let (l2, e', i2) = run-follows ops (next_view op v) l1 i1 f.1 in (l2, rw (e, run, e') refl, i2)

gated-count :
    (level n : ℕ) (v : View)
    → v.total + v.dropped ≡ n
    → (gated_view level v).total + (gated_view level v).dropped ≡ n + 1
gated-count level n v h = elim (Bool-cases (ltb level v.min_level)) [
  | inl e ↦ rw e (omega (arith, h))
  | inr e ↦ rw e (omega (arith, h))
]

next_view-count :
    (op : Op) (n : ℕ) (v : View)
    → v.total + v.dropped ≡ n
    → (next_view op v).total + (next_view op v).dropped ≡ messages_after op n
unfolding next_view
next_view-count (traced m) n v h = gated-count level_trace n v h
next_view-count (debugged m) n v h = gated-count level_debug n v h
next_view-count (informed m) n v h = gated-count level_info n v h
next_view-count (warned m) n v h = gated-count level_warn n v h
next_view-count (failed m) n v h = gated-count level_error n v h
next_view-count (died m) n v h = omega (arith, h)
next_view-count (logged level m) n v h = gated-count level n v h
next_view-count (logged_at level at m) n v h = gated-count level n v h
next_view-count (leveled level) n v h = h
next_view-count (tagged tag) n v h = h
next_view-count cleared n v h = omega arith

last_view-count :
    (ops : List Op) (n : ℕ) (v : View)
    → v.total + v.dropped ≡ n
    → (last_view ops v).total + (last_view ops v).dropped ≡ messages_since n ops
unfolding last_view
last_view-count [] n v h = h
last_view-count (op ∷ ops) n v h =
    last_view-count ops (messages_after op n) (next_view op v) (next_view-count op n v h)

and_self : (b : Bool) → (b && b) ≡ b
and_self true = refl
and_self false = refl

init-View :
    (opens : Bool) (ident : Option Bytes) (level flags : ℕ)
    → (l : Logger) × ((init true opens ident level flags).1 ≡ some l)
      × IsView (init_view opens level flags) l
unfolding init replicate drop c_str
init-View opens ident level flags = (
  _,
  refl,
  record {
    valid = record { tag_length = refl; tag_end = refl };
    same_flags = refl;
    same_level = refl;
    same_tag = refl;
    enabled = refl;
    same_file = and_self (if has_flag flags 1 then opens else false);
    same_total = omega arith;
    same_dropped = omega arith;
  },
)

stats-View :
    (v : View) (n : ℕ) (l : Logger)
    → IsView v l
    → v.total + v.dropped ≡ n
    → stats (some l) ≡ some (n % 2 ^ 64, v.dropped % 2 ^ 64)
unfolding stats
stats-View v n l k h =
    let a : (l.total_messages + l.dropped_messages) % 2 ^ 64 ≡ n % 2 ^ 64 =
      omega (arith, h, k.same_total, k.same_dropped) in
    ap some (rw (a, k.same_dropped) refl)

-- For any run of calls on a logger that ulog_init has made, where each message's buffer has 2048
-- bytes, its time at most 31 characters and its location at most 1943: no call writes behind the
-- message's buffer; what goes to syslog and to the file is, in the order of the calls, a line for
-- each call at or above the minimum level of its time and for each ulog_fatal, with the tag of its
-- time cut to 31 bytes, and nothing for any other; and ulog_stats then reports the number of the
-- messages since the statistics were last cleared, modulo 2^64.
pub run_described :
    (ops : List Op) (opens : Bool) (ident : Option Bytes) (level flags : ℕ)
    → AllFit ops
    → let v = init_view opens level flags in
      (l : Logger) × (run ops (init true opens ident level flags).1
        ≡ some (described_all ops v, some l))
      × (get_level (some l) ≡ (last_view ops v).min_level)
      × (stats (some l) ≡ some (messages_since 0 ops % 2 ^ 64, (last_view ops v).dropped % 2 ^ 64))
unfolding get_level
run_described ops opens ident level flags f =
    let v = init_view opens level flags in
    let (l0, e, i) = init-View opens ident level flags in
    let (l, r, k) = run-follows ops v l0 i f in
    let v' = last_view ops v in
    (
      l,
      rw e r,
      k.same_level,
      stats-View v' (messages_since 0 ops) l k (last_view-count ops 0 v refl),
    )
