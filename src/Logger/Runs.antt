-- ===== src/Logger/Runs.antt =====
-- Runs of calls of the logger's API on one handle, against a description that knows only the
-- settings.
pub mod Follow
use study_c.Prelude.{
  ℕ, zero, suc, ◌+◌, ◌-◌, ◌%◌, ◌^◌, ◌≤◌, ◌≡◌, refl, sym, ap, ◌∙◌, inl, inr, Bool, true, false,
  Option, none, some, List, [], ◌∷◌, ◌++◌, arith, Bytes, c_str, length, take, drop, set, strncpy,
  replicate, pad, ltb, if◌then◌else◌, ℤ, c_str-pad, c_str-set_zero, length-strncpy, length-set,
  length-pad, drop-append, append_assoc,
}
use study_c.Logger.{
  Logger, Message, Location, Effect, nowhere, on_handle, has_flag, output, gated, level_trace,
  level_debug, level_info, level_warn, level_error, level_fatal,
}
use study_c.Logger.Calls.{log_at, log, trace, debug, info, warn, error, fatal}
use study_c.Logger.Control.{
  init, set_level, get_level, stats, stats_reset, set_context_tag, copy_tag,
}
use study_c.Logger.Bounds.{IsLogger}
use study_c.Logger.Output.{
  View, IsView, Fits, line_effects, counted, gated_effects, gated_view, output-View, gated-View,
}

-- The calls.
pub data Op : Type 0 where
  traced : Message → Op
  debugged : Message → Op
  informed : Message → Op
  warned : Message → Op
  failed : Message → Op
  died : Message → Op
  logged : ℕ → Message → Op
  logged_at : ℕ → Location → Message → Op
  leveled : ℕ → Op
  tagged : Option Bytes → Op
  cleared : Op

abbrev quiet : Option Logger → Option (List Effect × Option Logger)
quiet h = some ([], h)

-- The state after a call, and what it puts out.
unfoldable pub apply : Op → Option Logger → Option (List Effect × Option Logger)
apply (traced m) h = trace m h
apply (debugged m) h = debug m h
apply (informed m) h = info m h
apply (warned m) h = warn m h
apply (failed m) h = error m h
apply (died m) h = fatal m h
apply (logged level m) h = log level m h
apply (logged_at level at m) h = log_at level at m h
apply (leveled level) h = quiet (set_level level h)
apply (tagged tag) h = quiet (set_context_tag tag h).1
apply cleared h = quiet (stats_reset h).1

unfoldable pub run : List Op → Option Logger → Option (List Effect × Option Logger)
run [] h = some ([], h)
run (op ∷ ops) h = elim (apply op h) [
  | none ↦ none
  | some (effects, h') ↦ elim (run ops h') [
    | none ↦ none
    | some (rest, h'') ↦ some (effects ++ rest, h'')
  ]
]

-- The same on the settings.
unfoldable pub described : Op → View → List Effect
described (traced m) v = gated_effects level_trace nowhere m v
described (debugged m) v = gated_effects level_debug nowhere m v
described (informed m) v = gated_effects level_info nowhere m v
described (warned m) v = gated_effects level_warn nowhere m v
described (failed m) v = gated_effects level_error nowhere m v
described (died m) v = line_effects level_fatal nowhere m v
described (logged level m) v = gated_effects level nowhere m v
described (logged_at level at m) v = gated_effects level at m v
described (leveled level) v = []
described (tagged tag) v = []
described cleared v = []

-- A tag is cut to 31 bytes.
abbrev pub tag_text : Option Bytes → Bytes
tag_text none = []
tag_text (some tag) = take 31 (c_str tag)

unfoldable pub next_view : Op → View → View
next_view (traced m) v = gated_view level_trace v
next_view (debugged m) v = gated_view level_debug v
next_view (informed m) v = gated_view level_info v
next_view (warned m) v = gated_view level_warn v
next_view (failed m) v = gated_view level_error v
next_view (died m) v = counted v
next_view (logged level m) v = gated_view level v
next_view (logged_at level at m) v = gated_view level v
next_view (leveled level) v = record v { min_level = level }
next_view (tagged tag) v = record v { tag = tag_text tag }
next_view cleared v = record v { total = 0; dropped = 0 }

unfoldable pub described_all : List Op → View → List Effect
described_all [] v = []
described_all (op ∷ ops) v = described op v ++ described_all ops (next_view op v)

unfoldable pub last_view : List Op → View → View
last_view [] v = v
last_view (op ∷ ops) v = last_view ops (next_view op v)

-- The calls with a message have room for it.
abbrev pub OpFits : Op → Type 0
OpFits (traced m) = Fits nowhere m
OpFits (debugged m) = Fits nowhere m
OpFits (informed m) = Fits nowhere m
OpFits (warned m) = Fits nowhere m
OpFits (failed m) = Fits nowhere m
OpFits (died m) = Fits nowhere m
OpFits (logged level m) = Fits nowhere m
OpFits (logged_at level at m) = Fits at m
OpFits (leveled level) = Unit {0}
OpFits (tagged tag) = Unit {0}
OpFits cleared = Unit {0}

abbrev pub AllFit : List Op → Type 0
AllFit [] = Unit {0}
AllFit (op ∷ ops) = OpFits op × AllFit ops

-- How many messages were given since the statistics were cleared, with `n` before the run.
abbrev pub messages_after : Op → ℕ → ℕ
messages_after (leveled level) n = n
messages_after (tagged tag) n = n
messages_after cleared n = 0
messages_after _ n = n + 1

abbrev pub messages_since : ℕ → List Op → ℕ
messages_since n [] = n
messages_since n (op ∷ ops) = messages_since (messages_after op n) ops

-- The settings that ulog_init gives.
abbrev pub init_view : Bool → ℕ → ℕ → View
init_view opens level flags = record {
  flags = flags;
  min_level = level;
  tag = [];
  to_file = if has_flag flags 1 then opens else false;
  total = 0;
  dropped = 0;
}
