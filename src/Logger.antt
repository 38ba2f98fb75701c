-- ===== src/Logger.antt =====
-- Common/include/unified_logger.h and Common/src/unified_logger.c: levelled logging to syslog and a
-- file. A handle that may be NULL is an `Option`; the lock makes each function's locked region one
-- step, and the level is tested before it. What printf makes of a format and its arguments, the
-- time and the thread's number are arguments, and so are the bytes on the stack that the message's
-- buffer takes. The effects of a call are listed in order. `none` as a result is a write behind the
-- buffer.
pub mod Calls
pub mod Control
pub mod Global
pub mod Bounds
pub mod Output
pub mod Tag
pub mod Runs
use study_c.Prelude.{
  ℕ, ◌+◌, ◌-◌, ◌/◌, ◌%◌, ◌^◌, Bool, true, false, Option, none, some, List, [], ◌∷◌, ◌++◌, ◌&&◌,
  Bytes, codes, unsigned, decimal, c_str, strncpy, replicate, set, get_elem?, ltb, ◌==◌, not,
  if◌then◌else◌, ℤ, ret_ok, ret_err,
}
use study_c.Printing.{Cursor, print_all, at_front}

-- `UlogLevel`, which C passes as an unsigned integer
abbrev pub level_trace : ℕ
level_trace = 0

abbrev pub level_debug : ℕ
level_debug = 1

abbrev pub level_info : ℕ
level_info = 2

abbrev pub level_warn : ℕ
level_warn = 3

abbrev pub level_error : ℕ
level_error = 4

abbrev pub level_fatal : ℕ
level_fatal = 5

abbrev pub max_log_message_len : ℕ
max_log_message_len = 2048

-- The priorities of syslog.
pub data Priority : Type 0 where
  log_crit : Priority
  log_err : Priority
  log_warning : Priority
  log_info : Priority
  log_debug : Priority

unfoldable pub level_to_syslog_priority : ℕ → Priority
level_to_syslog_priority level =
    if level == level_trace
    then log_debug
    else if level == level_debug
    then log_debug
    else if level == level_info
    then log_info
    else if level == level_warn
    then log_warning
    else if level == level_error
    then log_err
    else if level == level_fatal
    then log_crit
    else log_info

unfoldable pub level_str : ℕ → Bytes
level_str level =
    if level == level_trace
    then codes "TRACE"
    else if level == level_debug
    then codes "DEBUG"
    else if level == level_info
    then codes "INFO"
    else if level == level_warn
    then codes "WARN"
    else if level == level_error
    then codes "ERROR"
    else if level == level_fatal
    then codes "FATAL"
    else codes "UNKNOWN"

-- `struct UlogContext`; `file_ptr` is whether the file is open.
pub record Logger : Type 0 where
  pub ident : Bytes  -- char[64]
  pub min_level : ℕ
  pub flags : ℕ  -- uint32_t
  pub syslog_enabled : Bool
  pub file_enabled : Bool
  pub file_ptr : Bool
  pub total_messages : ℕ  -- uint64_t
  pub dropped_messages : ℕ  -- uint64_t
  pub context_tag : Bytes  -- char[32]

-- What the functions do outside the process.
pub data Effect : Type 0 where
  open_log : Bytes → Effect
  close_log : Effect
  open_file : Effect
  close_file : Effect
  syslog : Priority → Bytes → Effect
  write_line : Bytes → Effect

-- The arguments of a call: the message as formatted, the time as strftime gives it, the thread and
-- the stack's bytes.
pub record Message : Type 0 where
  pub text : Bytes
  pub time_str : Bytes
  pub thread : ℕ
  pub memory : Bytes

-- `file`, `line` and `func`
pub record Location : Type 0 where
  pub file : Option Bytes
  pub line : ℤ
  pub func : Option Bytes

abbrev pub nowhere : Location
nowhere = record { file = none; line = ℤ.pos 0; func = none }

-- `flags & bit`, for a power of two
abbrev pub has_flag : ℕ → ℕ → Bool
has_flag flags bit = flags / bit % 2 == 1

-- A line of ulog_output that stands under a condition.
abbrev pub only_if : Bool → Bytes → List Bytes
only_if true text = text ∷ []
only_if false text = []

abbrev pub tag_is_set : Bytes → Bool
tag_is_set tag = elim (get_elem? tag 0) [ none ↦ false | some b ↦ not (b == 0) ]

abbrev pub location_text : Location → List Bytes
location_text at = elim at.file [
  | none ↦ []
  | some file ↦ elim at.func [
    | none ↦ []
    | some func ↦
        (codes "["
          ++ c_str file
          ++ codes ":"
          ++ decimal at.line
          ++ codes ":"
          ++ c_str func
          ++ codes "] ")
        ∷ []
  ]
]

-- The lines of ulog_output before the message.
unfoldable pub prefixes : ℕ → Location → Message → Logger → List Bytes
prefixes level at m l =
    only_if (has_flag l.flags 4) (codes "[" ++ c_str m.time_str ++ codes "] ")
    ++ (only_if true (codes "[" ++ level_str level ++ codes "] ")
        ++ (only_if (has_flag l.flags 2) (codes "[TID:" ++ unsigned m.thread ++ codes "] ")
            ++ (only_if (tag_is_set l.context_tag) (codes "[" ++ c_str l.context_tag ++ codes "] ")
                ++ location_text at)))

abbrev pub effect_if : Bool → Effect → List Effect
effect_if true e = e ∷ []
effect_if false e = []

-- Where the message is printed, and counted.
abbrev pub emit : ℕ → Logger → Bytes → List Effect × Logger
emit level l message = (
  effect_if l.syslog_enabled (syslog (level_to_syslog_priority level) (c_str message))
      ++ effect_if (l.file_enabled && l.file_ptr) (write_line (c_str message)),
  record l { total_messages = (l.total_messages + 1) % 2 ^ 64 },
)

-- ulog_output on a handle that is given.
unfoldable pub output : ℕ → Location → Message → Logger → Option (List Effect × Logger)
output level at m l =
    elim (print_all (prefixes level at m l ++ (m.text ∷ [])) (at_front m.memory)) [
      | none ↦ none
      | some c ↦ some (emit level l c.buf)
    ]

abbrev pub drop_message : Logger → Logger
drop_message l = record l { dropped_messages = (l.dropped_messages + 1) % 2 ^ 64 }

-- ulog_log_at on a handle that is given: the test of the level, and the output.
unfoldable pub gated : ℕ → Location → Message → Logger → Option (List Effect × Logger)
gated level at m l =
    if ltb level l.min_level then some ([], drop_message l) else output level at m l

-- A function on a handle that may be NULL, where NULL does nothing.
abbrev pub on_handle :
    (Logger → Option (List Effect × Logger)) → Option Logger → Option (List Effect × Option Logger)
on_handle f none = some ([], none)
on_handle f (some l) = elim (f l) [ none ↦ none | some (effects, l') ↦ some (effects, some l') ]
