-- ===== src/Logger/Control.antt =====
-- Common/src/unified_logger.c: the making and the closing of a logger, its level, its statistics
-- and its tag, and the functions log_init to log_err on the global default logger.
use study_c.Prelude.{
  ℕ, ◌+◌, ◌-◌, ◌%◌, ◌^◌, Bool, true, false, Option, none, some, List, [], ◌∷◌, ◌++◌, Bytes, codes,
  strncpy, replicate, set, if◌then◌else◌, ℤ, ret_ok, ret_err,
}
use study_c.Logger.{
  Logger, Effect, open_log, close_log, open_file, close_file, Message, nowhere, output, has_flag,
  effect_if, level_info, level_warn, level_error,
}

abbrev pub ident_size : ℕ
ident_size = 64

abbrev pub context_tag_size : ℕ
context_tag_size = 32

-- The `ident` field of cleared memory, after the copy.
abbrev pub copy_ident : Option Bytes → Bytes
copy_ident none = replicate ident_size 0
copy_ident (some ident) = strncpy (replicate ident_size 0) ident (ident_size - 1)

-- ulog_init, by whether malloc gives memory and whether fopen succeeds.
unfoldable pub init : Bool → Bool → Option Bytes → ℕ → ℕ → List Effect × Option Logger
init false opens ident level flags = ([], none)
init true opens ident level flags =
    let want_file = has_flag flags 1 in
    (
      open_log (copy_ident ident) ∷ effect_if want_file open_file,
      some (record {
        ident = copy_ident ident;
        min_level = level;
        flags = flags;
        syslog_enabled = true;
        file_enabled = if want_file then opens else false;
        file_ptr = if want_file then opens else false;
        total_messages = 0;
        dropped_messages = 0;
        context_tag = replicate context_tag_size 0;
      }),
    )

-- ulog_close; the handle is free behind it.
unfoldable pub close : Option Logger → List Effect
close none = []
close (some l) = effect_if l.file_ptr close_file ++ (close_log ∷ [])

unfoldable pub set_level : ℕ → Option Logger → Option Logger
set_level level none = none
set_level level (some l) = some (record l { min_level = level })

unfoldable pub get_level : Option Logger → ℕ
get_level none = level_info
get_level (some l) = l.min_level

-- ulog_stats with both out-pointers given; `none` stands for the return of -1.
unfoldable pub stats : Option Logger → Option (ℕ × ℕ)
stats none = none
stats (some l) = some ((l.total_messages + l.dropped_messages) % 2 ^ 64, l.dropped_messages)

unfoldable pub stats_reset : Option Logger → ℤ × Option Logger
stats_reset none = (ret_err, none)
stats_reset (some l) = (ret_ok, some (record l { total_messages = 0; dropped_messages = 0 }))

-- The tag's bytes after `strncpy(tag, .., 31)`, which writes no byte behind the 31, or `tag[0] =
-- 0`.
abbrev pub copy_tag : Option Bytes → Bytes → Bytes
copy_tag none old = set old 0 0
copy_tag (some tag) old = strncpy old tag (context_tag_size - 1)

unfoldable pub set_context_tag : Option Bytes → Option Logger → ℤ × Option Logger
set_context_tag tag none = (ret_err, none)
set_context_tag tag (some l) =
    (ret_ok, some (record l { context_tag = copy_tag tag l.context_tag }))

-- log_init: `g_default_logger` is made once.
unfoldable pub log_init : Bool → Bytes → Option Logger → List Effect × Option Logger
log_init memory ident (some l) = ([], some l)
log_init memory ident none = init memory false (some ident) level_info 0

unfoldable pub log_close : Option Logger → List Effect × Option Logger
log_close none = ([], none)
log_close (some l) = (close (some l), none)

-- Common to log_info, log_warn and log_err: the default logger, made where it is missing, and the
-- output without a test of the level.
abbrev pub legacy : Bool → ℕ → Message → Option Logger → Option (List Effect × Option Logger)
legacy memory level m g =
    let (made, g') = log_init memory (codes "unknown") g in
    elim g' [
      | none ↦ some (made, none)
      | some l ↦ elim (output level nowhere m l) [
        | none ↦ none
        | some (effects, l') ↦ some (made ++ effects, some l')
      ]
    ]

unfoldable pub log_info : Bool → Message → Option Logger → Option (List Effect × Option Logger)
unfolding log_init init
log_info memory m g = legacy memory level_info m g

unfoldable pub log_warn : Bool → Message → Option Logger → Option (List Effect × Option Logger)
unfolding log_init init
log_warn memory m g = legacy memory level_warn m g

unfoldable pub log_err : Bool → Message → Option Logger → Option (List Effect × Option Logger)
unfolding log_init init
log_err memory m g = legacy memory level_error m g
