-- ===== src/Logger/Calls.antt =====
-- Common/src/unified_logger.c: the logging functions of the API, one for each level, and the two
-- that take the level.
use study_c.Prelude.{ℕ, Option, List}
use study_c.Logger.{
  Logger, Effect, Message, Location, nowhere, gated, output, on_handle, level_trace, level_debug,
  level_info, level_warn, level_error, level_fatal,
}

unfoldable pub log_at :
    ℕ → Location → Message → Option Logger → Option (List Effect × Option Logger)
log_at level at m = on_handle (gated level at m)

unfoldable pub log : ℕ → Message → Option Logger → Option (List Effect × Option Logger)
log level m = on_handle (gated level nowhere m)

unfoldable pub trace : Message → Option Logger → Option (List Effect × Option Logger)
trace m = on_handle (gated level_trace nowhere m)

unfoldable pub debug : Message → Option Logger → Option (List Effect × Option Logger)
debug m = on_handle (gated level_debug nowhere m)

unfoldable pub info : Message → Option Logger → Option (List Effect × Option Logger)
info m = on_handle (gated level_info nowhere m)

unfoldable pub warn : Message → Option Logger → Option (List Effect × Option Logger)
warn m = on_handle (gated level_warn nowhere m)

unfoldable pub error : Message → Option Logger → Option (List Effect × Option Logger)
error m = on_handle (gated level_error nowhere m)

-- ulog_fatal tests no level.
unfoldable pub fatal : Message → Option Logger → Option (List Effect × Option Logger)
fatal m = on_handle (output level_fatal nowhere m)
