-- ===== src/Logger/Global.antt =====
-- Common/include/unified_logger.h: the macros ULOG_*_AT and GLOG_*, which log with the place of the
-- call; and safe_strerror, of that header and of Common/include/debug_log.h.
use study_c.Prelude.{
  ℕ, ◌≤◌, ◌≡◌, refl, Bool, true, false, Option, none, some, List, [], ◌++◌, Bytes, codes, c_str,
  snprintf_str, ℤ, decimal, arith, length, length-take, c_str-snprintf_str, if◌then◌else◌,
}
use study_c.Logger.{
  Logger, Effect, Message, Location, level_trace, level_debug, level_info, level_warn, level_error,
  level_fatal,
}
use study_c.Logger.Calls.{log_at}

-- `__FILE__, __LINE__, __func__`
abbrev pub here : Bytes → ℤ → Bytes → Location
here file line func = record { file = some file; line = line; func = some func }

unfoldable pub ulog_trace_at :
    Location → Message → Option Logger → Option (List Effect × Option Logger)
ulog_trace_at = log_at level_trace

unfoldable pub ulog_debug_at :
    Location → Message → Option Logger → Option (List Effect × Option Logger)
ulog_debug_at = log_at level_debug

unfoldable pub ulog_info_at :
    Location → Message → Option Logger → Option (List Effect × Option Logger)
ulog_info_at = log_at level_info

unfoldable pub ulog_warn_at :
    Location → Message → Option Logger → Option (List Effect × Option Logger)
ulog_warn_at = log_at level_warn

unfoldable pub ulog_error_at :
    Location → Message → Option Logger → Option (List Effect × Option Logger)
ulog_error_at = log_at level_error

unfoldable pub ulog_fatal_at :
    Location → Message → Option Logger → Option (List Effect × Option Logger)
ulog_fatal_at = log_at level_fatal

-- log_get_handle gives `g_default_logger`, the state of the macros on the global logger.
unfoldable pub log_get_handle : Option Logger → Option Logger
log_get_handle g = g

unfoldable pub glog_trace :
    Location → Message → Option Logger → Option (List Effect × Option Logger)
glog_trace at m g = ulog_trace_at at m (log_get_handle g)

unfoldable pub glog_debug :
    Location → Message → Option Logger → Option (List Effect × Option Logger)
glog_debug at m g = ulog_debug_at at m (log_get_handle g)

unfoldable pub glog_info : Location → Message → Option Logger → Option (List Effect × Option Logger)
glog_info at m g = ulog_info_at at m (log_get_handle g)

unfoldable pub glog_warn : Location → Message → Option Logger → Option (List Effect × Option Logger)
glog_warn at m g = ulog_warn_at at m (log_get_handle g)

unfoldable pub glog_err : Location → Message → Option Logger → Option (List Effect × Option Logger)
glog_err at m g = ulog_error_at at m (log_get_handle g)

unfoldable pub glog_fatal :
    Location → Message → Option Logger → Option (List Effect × Option Logger)
glog_fatal at m g = ulog_fatal_at at m (log_get_handle g)

-- GLOG_INFO before log_init loses its message, and makes no logger.
pub glog_info_unmade : (at : Location) (m : Message) → glog_info at m none ≡ some ([], none)
unfolding glog_info ulog_info_at log_get_handle log_at
glog_info_unmade at m = refl

-- Where the GNU strerror_r leaves the text: in the buffer that it is given, or elsewhere.
pub data Answer : Type 0 where
  in_errbuf elsewhere : Bytes → Answer

abbrev pub errbuf_size : ℕ
errbuf_size = 64

-- With _GNU_SOURCE: what `errbuf`, which is returned, holds, by what it held before.
unfoldable pub safe_strerror_gnu : Bytes → Answer → Bytes
safe_strerror_gnu errbuf (in_errbuf bytes) = bytes
safe_strerror_gnu errbuf (elsewhere p) = snprintf_str errbuf p errbuf_size

-- Without: strerror_r says whether it fails, and leaves `errbuf`.
unfoldable pub safe_strerror : Bool → Bytes → ℤ → Bytes
safe_strerror fails errbuf errnum =
    if fails then snprintf_str errbuf (codes "error " ++ decimal errnum) errbuf_size else errbuf

printed_short : (old p : Bytes) → length (c_str (snprintf_str old p errbuf_size)) ≤ 63
printed_short old p = rw (c_str-snprintf_str old p 63) (omega (arith, length-take 63 (c_str p)))

-- The string that is returned has at most 63 bytes, if one that strerror_r leaves in the buffer
-- has.
pub safe_strerror-short :
    (fails : Bool) (errbuf old : Bytes) (p : Bytes) (errnum : ℤ)
    → length (c_str errbuf) ≤ 63
    → (length (c_str (safe_strerror fails errbuf errnum)) ≤ 63)
      × (length (c_str (safe_strerror_gnu old (elsewhere p))) ≤ 63)
unfolding safe_strerror safe_strerror_gnu
safe_strerror-short true errbuf old p errnum h =
    (printed_short errbuf (codes "error " ++ decimal errnum), printed_short old p)
safe_strerror-short false errbuf old p errnum h = (h, printed_short old p)
