-- ===== src/Examples/Texts.antt =====
-- Texts that are printed to a buffer: the registry's list, the metrics and log lines.
use study_c.Prelude.{
  ℕ, ◌-◌, ◌%◌, ◌^◌, ◌≤◌, ◌<◌, ◌≡◌, ◌↔◌, refl, true, false, none, some, List, [], ◌∷◌, ◌++◌, ◌||◌,
  ◌==◌, arith, ℤ, pos, ret_err, Bytes, codes, c_str, length, take, replicate, ltb, if◌then◌else◌,
  length-replicate, strncpy, pad, drop,
}
use study_c.Protocol.{cmd_ping, command_str}
use study_c.Registry.{Registry, at_start, register, register_at, find, find_from, update_at}
use study_c.Registry.Listing.{
  handler_list, list_text, entries_text, head_text, entry_text, tail_text,
}
use study_c.Registry.Listing.Text.{handler_list-text}
use study_c.Metrics.{Snapshot, zero_snapshot}
use study_c.Metrics.Json.{snapshot_to_json, json, snapshot_to_json-text}
use study_c.Logger.{
  Logger, syslog, log_warning, level_str, level_to_syslog_priority, Location, Message, nowhere,
  output, prefixes, max_log_message_len,
}
use study_c.Logger.Control.{init, get_level, stats}
use study_c.Logger.Output.{Fits, output_overflow_iff}
use study_c.Logger.Runs.{
  Op, informed, debugged, leveled, tagged, logged_at, run, described, next_view, described_all,
  last_view, init_view, messages_since,
}
use study_c.Logger.Runs.Follow.{run_described}
use study_c.Printing.Exact.{joined}

abbrev one : Registry ℕ ℕ
one = (register (some (codes "router")) cmd_ping (some 7) none at_start).1

abbrev page : Bytes
page = replicate 256 0

page-fits : 14 ≤ length page
page-fits = omega (arith, length-replicate {A = ℕ} 256 0)

page-small : length page < 2 ^ 31
page-small = omega (arith, length-replicate {A = ℕ} 256 0)

handler_list-text_example :
    (code : ℤ) × (buf' : Bytes) × (handler_list page one ≡ some (code, buf'))
    × (length buf' ≡ length page)
    × (c_str buf' ≡ take (length page - 1) (list_text one))
    × (code ≡ (
        if length (entries_text one.entries one.entry_count true) == 0
          || ltb
              (length (head_text ++ entries_text one.entries one.entry_count true))
              (length page - 1)
        then pos one.entry_count
        else ret_err))
handler_list-text_example = handler_list-text one page page-fits page-small

one_listed :
    list_text one
    ≡ codes
        "{\"handlers\": [{\"module\":\"router\",\"command\":\"PING\",\"invocations\":0,\"avg_latency_us\":0}], \"total_dispatches\": 0, \"total_failures\": 0}"
unfolding register register_at at_start entry_text tail_text c_str command_str replicate find
    find_from update_at strncpy pad drop
one_listed = refl

abbrev counts : Snapshot
counts = record zero_snapshot { snapshot_id = 3; total_events = 12 }

page-nonempty : 0 < length page
page-nonempty = omega (arith, length-replicate {A = ℕ} 256 0)

snapshot_to_json-text_example :
    (code : ℤ) × (buf' : Bytes) × (snapshot_to_json (some counts) page ≡ some (code, buf'))
    × (length buf' ≡ length page)
    × (c_str buf' ≡ take (length page - 1) (json counts))
    × (code ≡ (
        if ltb (length (json counts)) (length page - 1)
        then pos (length (json counts))
        else ret_err))
snapshot_to_json-text_example = snapshot_to_json-text counts page page-nonempty page-small

abbrev message : Bytes → Message
message text = record {
  text = text;
  time_str = codes "2026-01-31 12:00:00";
  thread = 7;
  memory = replicate max_log_message_len 9;
}

abbrev line_12 : Location
line_12 = record { file = some (codes "main.c"); line = pos 12; func = some (codes "main") }

nowhere-Fits : (text : Bytes) → Fits nowhere (message text)
unfolding c_str
nowhere-Fits text = record {
  room = length-replicate max_log_message_len 9;
  short_time = omega arith;
  short_location = omega arith;
}

line_12-Fits : (text : Bytes) → Fits line_12 (message text)
unfolding c_str
line_12-Fits text = record {
  room = length-replicate max_log_message_len 9;
  short_time = omega arith;
  short_location = omega arith;
}

-- A dropped message, one with a tag and a location, and one at a level that was raised.
abbrev calls : List Op
calls =
    debugged (message (codes "no"))
    ∷ tagged (some (codes "req-7"))
    ∷ logged_at 3 line_12 (message (codes "yes"))
    ∷ leveled 4
    ∷ informed (message (codes "no"))
    ∷ []

calls_logged :
    described_all calls (init_view false 2 5)
    ≡ syslog log_warning (codes "[2026-01-31 12:00:00] [WARN] [req-7] [main.c:12:main] yes") ∷ []
unfolding described_all described next_view level_str level_to_syslog_priority c_str take
calls_logged = refl

run_described_example :
    let v = init_view false 2 5 in
    (l : Logger) × (run calls (init true false (some (codes "Router")) 2 5).1
      ≡ some (described_all calls v, some l))
    × (get_level (some l) ≡ (last_view calls v).min_level)
    × (stats (some l)
        ≡ some (messages_since 0 calls % 2 ^ 64, (last_view calls v).dropped % 2 ^ 64))
run_described_example = run_described calls false (some (codes "Router")) 2 5 (
  nowhere-Fits (codes "no"),
  (tt, (line_12-Fits (codes "yes"), (tt, (nowhere-Fits (codes "no"), tt)))),
)

abbrev long_path : Location
long_path = record { file = some (replicate 2048 47); line = pos 1; func = some (codes "f") }

abbrev fresh : Logger
fresh = record {
  ident = [];
  min_level = 2;
  flags = 0;
  syslog_enabled = true;
  file_enabled = false;
  file_ptr = false;
  total_messages = 0;
  dropped_messages = 0;
  context_tag = replicate 32 0;
}

output_overflow_iff_example : (output 4 long_path (message (codes "x")) fresh ≡ none) ↔ (
    length (message (codes "x")).memory
    < length (joined (prefixes 4 long_path (message (codes "x")) fresh)))
output_overflow_iff_example = output_overflow_iff 4 long_path (message (codes "x")) fresh
