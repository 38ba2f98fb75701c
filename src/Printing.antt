-- ===== src/Printing.antt =====
-- A text that is put together in a buffer by
--   offset += snprintf(buf + offset, size - offset, ...)
-- as Common/src/unified_logger.c, Mgmt/src/event_handler.c and Mgmt/src/metrics_collector.c do. The
-- size is a size_t: where the offset is past the end, `size - offset` wraps to a huge number.
pub mod Pieces
pub mod Exact
pub mod Checked
pub mod Overflow
use study_c.Prelude.{
  ℕ, ◌+◌, ◌-◌, ◌%◌, ◌^◌, Option, none, some, List, [], ◌∷◌, ◌++◌, Bytes, Bool, true, false, leb,
  ltb, if◌then◌else◌, take, drop, length, c_str, snprintf_str,
}

-- The buffer and the offset.
pub record Cursor : Type 0 where
  pub buf : Bytes
  pub offset : ℕ

-- One such line, whose conversions give the string `text`; `none` is a write behind the buffer. The
-- offset grows by the length that the text has, also where it is cut.
unfoldable pub print : Bytes → Cursor → Option Cursor
print text c =
    if ltb (length c.buf) c.offset
    then none
    else some (record {
      buf =
          take c.offset c.buf ++ snprintf_str (drop c.offset c.buf) text (length c.buf - c.offset);
      offset = c.offset + length (c_str text);
    })

unfoldable pub print_all : List Bytes → Cursor → Option Cursor
print_all [] c = some c
print_all (text ∷ texts) c = elim (print text c) [ none ↦ none | some c' ↦ print_all texts c' ]

abbrev pub at_front : Bytes → Cursor
at_front buf = record { buf = buf; offset = 0 }

-- `offset >= (int)size - 1`: the cast keeps 32 bits of the size, and reads them as signed.
unfoldable pub at_end : ℕ → ℕ → Bool
at_end size offset = if ltb (size % 2 ^ 32) (2 ^ 31) then leb (size % 2 ^ 32 - 1) offset else true

-- The line and the check behind it, `if (offset >= (int)size - 1) return -1`: `false` with the
-- cursor is the return.
unfoldable pub append : Bytes → Cursor → Option (Bool × Cursor)
append text c = elim (print text c) [
  | none ↦ none
  | some c' ↦ some (if at_end (length c.buf) c'.offset then false else true, c')
]

unfoldable pub append_all : List Bytes → Cursor → Option (Bool × Cursor)
append_all [] c = some (true, c)
append_all (text ∷ texts) c = elim (append text c) [
  | none ↦ none
  | some (false, c') ↦ some (false, c')
  | some (true, c') ↦ append_all texts c'
]
