-- ===== src/Ipc/Build.antt =====
-- What build_internal_msg puts into a message, and what its readers get.
use study_c.Prelude.{
  ℕ, ◌<◌, ◌^◌, ◌≢◌, ◌≡◌, arith, Option, some, Bytes, take, c_str, length, c_str-set-strncpy, ◌∙◌,
  length-set, length-strncpy, length-replicate, strncpy, replicate,
}
use study_c.Ipc.{EventType, build_internal_msg, sig_num, payload_size}

-- A message with a text holds the text, cut to 255 bytes and terminated, in its 256 bytes.
pub build_internal_msg-text :
    (event : EventType) (text : Bytes)
    → (c_str (build_internal_msg event (some text) 0).payload ≡ take 255 (c_str text))
      × (length (build_internal_msg event (some text) 0).payload ≡ payload_size)
unfolding build_internal_msg
build_internal_msg-text event text = (
  c_str-set-strncpy (replicate payload_size 0) text 255,
  length-set (strncpy (replicate payload_size 0) text 255) 255 0
      ∙ length-strncpy (replicate payload_size 0) text 255
          (omega (arith, length-replicate {A = ℕ} payload_size 0))
      ∙ length-replicate payload_size 0,
)

-- A signal number that is not 0 is read back from the message, whether or not a text was given:
-- the number overwrites the first four bytes of the text.
pub sig_num-build_internal_msg :
    (event : EventType) (text : Option Bytes) (sig : ℕ)
    → sig ≢ 0
    → sig < 2 ^ 32
    → sig_num (build_internal_msg event text sig) ≡ sig
unfolding build_internal_msg
sig_num-build_internal_msg event text sig h k = ground arith
