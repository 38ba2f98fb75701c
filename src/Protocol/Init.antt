-- ===== src/Protocol/Init.antt =====
-- What mgmt_request_init and mgmt_response_init put on the wire.
use study_c.Prelude.{
  ℕ, ◌≤◌, ◌<◌, ◌≡◌, refl, some, arith, Bytes, c_str, take, min, length, c_str-strncpy,
  length-strncpy, length-memcpy, length-replicate, take-memcpy, memcpy, strncpy, replicate, ◌∙◌,
}
use study_c.Protocol.{
  Timespec, Request, Response, request_init, response_init, payload_request_size,
  payload_response_size, module_name_size, copy_len, zero_request, zero_response, epoch,
}

-- The sizes that the C types fix.
pub record IsRequest (r : Request) : Type 0 where
  pub name_size : length r.target_module ≡ module_name_size
  pub payload_size : length r.payload ≡ payload_request_size

pub record IsResponse (r : Response) : Type 0 where
  pub name_size : length r.source_module ≡ module_name_size
  pub payload_size : length r.payload ≡ payload_response_size

copy_len-eq-min : (size len : ℕ) → copy_len size len ≡ min len size
copy_len-eq-min size len = ground arith

-- A copy of `min len size` bytes into a cleared buffer of `size` bytes.
length-copied :
    (size len : ℕ) (p : Bytes)
    → len ≤ length p
    → length (memcpy (replicate size 0) p (copy_len size len)) ≡ size
length-copied size len p h = rw (copy_len-eq-min size len) (
    length-memcpy (replicate size 0) p (min len size)
      (omega (arith, length-replicate {A = ℕ} size 0)) (omega arith)
    ∙ length-replicate size 0)

take-copied :
    (size len : ℕ) (p : Bytes)
    → len ≤ length p
    → take (min len size) (memcpy (replicate size 0) p (copy_len size len)) ≡ take (min len size) p
take-copied size len p h =
    rw (copy_len-eq-min size len) (take-memcpy (replicate size 0) p (min len size) (omega arith))

length-copied_name : (m : Bytes) → length (strncpy (replicate module_name_size 0) m 63) ≡ 64
length-copied_name m =
    length-strncpy (replicate module_name_size 0) m 63
      (omega (arith, length-replicate {A = ℕ} 64 0))
    ∙ length-replicate module_name_size 0

-- With a payload, mgmt_request_init fills a structure of the fixed sizes: `target_module` is the
-- given name cut to 63 bytes, `payload_len` is the given length capped at 512, that many bytes of
-- the payload are copied, and the command and the clock's reading are stored.
pub request_init-fills :
    (now : Timespec) (old : Request) (cmd : ℕ) (m p : Bytes) (len : ℕ)
    → 0 < len
    → len ≤ length p
    → (r : Request) × (request_init now (some old) cmd (some m) (some p) len ≡ some r)
      × IsRequest r
      × (c_str r.target_module ≡ take 63 (c_str m))
      × (r.payload_len ≡ min len payload_request_size)
      × (take r.payload_len r.payload ≡ take (min len payload_request_size) p)
      × (r.cmd_type ≡ cmd)
      × (r.timestamp ≡ now)
unfolding request_init
request_init-fills now old cmd m p len h k = (
  record zero_request {
    cmd_type = cmd;
    timestamp = now;
    target_module = strncpy (replicate module_name_size 0) m 63;
    payload = memcpy (replicate payload_request_size 0) p (copy_len payload_request_size len);
    payload_len = min len payload_request_size;
  },
  ground arith,
  record {
    name_size = length-copied_name m;
    payload_size = length-copied payload_request_size len p k;
  },
  c_str-strncpy m 63 module_name_size,
  refl,
  take-copied payload_request_size len p k,
  refl,
  refl,
)

-- mgmt_response_init leaves nothing of the old structure: the result has the fixed sizes, the
-- given id and code, the name cut to 63 bytes, the payload's first `min len 2048` bytes, the
-- clock's reading as `response_timestamp`, and a zero `request_timestamp`.
pub response_init-fills :
    (now : Timespec) (old : Response) (id code : ℕ) (m p : Bytes) (len : ℕ)
    → 0 < len
    → len ≤ length p
    → (r : Response) × (response_init now (some old) id code (some m) (some p) len ≡ some r)
      × IsResponse r
      × (c_str r.source_module ≡ take 63 (c_str m))
      × (take (min len payload_response_size) r.payload ≡ take (min len payload_response_size) p)
      × (r.request_id ≡ id)
      × (r.result_code ≡ code)
      × (r.response_timestamp ≡ now)
      × (r.request_timestamp ≡ epoch)
unfolding response_init
response_init-fills now old id code m p len h k = (
  record zero_response {
    request_id = id;
    result_code = code;
    response_timestamp = now;
    source_module = strncpy (replicate module_name_size 0) m 63;
    payload = memcpy (replicate payload_response_size 0) p (copy_len payload_response_size len);
  },
  ground arith,
  record {
    name_size = length-copied_name m;
    payload_size = length-copied payload_response_size len p k;
  },
  c_str-strncpy m 63 module_name_size,
  take-copied payload_response_size len p k,
  refl,
  refl,
  refl,
  refl,
)
