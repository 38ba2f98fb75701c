-- ===== src/Protocol/Latency.antt =====
-- mgmt_response_latency_us and mgmt_request_validate.
use study_c.Prelude.{
  ℕ, ◌+◌, ◌-◌, ◌*◌, ◌/◌, ◌^◌, ◌≤◌, ◌<◌, ◌≡◌, ◌↔◌, true, false, some, arith, pos, Bytes, [], ◌∷◌,
  c_str, length,
}
use study_c.Protocol.{
  Timespec, Request, Response, response_latency_us, time_us, request_validate, name_is_empty,
  cmd_max, payload_request_size,
}

-- A clock reading after 1970 and before the year 500000.
pub record IsTime (t : Timespec) (s n : ℕ) : Type 0 where
  pub seconds : t.sec ≡ s
  pub nanoseconds : t.nsec ≡ pos n
  pub sec_small : s < 2 ^ 44
  pub nsec_small : n < 1000000000

time_us_exact : {t : Timespec} {s n : ℕ} → IsTime t s n → time_us t ≡ s * 1000000 + n / 1000
unfolding time_us
time_us_exact {t} {s} {n} h = ground (arith, h.seconds, h.nanoseconds)

-- On clock readings that do not wrap, the latency is the difference of the two times in
-- microseconds, and 0 where the response is not later than the request.
pub response_latency_us_exact :
    (r : Response) (s n s' n' : ℕ)
    → IsTime r.request_timestamp s n
    → IsTime r.response_timestamp s' n'
    → response_latency_us (some r) ≡ (s' * 1000000 + n' / 1000) - (s * 1000000 + n / 1000)
unfolding response_latency_us
response_latency_us_exact r s n s' n' h h' = ground (arith, time_us_exact h, time_us_exact h')

name_is_empty_iff : (name : Bytes) → (name_is_empty name ≡ false) ↔ (0 < length (c_str name))
unfolding c_str
name_is_empty_iff [] = (λ h. cc, λ h. absurd (omega arith))
name_is_empty_iff (x ∷ xs) = (λ h. ground arith, λ h. ground arith)

-- mgmt_request_validate accepts exactly the requests with a command below 16, a target name that
-- is not the empty string, and a payload length of at most 512.
pub request_validate_iff :
    (r : Request)
    → (request_validate (some r) ≡ true) ↔ (
        (r.cmd_type < cmd_max)
        × (0 < length (c_str r.target_module))
        × (r.payload_len ≤ payload_request_size))
unfolding request_validate
request_validate_iff r = (
  λ h. ground (arith, (name_is_empty_iff r.target_module).0),
  λ h. ground (arith, (name_is_empty_iff r.target_module).1),
)
