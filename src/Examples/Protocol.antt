-- ===== src/Examples/Protocol.antt =====
-- Messages of mgmt_protocol.c.
use study_c.Prelude.{
  ◌+◌, ◌-◌, ◌*◌, ◌/◌, ◌≡◌, refl, some, [], ◌∷◌, arith, pos, codes, c_str, take, min,
}
use study_c.Protocol.{
  Timespec, Request, Response, request_init, response_latency_us, zero_request, zero_response,
  payload_request_size,
}
use study_c.Protocol.Init.{IsRequest, request_init-fills}
use study_c.Protocol.Latency.{IsTime, response_latency_us_exact}

abbrev noon : Timespec
noon = record { sec = 43200; nsec = pos 5000 }

abbrev later : Timespec
later = record { sec = 43201; nsec = pos 1000 }

request_init-fills_example :
    (r : Request) × (request_init noon
        (some zero_request)
        4
        (some (codes "viewer"))
        (some (1 ∷ 2 ∷ 3 ∷ 4 ∷ []))
        4
      ≡ some r)
    × IsRequest r
    × (c_str r.target_module ≡ take 63 (c_str (codes "viewer")))
    × (r.payload_len ≡ min 4 payload_request_size)
    × (take r.payload_len r.payload ≡ take (min 4 payload_request_size) (1 ∷ 2 ∷ 3 ∷ 4 ∷ []))
    × (r.cmd_type ≡ 4)
    × (r.timestamp ≡ noon)
request_init-fills_example =
    request_init-fills noon zero_request 4 (codes "viewer") (1 ∷ 2 ∷ 3 ∷ 4 ∷ []) 4 (omega arith)
      (omega arith)

abbrev answered : Response
answered = record zero_response { request_timestamp = noon; response_timestamp = later }

noon-IsTime : IsTime noon 43200 5000
noon-IsTime = record {
  seconds = refl;
  nanoseconds = refl;
  sec_small = omega arith;
  nsec_small = omega arith;
}

later-IsTime : IsTime later 43201 1000
later-IsTime = record {
  seconds = refl;
  nanoseconds = refl;
  sec_small = omega arith;
  nsec_small = omega arith;
}

response_latency_us_exact_example :
    response_latency_us (some answered)
    ≡ (43201 * 1000000 + 1000 / 1000) - (43200 * 1000000 + 5000 / 1000)
response_latency_us_exact_example =
    response_latency_us_exact answered 43200 5000 43201 1000 noon-IsTime later-IsTime
