-- ===== src/Socket/Counts.antt =====
-- What mgmt_socket_process_one answers and counts, and mgmt_socket_process_all.
use study_c.Prelude.{
  ◌⊎◌, ◌+◌, ◌≡◌, refl, ap, ◌∙◌, inl, inr, Bool, true, false, Option, none, some, arith,
  if◌then◌else◌, ℤ, ret_ok, ret_err, is_zero, is_negative, Bool-cases, Option-cases,
}
use study_c.Protocol.{Request, Response, zero_response}
use study_c.Registry.{Registry}
use study_c.Registry.Valid.{IsValid}
use study_c.Registry.Dispatch.{dispatch}
use study_c.Registry.Dispatch.Serve.{dispatch-total}
use study_c.Socket.{
  MgmtSocket, Io, Processed, process_one, u64, is_positive, receive, respond, nothing_done,
  count_request, count_failure,
}

module _ {H C W : Type 0} (invoke : H → Option C → Request → Response → W → ℤ × Response × W) where
  -- The result of a call that received `req`, by what the dispatch returned.
  abbrev pub answered : Io → MgmtSocket → ℤ → Response → Registry H C → W → Processed H C W
  answered io s result resp r w = record {
    code = if io.delivered then ret_ok else ret_err;
    reply = if io.delivered then some resp else none;
    socket = record s {
      total_requests = u64 (s.total_requests + 1);
      total_responses = if io.delivered then u64 (s.total_responses + 1) else s.total_responses;
      failed_requests = if is_zero result then s.failed_requests else u64 (s.failed_requests + 1);
    };
    registry = r;
    process = w;
  }

  -- A request that is received on an open socket is dispatched once, with a zeroed response: the
  -- response of the dispatch goes out, the request is counted, the response is counted if it was
  -- delivered, and a failure if the dispatch did not return 0. The registry stays valid, and the
  -- call returns 0 exactly if the response was delivered.
  pub process_one-answers :
      (timeout_ms : ℤ) (io : Io) (s : MgmtSocket) (r : Registry H C) (w : W) (req : Request)
      → IsValid r
      → is_negative s.socket_fd ≡ false
      → io.timeout_set ≡ true
      → io.received ≡ some req
      → (result : ℤ) × (resp : Response) × (r' : Registry H C) × (w' : W) × (dispatch invoke
            (some req)
            (some zero_response)
            r
            w
          ≡ some (result, some resp, r', w'))
        × IsValid r'
        × (process_one invoke timeout_ms io s r w ≡ some (answered io s result resp r' w'))
  unfolding process_one
  process_one-answers timeout_ms io s r w req v fd ts rec =
      let (result, resp, r', w', e, v') = dispatch-total invoke req zero_response r w v in
      (result, resp, r', w', e, v', ground (arith, e))

  -- What one call does to an open socket: it returns, with the descriptor and a valid registry, and
  -- it has counted a response exactly if its code is not negative.
  abbrev pub IsStep : MgmtSocket → Processed H C W → Type 0
  IsStep s p =
      IsValid p.registry
      × (p.socket.socket_fd ≡ s.socket_fd)
      × (((is_negative p.code ≡ false) × (p.socket.total_responses ≡ u64 (s.total_responses + 1)))
          ⊎ ((is_negative p.code ≡ true) × (p.socket.total_responses ≡ s.total_responses)))

  nothing_done-IsStep :
      (s : MgmtSocket) (r : Registry H C) (w : W) → IsValid r → IsStep s (nothing_done s r w)
  nothing_done-IsStep s r w v = (v, refl, inr (refl, refl))

  count_failure-keeps :
      (result : ℤ) (s : MgmtSocket)
      → ((count_failure result s).socket_fd ≡ s.socket_fd)
        × ((count_failure result s).total_responses ≡ s.total_responses)
  count_failure-keeps result s = elim (Bool-cases (is_zero result)) [
    | inl e ↦ (simp e, simp e)
    | inr e ↦ (simp e, simp e)
  ]

  respond-IsStep :
      (delivered : Bool) (s : MgmtSocket) (result : ℤ) (resp : Response) (r : Registry H C) (w : W)
      → IsValid r
      → (p : Processed H C W) × (respond delivered
            (count_request s)
            (some (result, some resp, r, w))
          ≡ some p)
        × IsStep s p
  respond-IsStep true s result resp r w v =
      let (fd, n) = count_failure-keeps result (count_request s) in
      (_, refl, (v, fd, inl (refl, ap (λ x. u64 (x + 1)) n)))
  respond-IsStep false s result resp r w v =
      let (fd, n) = count_failure-keeps result (count_request s) in
      (_, refl, (v, fd, inr (refl, n)))

  receive-IsStep :
      (io : Io) (s : MgmtSocket) (r : Registry H C) (w : W)
      → IsValid r
      → (p : Processed H C W) × (receive invoke io s r w ≡ some p) × IsStep s p
  receive-IsStep io s r w v = elim (Option-cases io.received) [
    | inl n ↦ (
      nothing_done s r w,
      ap
          (λ m. elim m [
            | none ↦ some (nothing_done s r w)
            | some req ↦
                respond io.delivered (count_request s)
                  (dispatch invoke (some req) (some zero_response) r w)
          ])
          n,
      nothing_done-IsStep s r w v,
    )
    | inr (req, e) ↦
        let (result, resp, r', w', d, v') = dispatch-total invoke req zero_response r w v in
        let (p, q, st) = respond-IsStep io.delivered s result resp r' w' v' in
        (
          p,
          ap
                (λ m. elim m [
                  | none ↦ some (nothing_done s r w)
                  | some req ↦
                      respond io.delivered (count_request s)
                        (dispatch invoke (some req) (some zero_response) r w)
                ])
                e
              ∙ ap (respond io.delivered (count_request s)) d
              ∙ q,
          st,
        )
  ]

  pub process_one-IsStep :
      (timeout_ms : ℤ) (io : Io) (s : MgmtSocket) (r : Registry H C) (w : W)
      → IsValid r
      → (p : Processed H C W) × (process_one invoke timeout_ms io s r w ≡ some p) × IsStep s p
  unfolding process_one
  process_one-IsStep timeout_ms io s r w v =
      let nothing = nothing_done-IsStep s r w v in
      elim (Bool-cases (is_negative s.socket_fd)) [
        | inl e ↦ (nothing_done s r w, simp e, nothing)
        | inr e ↦ elim (Bool-cases (is_positive timeout_ms)) [
          | inl t ↦ elim (Bool-cases io.timeout_set) [
            | inl ts ↦ let (p, q, st) = receive-IsStep io s r w v in (p, (simp (e, t, ts)) ∙ q, st)
            | inr ts ↦ (nothing_done s r w, simp (e, t, ts), nothing)
          ]
          | inr t ↦ let (p, q, st) = receive-IsStep io s r w v in (p, (simp (e, t)) ∙ q, st)
        ]
      ]
