-- ===== src/Registry/Dispatch/Serve.antt =====
-- What handler_dispatch does on each of its branches, run with nothing between its regions.
use study_c.Prelude.{
  Bool-cases, ap, ℕ, ◌+◌, ◌%◌, ◌^◌, ◌≡◌, refl, ◌∙◌, ◌⊎◌, inl, inr, true, false, Option, none, some,
  arith, get_elem?, Bytes, ℤ, ret_err, ret_internal, is_zero, if◌then◌else◌, Option-cases,
  length-set, get_elem?-set_self, get_elem?-lt,
}
use study_c.Protocol.{
  Request, Response, request_validate, response_latency_us, result_module_not_found, target_region,
  result_invalid_cmd,
}
use study_c.Registry.{Entry, Registry, find, update_at}
use study_c.Registry.Find.{live, matches_congr}
use study_c.Registry.Search.{find_entry-set, find_entry-get, Distinct-set}
use study_c.Registry.Live.{find-some, find-none, live-update_at, update_at-some}
use study_c.Registry.Valid.{IsValid, AllLive-get, AllLive-set}
use study_c.Registry.Views.{view}
use study_c.Registry.Dispatch.{
  call_and_finish, chosen, prepare, begin, settle, count_call, finish, call, dispatch,
}

module _ {H C : Type 0} where
  -- The second region keeps the bindings of every key.
  view-finish :
      (i : ℕ) (result : ℤ) (resp : Response) (r : Registry H C) (e : Entry H C)
      → IsValid r
      → get_elem? r.entries i ≡ some e
      → get_elem? (live r) i ≡ some e
      → (cmd : ℕ) (name : Bytes) → view (finish i result resp r).1 cmd name ≡ view r cmd name
  unfolding view finish
  view-finish i result resp r e v g gl cmd name =
      let e' = count_call (response_latency_us (some (settle result resp))) e in
      rw
        (
          live-update_at r i e (count_call (response_latency_us (some (settle result resp)))) g,
          find_entry-set cmd name (live r) i e' e v.distinct gl refl refl,
        )
        (ground (
          arith,
          matches_congr cmd name e' e refl refl,
          find_entry-get cmd name (live r) i e v.distinct gl,
        ))

  pub finish-IsValid :
      (i : ℕ) (result : ℤ) (resp : Response) (r : Registry H C) (e : Entry H C)
      → IsValid r
      → get_elem? r.entries i ≡ some e
      → get_elem? (live r) i ≡ some e
      → IsValid (finish i result resp r).1
  unfolding finish
  finish-IsValid i result resp r e v g gl =
      let f = count_call (response_latency_us (some (settle result resp))) in
      let le = AllLive-get (live r) i e v.all_live gl in
      record {
        slots = rw (update_at-some r.entries i e f g) (length-set r.entries i (f e) ∙ v.slots);
        counted = v.counted;
        all_live = rw (live-update_at r i e f g) (
            AllLive-set (live r) i (f e) v.all_live
              (record { bound = le.bound; known = le.known; terminated = le.terminated }));
        distinct =
            rw (live-update_at r i e f g) (Distinct-set (live r) i (f e) e v.distinct gl refl refl);
      }

  -- The pointer that the search leaves.
  find-view :
      (cmd : ℕ) (name : Bytes) (r : Registry H C) {b : Option H × Option C}
      → view r cmd name ≡ some b
      → (i : ℕ) × (e : Entry H C) × (find cmd name r ≡ some i)
        × (get_elem? r.entries i ≡ some e)
        × (get_elem? (live r) i ≡ some e)
        × ((e.handler, e.context) ≡ b)
  unfolding view
  find-view cmd name r {b} h = elim (Option-cases (find cmd name r)) [
    | inl n ↦ ground (arith, find-none cmd name r n)
    | inr (i, f) ↦
        let (e, lt, g, gl, m, fe) = find-some cmd name r i f in (i, e, f, g, gl, ground (arith, fe))
  ]

  find_of_view :
      (cmd : ℕ) (name : Bytes) (r : Registry H C) → view r cmd name ≡ none → find cmd name r ≡ none
  unfolding view
  find_of_view cmd name r h = elim (Option-cases (find cmd name r)) [
    | inl n ↦ n
    | inr (i, f) ↦ let (e, lt, g, gl, m, fe) = find-some cmd name r i f in ground (arith, fe)
  ]

  -- No key is bound to a null handler.
  view-bound :
      (cmd : ℕ) (name : Bytes) (r : Registry H C) (b : Option H × Option C)
      → IsValid r
      → view r cmd name ≡ some b
      → (h : H) × (b.0 ≡ some h)
  view-bound cmd name r b v e =
      let (i, d, f, g, gl, p) = find-view cmd name r {b = b} e in
      let le = AllLive-get (live r) i d v.all_live gl in
      elim (Option-cases (b.0)) [
        | inl n ↦ absurd (ground (arith, le.bound, ap (λ t. t.0) p))
        | inr q ↦ q
      ]

  begin-chosen :
      (req : Request) (resp : Response) (r : Registry H C) (i : ℕ)
      → request_validate (some req) ≡ true
      → find req.cmd_type (target_region req) r ≡ some i
      → begin (some req) (some resp) r ≡ chosen i req (prepare req resp)
  unfolding begin
  begin-chosen req resp r i ok f = rw (ok, f)

  -- The slot that the search finds has counted one call, and the latency.
  abbrev pub Counted : Request → ℕ → Registry H C → Registry H C → Type 0
  Counted req latency r r' =
      (i : ℕ) × (e : Entry H C) × (e' : Entry H C) × (find req.cmd_type (target_region req) r
        ≡ some i)
      × (get_elem? r.entries i ≡ some e)
      × (get_elem? r'.entries i ≡ some e')
      × (e'.invocation_count ≡ (e.invocation_count + 1) % 2 ^ 32)
      × (e'.total_latency_us ≡ (e.total_latency_us + latency) % 2 ^ 64)

  get-counted :
      (i latency : ℕ) (r : Registry H C) (e : Entry H C)
      → get_elem? r.entries i ≡ some e
      → get_elem? (update_at r.entries i (count_call latency)) i ≡ some (count_call latency e)
  get-counted i latency r e g =
      rw (update_at-some r.entries i e (count_call latency) g)
        (get_elem?-set_self r.entries i (count_call latency e) (get_elem?-lt r.entries i e g))

module _ {H C W : Type 0} (invoke : H → Option C → Request → Response → W → ℤ × Response × W) where
  call-some :
      (i : ℕ) (req : Request) (resp : Response) (r : Registry H C) (w : W) (e : Entry H C) (h : H)
      (c : Option C)
      → get_elem? r.entries i ≡ some e
      → e.handler ≡ some h
      → e.context ≡ c
      → call invoke i req resp r w ≡ some (invoke h c req resp w)
  unfolding call
  call-some i req resp r w e h c g p q = rw (g, call, p, q)

  -- A dispatched call, written out: the handler bound to the request's command and target name runs
  -- once on the prepared response, the return value is the handler's, the result code is settled by
  -- it, the totals and the slot's call and latency are counted, and the bindings are kept.
  abbrev pub Served :
      H
      → Option C
      → Request
      → Response
      → Registry H C
      → W
      → Option (ℤ × Option Response × Registry H C × W)
      → Type 0
  Served h c req resp r w out =
      let (result, resp', w') = invoke h c req (prepare req resp) w in
      (r' : Registry H C) × (out ≡ some (result, some (settle result resp'), r', w'))
      × IsValid r'
      × (r'.total_dispatches ≡ (r.total_dispatches + 1) % 2 ^ 32)
      × (r'.total_failures
          ≡ (if is_zero result then r.total_failures else (r.total_failures + 1) % 2 ^ 32))
      × ((cmd : ℕ) (name : Bytes) → view r' cmd name ≡ view r cmd name)
      × Counted req (response_latency_us (some (settle result resp'))) r r'

  -- On a valid registry, for a valid request whose command and target name are bound:
  -- handler_dispatch calls the bound handler once, on the prepared response, and returns what it
  -- returns; the result code is settled by that. The total of dispatches grows by one, the total of
  -- failures by one exactly if the handler did not return 0 (both modulo 2^32). The slot of the key
  -- counts one call more, modulo 2^32, and the latency of the response, modulo 2^64. The registry
  -- stays valid with every key bound as before.
  pub dispatch-Served :
      (req : Request) (resp : Response) (r : Registry H C) (w : W) {h : H} {c : Option C}
      → IsValid r
      → request_validate (some req) ≡ true
      → view r req.cmd_type (target_region req) ≡ some (some h, c)
      → Served h c req resp r w (dispatch invoke (some req) (some resp) r w)
  unfolding dispatch finish
  dispatch-Served req resp r w {h} {c} v ok b =
      let (i, e, f, g, gl, p) = find-view req.cmd_type (target_region req) r b in
      let (result, resp', w') = invoke h c req (prepare req resp) w in
      (
        (finish i result resp' r).1,
        rw
            (
              begin-chosen req resp r i ok f,
              call_and_finish,
              call-some i req (prepare req resp) r w e h c g (ap (λ t. t.0) p) (ap (λ t. t.1) p),
            )
            refl,
        finish-IsValid i result resp' r e v g gl,
        refl,
        refl,
        view-finish i result resp' r e v g gl,
        (
          i,
          e,
          count_call (response_latency_us (some (settle result resp'))) e,
          f,
          g,
          get-counted i (response_latency_us (some (settle result resp'))) r e g,
          refl,
          refl,
        ),
      )

  -- Without a handler bound to the key, a valid request gets MGMT_RESULT_MODULE_NOT_FOUND and -1;
  -- an invalid request gets MGMT_RESULT_INVALID_CMD and -3. Neither is counted: the registry and
  -- the process stay as they are.
  pub dispatch_refuses :
      (req : Request) (resp : Response) (r : Registry H C) (w : W)
      → (view r req.cmd_type (target_region req) ≡ none) ⊎ (request_validate (some req) ≡ false)
      → dispatch invoke (some req) (some resp) r w ≡ (
          if request_validate (some req)
          then some (ret_err, some (record resp { result_code = result_module_not_found }), r, w)
          else some (ret_internal, some (record resp { result_code = result_invalid_cmd }), r, w))
  unfolding dispatch begin
  dispatch_refuses req resp r w h = elim h [
    | inl n ↦ ground (arith, find_of_view req.cmd_type (target_region req) r n)
    | inr b ↦ ground arith
  ]

  -- On a valid registry handler_dispatch always comes back, with a response and a valid registry.
  pub dispatch-total :
      (req : Request) (resp : Response) (r : Registry H C) (w : W)
      → IsValid r
      → (result : ℤ) × (resp' : Response) × (r' : Registry H C) × (w' : W) × (dispatch invoke
            (some req)
            (some resp)
            r
            w
          ≡ some (result, some resp', r', w'))
        × IsValid r'
  dispatch-total req resp r w v = elim (Bool-cases (request_validate (some req))) [
    | inr bad ↦ (
      ret_internal,
      record resp { result_code = result_invalid_cmd },
      r,
      w,
      dispatch_refuses req resp r w (inr bad) ∙ simp bad,
      v,
    )
    | inl ok ↦ elim (Option-cases (view r req.cmd_type (target_region req))) [
      | inl n ↦ (
        ret_err,
        record resp { result_code = result_module_not_found },
        r,
        w,
        dispatch_refuses req resp r w (inl n) ∙ simp ok,
        v,
      )
      | inr (hc, b) ↦
          let (h, p) = view-bound req.cmd_type (target_region req) r hc v b in
          let b' : view r req.cmd_type (target_region req) ≡ some (some h, hc.1) =
            b ∙ ap (λ x. some (x, hc.1)) p in
          let (r', e, v', td, tf, vw, cnt) =
            dispatch-Served req resp r w {h = h} {c = hc.1} v ok b' in
          let (result, resp', w') = invoke h (hc.1) req (prepare req resp) w in
          (result, settle result resp', r', w', e, v')
    ]
  ]
