-- ===== src/Handlers/Register.antt =====
-- The table that the registration of a module's commands leaves.
use study_c.Prelude.{
  ℕ, ◌+◌, ◌≤◌, ◌<◌, ◌≡◌, refl, ap, inl, inr, Option, none, some, arith, Bytes, ret_ok,
  if◌then◌else◌, c_str, length, Bool-cases, leb,
}
use study_c.Protocol.{cmd_max, cmd_ping, cmd_get_status, cmd_shutdown}
use study_c.Registry.{Registry, register, register_at, max_event_handlers, find}
use study_c.Registry.Valid.{IsValid, register-IsValid}
use study_c.Registry.Views.{view, view-register, same_key}
use study_c.Handlers.{
  Node, collector, router, viewer, handler_ping, handler_get_status, handler_shutdown, Context,
  Table, mgmt_register, module_text,
}

module _ {H C : Type 0} where
  register_at-count :
      (o : Option ℕ) (name : Bytes) (cmd : ℕ) (h : Option H) (c : Option C) (r : Registry H C)
      → (register_at o name cmd h c r).1.entry_count ≤ r.entry_count + 1
  unfolding register_at
  register_at-count none name cmd h c r = ground arith
  register_at-count (some i) name cmd h c r = omega arith

  -- Registration in a table with room.
  register-room :
      (name : Bytes) (cmd : ℕ) (h : H) (c : Option C) (r : Registry H C)
      → IsValid r
      → length (c_str name) ≤ 63
      → cmd < cmd_max
      → r.entry_count < max_event_handlers
      → (r' : Registry H C) × (register (some name) cmd (some h) c r ≡ (ret_ok, r'))
        × IsValid r'
        × (r'.entry_count ≤ r.entry_count + 1)
        × ((cmd' : ℕ) (name' : Bytes)
            → view r' cmd' name'
              ≡ (if same_key cmd name cmd' name' then some (some h, c) else view r cmd' name'))
  unfolding register
  register-room name cmd h c r v hn hc room = elim (view-register cmd name h c r v hn) [
    | inl (e, inl big) ↦ absurd (omega arith)
    | inl (e, inr (full, q)) ↦ absurd (omega arith)
    | inr (z, k) ↦ (
      (register (some name) cmd (some h) c r).1,
      ap (λ x. (x, (register (some name) cmd (some h) c r).1)) z,
      register-IsValid name cmd (some h) c r hn v,
      elim (Bool-cases (leb cmd_max cmd)) [
        | inl big ↦ absurd (ground arith)
        | inr small ↦ rw small (register_at-count (find cmd name r) name cmd (some h) c r)
      ],
      k,
    )
  ]

short_name : (node : Node) → length (c_str (module_text node)) ≤ 63
unfolding c_str
short_name collector = omega arith
short_name router = omega arith
short_name viewer = omega arith

-- On a valid table with room for three entries, the registration of a module's commands returns 0,
-- with a valid table: PING, GET_STATUS and SHUTDOWN for the module's name are bound to the module's
-- handlers with the given context, and every other key is bound as before.
pub mgmt_register-binds :
    (node : Node) (ctx : Context) (r : Table)
    → IsValid r
    → r.entry_count + 3 ≤ max_event_handlers
    → (r' : Table) × (mgmt_register node ctx r ≡ (ret_ok, r'))
      × IsValid r'
      × ((cmd : ℕ) (name : Bytes)
          → view r' cmd name ≡ (
              if same_key cmd_shutdown (module_text node) cmd name
              then some (some (handler_shutdown node), some ctx)
              else if same_key cmd_get_status (module_text node) cmd name
              then some (some (handler_get_status node), some ctx)
              else if same_key cmd_ping (module_text node) cmd name
              then some (some (handler_ping node), some ctx)
              else view r cmd name))
unfolding mgmt_register
mgmt_register-binds node ctx r v room =
    let name = module_text node in
    let short = short_name node in
    let (r1, e1, v1, n1, k1) =
      register-room name cmd_ping (handler_ping node) (some ctx) r v short (omega arith)
        (omega arith) in
    let (r2, e2, v2, n2, k2) =
      register-room name cmd_get_status (handler_get_status node) (some ctx) r1 v1 short
        (omega arith) (omega arith) in
    let (r3, e3, v3, n3, k3) =
      register-room name cmd_shutdown (handler_shutdown node) (some ctx) r2 v2 short (omega arith)
        (omega arith) in
    (r3, simp (e1, e2, e3), v3, λ cmd name'. rw (k3 cmd name', k2 cmd name', k1 cmd name') refl)
