-- ===== src/Registry/Views.antt =====
-- The registry as a map from a module's name and a command to a handler with its context.
use study_c.Prelude.{
  ℕ, ◌+◌, ◌≤◌, ◌<◌, ◌≡◌, refl, sym, ap, ◌∙◌, inl, inr, ◌⊎◌, ℤ, Bool, true, Option, none, some, List,
  [], ◌∷◌, ◌++◌, arith, length, get_elem?, Bytes, c_str, leb, str_eq, ◌==◌, ◌&&◌, if◌then◌else◌,
  Bool-cases, Option-cases, bytes_eq_sound, is_some, ret_ok, ret_err, is_zero,
}
use study_c.Protocol.{cmd_max}
use study_c.Registry.{
  Entry, Registry, max_event_handlers, find, register, register_at, unregister, unregister_at,
  rebind, fill, matches, update_at,
}
use study_c.Registry.Array.{get_elem?_of_lt}
use study_c.Registry.Find.{live, find_entry, find_entry_congr_key, matches-key}
use study_c.Registry.Search.{
  find_entry-set, find_entry-append, find_entry-append_some, find_entry-remove_at,
}
use study_c.Registry.Live.{find-some, find-none, live-update_at, live-added, live-removed}
use study_c.Registry.Valid.{IsValid, c_str-fill}

-- Whether two keys are the same.
unfoldable pub same_key : ℕ → Bytes → ℕ → Bytes → Bool
same_key cmd name cmd' name' = cmd == cmd' && str_eq name name'

module _ {H C : Type 0} where
  abbrev pub binding : Option (Entry H C) → Option (Option H × Option C)
  binding none = none
  binding (some e) = some (e.handler, e.context)

  -- What is registered for a command of a module.
  unfoldable pub view : Registry H C → ℕ → Bytes → Option (Option H × Option C)
  view r cmd name = binding (find_entry cmd name (live r))

  matches-same_key :
      (cmd cmd' : ℕ) (name name' : Bytes) (e : Entry H C)
      → e.cmd_type ≡ cmd
      → c_str e.module_name ≡ c_str name
      → matches cmd' name' e ≡ same_key cmd name cmd' name'
  unfolding same_key matches
  matches-same_key cmd cmd' name name' e p q = rw (p, q)

  view-rebound :
      (cmd cmd' : ℕ) (name name' : Bytes) (h : H) (c : Option C) (r : Registry H C)
      → IsValid r
      → (i : ℕ) → find cmd name r ≡ some i
      → view (record r { entries = update_at r.entries i (rebind (some h) c) }) cmd' name'
        ≡ (if same_key cmd name cmd' name' then some (some h, c) else view r cmd' name')
  unfolding view
  view-rebound cmd cmd' name name' h c r v i f =
      let (e, lt, g, gl, m, fe) = find-some cmd name r i f in
      let e' = rebind (some h) c e in
      let (p, q) = matches-key cmd name e m in
      rw
        (
          live-update_at r i e (rebind (some h) c) g,
          find_entry-set cmd' name' (live r) i e' e v.distinct gl refl refl,
          matches-same_key cmd cmd' name name' e' p q,
        )
        (elim (Bool-cases (same_key cmd name cmd' name')) [ inl k ↦ rw k refl | inr k ↦ rw k refl ])

  find_entry-added :
      (cmd' : ℕ) (name' : Bytes) (es : List (Entry H C)) (e : Entry H C)
      → (matches cmd' name' e ≡ true → find_entry cmd' name' es ≡ none)
      → find_entry cmd' name' (es ++ (e ∷ []))
        ≡ (if matches cmd' name' e then some e else find_entry cmd' name' es)
  find_entry-added cmd' name' es e new = elim (Option-cases (find_entry cmd' name' es)) [
    | inl n ↦ rw (find_entry-append cmd' name' es e n, n) refl
    | inr (d, n) ↦ ground (arith, find_entry-append_some cmd' name' es e d)
  ]

  view-added :
      (cmd cmd' : ℕ) (name name' : Bytes) (h : H) (c : Option C) (r : Registry H C) (e : Entry H C)
      → IsValid r
      → length (c_str name) ≤ 63
      → r.entry_count < max_event_handlers
      → find_entry cmd name (live r) ≡ none
      → get_elem? r.entries r.entry_count ≡ some e
      → view
          (record r {
            entries = update_at r.entries r.entry_count (fill cmd name (some h) c);
            entry_count = r.entry_count + 1;
          })
          cmd'
          name'
        ≡ (if same_key cmd name cmd' name' then some (some h, c) else view r cmd' name')
  unfolding view
  view-added cmd cmd' name name' h c r e v hn room f g =
      let e' = fill cmd name (some h) c e in
      let cs = c_str-fill cmd name (some h) c e hn in
      let new : matches cmd' name' e' ≡ true → find_entry cmd' name' (live r) ≡ none = λ m.
        let (p, q) = matches-key cmd' name' e' m in
        find_entry_congr_key cmd' cmd name' name (live r) (sym p) (sym q ∙ cs) ∙ f in
      rw
        (
          live-added r e (fill cmd name (some h) c) (omega (arith, v.slots)) g,
          find_entry-added cmd' name' (live r) e' new,
          matches-same_key cmd cmd' name name' e' refl cs,
        )
        (elim (Bool-cases (same_key cmd name cmd' name')) [ inl k ↦ rw k refl | inr k ↦ rw k refl ])

  -- What handler_register promises: it refuses, for a command out of range or a new key at a full
  -- registry, and changes nothing; or it binds the key, and no other.
  abbrev pub Registered : ℕ → Bytes → H → Option C → Registry H C → ℤ × Registry H C → Type 0
  Registered cmd name h c r out =
      ((out ≡ (ret_err, r))
        × ((cmd_max ≤ cmd) ⊎ ((r.entry_count ≡ max_event_handlers) × (view r cmd name ≡ none))))
      ⊎ ((out.0 ≡ ret_ok)
          × ((cmd' : ℕ) (name' : Bytes)
              → view out.1 cmd' name'
                ≡ (if same_key cmd name cmd' name' then some (some h, c) else view r cmd' name')))

  pub view-none :
      (cmd : ℕ) (name : Bytes) (r : Registry H C) → find cmd name r ≡ none → view r cmd name ≡ none
  unfolding view
  view-none cmd name r f = rw (find-none cmd name r f) refl

  view-register_at :
      (o : Option ℕ) (cmd : ℕ) (name : Bytes) (h : H) (c : Option C) (r : Registry H C)
      → IsValid r
      → length (c_str name) ≤ 63
      → find cmd name r ≡ o
      → Registered cmd name h c r (register_at o name cmd (some h) c r)
  unfolding register_at
  view-register_at (some i) cmd name h c r v hn f =
      inr (refl, λ cmd' name'. view-rebound cmd cmd' name name' h c r v i f)
  view-register_at none cmd name h c r v hn f =
      elim (Bool-cases (leb max_event_handlers r.entry_count)) [
        | inl full ↦ rw full (inl (refl, inr (ground (arith, v.counted), view-none cmd name r f)))
        | inr room ↦
            let (e, g) = get_elem?_of_lt r.entries r.entry_count (ground (arith, v.slots)) in
            rw room (
              inr (
                refl,
                λ cmd' name'.
                    view-added cmd cmd' name name' h c r e v hn (ground arith)
                      (find-none cmd name r f) g,
              ))
      ]

  -- On a valid registry and a name of at most 63 bytes, handler_register is insertion into a map:
  -- it refuses only a command of 16 or more, or a new key when all 64 slots are taken, and then
  -- changes nothing; else it returns 0, the key is bound to the given handler and context, and
  -- every other key is bound as before.
  pub view-register :
      (cmd : ℕ) (name : Bytes) (h : H) (c : Option C) (r : Registry H C)
      → IsValid r
      → length (c_str name) ≤ 63
      → Registered cmd name h c r (register (some name) cmd (some h) c r)
  unfolding register
  view-register cmd name h c r v hn = elim (Bool-cases (leb cmd_max cmd)) [
    | inl big ↦ rw big (inl (refl, inl (ground arith)))
    | inr small ↦ rw small (view-register_at (find cmd name r) cmd name h c r v hn refl)
  ]

  -- What handler_unregister promises.
  abbrev pub Unregistered : ℕ → Bytes → Registry H C → ℤ × Registry H C → Type 0
  Unregistered cmd name r out =
      (is_zero out.0 ≡ is_some (view r cmd name))
      × ((cmd' : ℕ) (name' : Bytes)
          → view out.1 cmd' name'
            ≡ (if same_key cmd name cmd' name' then none else view r cmd' name'))

  view-same_key :
      (cmd cmd' : ℕ) (name name' : Bytes) (r : Registry H C)
      → same_key cmd name cmd' name' ≡ true
      → view r cmd' name' ≡ view r cmd name
  unfolding view same_key
  view-same_key cmd cmd' name name' r h =
      let cs : c_str name ≡ c_str name' =
        bytes_eq_sound (c_str name) (c_str name') (ground arith) in
      let cc' : cmd ≡ cmd' = ground arith in
      ap binding (find_entry_congr_key cmd' cmd name' name (live r) (sym cc') (sym cs))

  view-unregister_at :
      (o : Option ℕ) (cmd : ℕ) (name : Bytes) (r : Registry H C)
      → IsValid r
      → find cmd name r ≡ o
      → Unregistered cmd name r (unregister_at o r)
  unfolding unregister_at
  view-unregister_at none cmd name r v f = (
    rw (view-none cmd name r f) refl,
    λ cmd' name'. ground (arith, view-same_key cmd cmd' name name' r, view-none cmd name r f),
  )
  view-unregister_at (some i) cmd name r v f =
      let (e, lt, g, gl, m, fe) = find-some cmd name r i f in
      let (p, q) = matches-key cmd name e m in
      (
        unfold view in rw fe refl,
        λ cmd' name'.
            unfold view in
            rw
              (
                live-removed r i lt (omega (arith, v.slots, v.counted)),
                find_entry-remove_at cmd' name' (live r) i e v.distinct gl,
                matches-same_key cmd cmd' name name' e p q,
              )
              (elim (Bool-cases (same_key cmd name cmd' name')) [
                | inl k ↦ rw k refl
                | inr k ↦ rw k refl
              ]),
      )

  -- On a valid registry handler_unregister is deletion from a map: it returns 0 exactly if the key
  -- was bound; afterwards the key is unbound, and every other key is bound as before.
  pub view-unregister :
      (cmd : ℕ) (name : Bytes) (r : Registry H C)
      → IsValid r
      → Unregistered cmd name r (unregister (some name) cmd r)
  unfolding unregister
  view-unregister cmd name r v = view-unregister_at (find cmd name r) cmd name r v refl
