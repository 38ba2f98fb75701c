-- ===== src/Registry/Valid.antt =====
-- The representation invariant of the registry, and that every operation keeps it.
use study_c.Prelude.{
  ℕ, zero, suc, ◌+◌, ◌-◌, ◌≤◌, ◌<◌, ◌≡◌, refl, ◌∙◌, inl, inr, true, Option, none, some, List, [],
  ◌∷◌, ◌++◌, arith, length, get_elem?, set, take, length-set, Bytes, c_str, leb, Bool-cases,
  is_some, c_str-set-strncpy, take_of_length_le, length-replicate,
}
use study_c.Protocol.{cmd_max}
use study_c.Registry.{
  Entry, Registry, max_event_handlers, find, register, register_at, unregister, unregister_at,
  update_at, rebind, fill, at_start,
}
use study_c.Registry.Array.{remove_at, get_elem?_of_lt, length-shift_down}
use study_c.Registry.Find.{live, find_entry, Distinct, find_entry_congr_key}
use study_c.Registry.Search.{Distinct-set, Distinct-append, Distinct-remove_at}
use study_c.Registry.Live.{
  update_at-some, find-some, find-none, live-update_at, live-added, live-removed,
}

module _ {H C : Type 0} where
  -- What holds of a live entry.
  pub record IsLive (e : Entry H C) : Type 0 where
    pub bound : is_some e.handler ≡ true
    pub known : e.cmd_type < cmd_max
    pub terminated : length (c_str e.module_name) ≤ 63

  abbrev pub AllLive : List (Entry H C) → Type 0
  AllLive [] = Unit {0}
  AllLive (e ∷ es) = IsLive e × AllLive es

  pub record IsValid (r : Registry H C) : Type 0 where
    pub slots : length r.entries ≡ max_event_handlers
    pub counted : r.entry_count ≤ max_event_handlers
    pub all_live : AllLive (live r)
    pub distinct : Distinct (live r)

  pub AllLive-get :
      (es : List (Entry H C)) (i : ℕ) (e : Entry H C)
      → AllLive es
      → get_elem? es i ≡ some e
      → IsLive e
  AllLive-get [] i e a g = absurd (cc)
  AllLive-get (x ∷ es) zero e a g = ground (arith)
  AllLive-get (x ∷ es) (suc i) e a g = AllLive-get es i e a.1 g

  pub AllLive-set :
      (es : List (Entry H C)) (i : ℕ) (v : Entry H C) → AllLive es → IsLive v → AllLive (set es i v)
  AllLive-set [] i v a h = tt
  AllLive-set (x ∷ es) zero v a h = (h, a.1)
  AllLive-set (x ∷ es) (suc i) v a h = (a.0, AllLive-set es i v a.1 h)

  AllLive-append :
      (es : List (Entry H C)) (v : Entry H C) → AllLive es → IsLive v → AllLive (es ++ (v ∷ []))
  AllLive-append [] v a h = (h, tt)
  AllLive-append (x ∷ es) v a h = (a.0, AllLive-append es v a.1 h)

  AllLive-remove_at : (es : List (Entry H C)) (i : ℕ) → AllLive es → AllLive (remove_at es i)
  unfolding remove_at
  AllLive-remove_at [] i a = tt
  AllLive-remove_at (x ∷ es) zero a = a.1
  AllLive-remove_at (x ∷ es) (suc i) a = (a.0, AllLive-remove_at es i a.1)

  register_old-IsValid :
      (r : Registry H C) (i : ℕ) (e : Entry H C) (h : H) (c : Option C)
      → IsValid r
      → get_elem? r.entries i ≡ some e
      → get_elem? (live r) i ≡ some e
      → IsValid (record r { entries = update_at r.entries i (rebind (some h) c) })
  register_old-IsValid r i e h c v g gl =
      let le = AllLive-get (live r) i e v.all_live gl in
      record {
        slots =
            rw (update_at-some r.entries i e (rebind (some h) c) g)
              (length-set r.entries i (rebind (some h) c e) ∙ v.slots);
        counted = v.counted;
        all_live = rw (live-update_at r i e (rebind (some h) c) g) (
            AllLive-set (live r) i (rebind (some h) c e) v.all_live
              (record { bound = refl; known = le.known; terminated = le.terminated }));
        distinct =
            rw (live-update_at r i e (rebind (some h) c) g)
              (Distinct-set (live r) i (rebind (some h) c e) e v.distinct gl refl refl);
      }

  -- The name that registration stores.
  pub c_str-fill :
      (cmd : ℕ) (name : Bytes) (h : Option H) (c : Option C) (e : Entry H C)
      → length (c_str name) ≤ 63
      → c_str (fill cmd name h c e).module_name ≡ c_str name
  c_str-fill cmd name h c e k =
      c_str-set-strncpy e.module_name name 63 ∙ take_of_length_le 63 (c_str name) k

  register_new-IsValid :
      (r : Registry H C) (cmd : ℕ) (name : Bytes) (h : H) (c : Option C) (e : Entry H C)
      → IsValid r
      → cmd < cmd_max
      → length (c_str name) ≤ 63
      → r.entry_count < max_event_handlers
      → find_entry cmd name (live r) ≡ none
      → get_elem? r.entries r.entry_count ≡ some e
      → IsValid (record r {
        entries = update_at r.entries r.entry_count (fill cmd name (some h) c);
        entry_count = r.entry_count + 1;
      })
  register_new-IsValid r cmd name h c e v hc hn room f g =
      let e' = fill cmd name (some h) c e in
      let cs = c_str-fill cmd name (some h) c e hn in
      let lr = live-added r e (fill cmd name (some h) c) (omega (arith, v.slots)) g in
      record {
        slots =
            rw (update_at-some r.entries r.entry_count e (fill cmd name (some h) c) g)
              (length-set r.entries r.entry_count e' ∙ v.slots);
        counted = omega arith;
        all_live = rw lr (
            AllLive-append (live r) e' v.all_live
              (record { bound = refl; known = hc; terminated = rw cs hn }));
        distinct = rw lr (
            Distinct-append (live r) e' v.distinct
              (find_entry_congr_key cmd cmd e'.module_name name (live r) refl cs ∙ f));
      }

  register_at-IsValid :
      (o : Option ℕ) (name : Bytes) (cmd : ℕ) (h : H) (c : Option C) (r : Registry H C)
      → IsValid r
      → cmd < cmd_max
      → length (c_str name) ≤ 63
      → find cmd name r ≡ o
      → IsValid (register_at o name cmd (some h) c r).1
  unfolding register_at
  register_at-IsValid (some i) name cmd h c r v hc hn f =
      let (e, lt, g, gl, m, fe) = find-some cmd name r i f in register_old-IsValid r i e h c v g gl
  register_at-IsValid none name cmd h c r v hc hn f =
      elim (Bool-cases (leb max_event_handlers r.entry_count)) [
        | inl full ↦ rw full v
        | inr room ↦
            let (e, g) = get_elem?_of_lt r.entries r.entry_count (ground (arith, v.slots)) in
            rw room (
              register_new-IsValid r cmd name h c e v hc hn (ground arith) (find-none cmd name r f)
                g)
      ]

  -- handler_register keeps the registry valid, for a name of at most 63 bytes, whatever the other
  -- arguments are.
  pub register-IsValid :
      (name : Bytes) (cmd : ℕ) (h : Option H) (c : Option C) (r : Registry H C)
      → length (c_str name) ≤ 63
      → IsValid r
      → IsValid (register (some name) cmd h c r).1
  unfolding register
  register-IsValid name cmd none c r hn v = v
  register-IsValid name cmd (some h) c r hn v = elim (Bool-cases (leb cmd_max cmd)) [
    | inl big ↦ rw big v
    | inr small ↦
        rw small (register_at-IsValid (find cmd name r) name cmd h c r v (ground arith) hn refl)
  ]

  unregister_at-IsValid :
      (o : Option ℕ) (name : Bytes) (cmd : ℕ) (r : Registry H C)
      → IsValid r
      → find cmd name r ≡ o
      → IsValid (unregister_at o r).1
  unfolding unregister_at
  unregister_at-IsValid none name cmd r v f = v
  unregister_at-IsValid (some i) name cmd r v f =
      let (e, lt, g, gl, m, fe) = find-some cmd name r i f in
      let lr = live-removed r i lt (omega (arith, v.slots, v.counted)) in
      record {
        slots = length-shift_down r.entries i (r.entry_count - 1 - i) ∙ v.slots;
        counted = omega (arith, v.counted);
        all_live = rw lr (AllLive-remove_at (live r) i v.all_live);
        distinct = rw lr (Distinct-remove_at (live r) i e v.distinct gl);
      }

  -- handler_unregister keeps the registry valid, whatever its arguments are.
  pub unregister-IsValid :
      (name : Option Bytes) (cmd : ℕ) (r : Registry H C)
      → IsValid r
      → IsValid (unregister name cmd r).1
  unfolding unregister
  unregister-IsValid none cmd r v = v
  unregister-IsValid (some name) cmd r v = unregister_at-IsValid (find cmd name r) name cmd r v refl

  -- The registry as the program starts, and after handler_registry_init, is valid.
  pub at_start-IsValid : IsValid (at_start {H = H} {C = C})
  unfolding at_start take
  at_start-IsValid = record {
    slots = length-replicate max_event_handlers _;
    counted = omega arith;
    all_live = tt;
    distinct = tt;
  }
