-- ===== src/Ctl/Build.antt =====
-- The requests that the client builds from its arguments.
use study_c.Prelude.{
  ℕ, ◌≤◌, ◌<◌, ◌≡◌, refl, ap, ◌∙◌, inl, inr, Bool, true, some, List, [], ◌∷◌, arith, ℤ, Bytes,
  c_str, str_eq, bytes_eq_sound, length, take, Bool-cases, Option-cases, c_str-strncpy,
}
use study_c.Protocol.{
  Timespec, Request, request_init, request_validate, cmd_max, payload_request_size,
  module_name_size,
}
use study_c.Protocol.Latency.{request_validate_iff}
use study_c.Handlers.{Node, module_text}
use study_c.Ctl.{module_to_path, parse_in, parse_command, make_request, command_payload, build}

str_eq_sound : (s t : Bytes) → str_eq s t ≡ true → c_str s ≡ c_str t
str_eq_sound s t h = bytes_eq_sound (c_str s) (c_str t) h

c_str-module_text : (node : Node) → c_str (module_text node) ≡ module_text node
unfolding c_str
c_str-module_text Node.collector = refl
c_str-module_text Node.router = refl
c_str-module_text Node.viewer = refl

-- Only a module's name has a path.
pub module_to_path-some :
    (name path : Bytes)
    → module_to_path name ≡ some path
    → (node : Node) × (c_str name ≡ module_text node)
unfolding module_to_path
module_to_path-some name path h = elim (Bool-cases (str_eq name (module_text Node.collector))) [
  | inl c ↦ (
    Node.collector,
    str_eq_sound name (module_text Node.collector) c ∙ c_str-module_text Node.collector,
  )
  | inr c ↦ elim (Bool-cases (str_eq name (module_text Node.router))) [
    | inl r ↦
        (Node.router, str_eq_sound name (module_text Node.router) r ∙ c_str-module_text Node.router)
    | inr r ↦ elim (Bool-cases (str_eq name (module_text Node.viewer))) [
      | inl v ↦ (
        Node.viewer,
        str_eq_sound name (module_text Node.viewer) v ∙ c_str-module_text Node.viewer,
      )
      | inr v ↦ absurd (ground arith)
    ]
  ]
]

parse_command-lt : (s : Bytes) (c : ℕ) → parse_command s ≡ some c → c < cmd_max
unfolding parse_command parse_in
parse_command-lt s c h = ground arith

make_request-some :
    (now : Timespec) (cmd : ℕ) (name payload : Bytes) (req : Request)
    → make_request now cmd name payload ≡ some req
    → (req.cmd_type ≡ cmd)
      × (c_str req.target_module ≡ take 63 (c_str name))
      × (req.payload_len ≤ payload_request_size)
      × (req.timestamp ≡ now)
unfolding request_init
make_request-some now cmd name [] req h = ground (arith, c_str-strncpy name 63 module_name_size)
make_request-some now cmd name (b ∷ bs) req h =
    ground (arith, c_str-strncpy name 63 module_name_size)

take-module :
    (name : Bytes) (node : Node) → c_str name ≡ module_text node → take 63 (c_str name) ≡ c_str name
unfolding take
take-module name Node.collector e = rw e refl
take-module name Node.router e = rw e refl
take-module name Node.viewer e = rw e refl

length-module : (node : Node) → 0 < length (module_text node)
length-module Node.collector = omega arith
length-module Node.router = omega arith
length-module Node.viewer = omega arith

module _ (strtol : Bytes → ℤ × Bool) where
  -- A request that the client sends is accepted by mgmt_request_validate; its command is the one
  -- that the second argument names, its target is the first argument, its socket is that module's,
  -- and its time is the clock's reading.
  pub build-IsAccepted :
      (now : Timespec) (name command path : Bytes) (args : List Bytes) (req : Request)
      → build strtol now (name ∷ command ∷ args) ≡ some (path, req)
      → (request_validate (some req) ≡ true)
        × (parse_command command ≡ some req.cmd_type)
        × (module_to_path name ≡ some path)
        × (c_str req.target_module ≡ c_str name)
        × (req.timestamp ≡ now)
  unfolding build
  build-IsAccepted now name command path args req h = elim (Option-cases (module_to_path name)) [
    | inl n ↦ absurd (ground arith)
    | inr (path', p) ↦ elim (Option-cases (parse_command command)) [
      | inl n ↦ absurd (ground arith)
      | inr (cmd, c) ↦ elim (Option-cases (command_payload strtol cmd args)) [
        | inl n ↦ absurd (ground arith)
        | inr (payload, l) ↦ elim (Option-cases (make_request now cmd name payload)) [
          | inl n ↦ absurd (ground arith)
          | inr (req', m) ↦
              let (node, e) = module_to_path-some name path' p in
              let (cm, tm, pl, at) = make_request-some now cmd name payload req' m in
              let target : c_str req'.target_module ≡ c_str name = tm ∙ take-module name node e in
              let ok = (request_validate_iff req').1 (
                omega (arith, parse_command-lt command cmd c, cm),
                omega (arith, length-module node, ap length (target ∙ e)),
                pl,
              ) in
              ground (arith, ok, target)
        ]
      ]
    ]
  ]
