-- ===== src/Collector/SetUp.antt =====
-- Collector/src/main.c, and the making of the UDP socket in Collector/src/poll_io.c: what main
-- acquires and releases. What the calls answer is an argument; the event loop, which releases
-- nothing, stands between.
use study_c.Prelude.{
  Bool, true, false, not, List, [], ◌∷◌, ◌++◌, ◌≡◌, refl, ◌==◌, ℕ, ℤ, ret_err, pos, negsuc,
  is_negative, if◌then◌else◌,
}
use study_c.Lifecycle.{Event, acquire, release, orderly}

-- `shm` is the attachment, which shm_api_close ends; the segment itself is in Shm/Attach.antt.
pub data Resource : Type 0 where
  log shared_queue shm registry mgmt_socket udp_socket : Resource

pub record Answers : Type 0 where
  pub shared_queue_ok : Bool
  pub shm_ok : Bool
  pub registry_ok : Bool
  pub handlers_ok : Bool
  pub mgmt_socket_ok : Bool
  pub udp_fd : ℤ
  pub bind_ok : Bool

abbrev pub Trace : Type 0
Trace = List (Event Resource)

-- setup_udp_socket, by the descriptor that socket returns and whether bind succeeds: what it
-- returns and what it leaves in the trace.
unfoldable pub setup_udp_socket : ℤ → Bool → Trace → ℤ × Trace
setup_udp_socket (negsuc n) bind_ok t = (ret_err, t)
setup_udp_socket (pos fd) true t = (pos fd, t ++ (acquire udp_socket ∷ []))
setup_udp_socket (pos fd) false t =
    (ret_err, t ++ (acquire udp_socket ∷ []) ++ (release udp_socket ∷ []))

unfoldable pub close_udp_socket : ℤ → Trace → Trace
close_udp_socket (negsuc n) t = t
close_udp_socket (pos fd) t = t ++ (release udp_socket ∷ [])

-- From the making of the UDP socket on.
abbrev pub serve : Answers → Trace → Bool × Trace
serve a t =
    let (udp_fd, t1) = setup_udp_socket a.udp_fd a.bind_ok t in
    if is_negative udp_fd
    then (false, t1 ++ (release mgmt_socket ∷ release registry ∷ release shm ∷ release log ∷ []))
    else (
      true,
      close_udp_socket udp_fd (t1 ++ (release shm ∷ []))
          ++ (release mgmt_socket ∷ release registry ∷ release log ∷ []),
    )

-- msgget with IPC_CREAT on the system's key: where it succeeds the queue is there, and no path
-- removes it.
abbrev pub shared : Bool → Trace
shared true = acquire shared_queue ∷ []
shared false = []

-- main: whether it returns 0, and the trace. collector_mgmt_register's failure is tested before the
-- socket.
unfoldable pub main : Answers → Bool × Trace
unfolding setup_udp_socket close_udp_socket
main a =
    let t = acquire log ∷ shared a.shared_queue_ok in
    if not a.shm_ok
    then (false, t ++ (release log ∷ []))
    else let t1 = t ++ (acquire shm ∷ []) in
      if not a.registry_ok
      then (false, t1 ++ (release shm ∷ release log ∷ []))
      else let t2 = t1 ++ (acquire registry ∷ []) in
        if not a.handlers_ok
        then (false, t2 ++ (release registry ∷ release shm ∷ release log ∷ []))
        else if not a.mgmt_socket_ok
        then (false, t2 ++ (release registry ∷ release shm ∷ release log ∷ []))
        else serve a (t2 ++ (acquire mgmt_socket ∷ []))

abbrev number : Resource → ℕ
number log = 0
number shm = 1
number registry = 2
number mgmt_socket = 3
number udp_socket = 4
number shared_queue = 5

abbrev pub same : Resource → Resource → Bool
same r s = number r == number s

-- The collector has one thread.
abbrev pub users : Resource → List Resource
users r = []

-- What is left at the return.
abbrev pub kept : Bool → List Resource
kept true = shared_queue ∷ []
kept false = []

exits :
    (q a b c d : Bool) (fd : ℤ) (bind_ok : Bool)
    → orderly same users
        (kept q)
        []
        (main (record {
          shared_queue_ok = q;
          shm_ok = a;
          registry_ok = b;
          handlers_ok = c;
          mgmt_socket_ok = d;
          udp_fd = fd;
          bind_ok = bind_ok;
        })).1
      ≡ true
unfolding main setup_udp_socket close_udp_socket
exits true false b c d fd bind_ok = refl
exits false false b c d fd bind_ok = refl
exits true true false c d fd bind_ok = refl
exits false true false c d fd bind_ok = refl
exits true true true false d fd bind_ok = refl
exits false true true false d fd bind_ok = refl
exits true true true true false fd bind_ok = refl
exits false true true true false fd bind_ok = refl
exits true true true true true (negsuc n) bind_ok = refl
exits false true true true true (negsuc n) bind_ok = refl
exits true true true true true (pos fd) false = refl
exits false true true true true (pos fd) false = refl
exits true true true true true (pos fd) true = refl
exits false true true true true (pos fd) true = refl

-- On every path through the collector's main, whatever each call answers: each thing is acquired
-- once and released once, but for the queue that the programs share: where msgget makes it or finds
-- it, it is left at the return, and nothing else is. (Of the shared segment only the attachment is
-- such a thing; the segment itself stays.)
pub collector_main-orderly :
    (a : Answers) → orderly same users (kept a.shared_queue_ok) [] (main a).1 ≡ true
collector_main-orderly a =
    exits a.shared_queue_ok a.shm_ok a.registry_ok a.handlers_ok a.mgmt_socket_ok a.udp_fd a.bind_ok
