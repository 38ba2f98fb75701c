-- ===== src/Examples/Sources.antt =====
-- Runs of the router's UDP and signal threads.
use study_c.Prelude.{◌≡◌, refl, some, take, c_str, bytes_eq, Bool, true, List, [], ◌∷◌, codes}
use study_c.Ipc.{EventType, build_internal_msg}
use study_c.Router.MainLoop.{Router, Arrival, arrived}
use study_c.Router.Sources.{Wake, datagram, shutdown, udp_loop, udp_round}

abbrev quit_then_text : List (Bool × Wake)
quit_then_text =
    (true, datagram (codes "QUIT") true)
    ∷ (true, datagram (codes "hello") true)
    ∷ (true, shutdown)
    ∷ []

abbrev serving : Router
serving = record { keep_running = true; pipe_open = true; ipc_queue = [] }

abbrev hello : Arrival
hello = arrived (build_internal_msg EventType.ev_udp (some (codes "hello")) 0) true

-- The UDP thread drops "QUIT" and an empty datagram.
drops_quit :
    (udp_loop ((true, datagram (codes "QUIT") true) ∷ (true, datagram [] true) ∷ []) [])
    ≡ (true, [])
unfolding udp_loop udp_round take c_str bytes_eq
drops_quit = refl
