-- ===== src/Lib.antt =====
-- studyC: a model of the three-process relay (Collector, Router, Viewer) and of its management
-- plane.
--
-- The collector receives UDP datagrams, writes each into a shared segment and puts a notification
-- into a System V queue; the router's worker takes the notifications, reads the segment and sends a
-- line to the viewer over TCP. Each process has a management socket, whose requests go through a
-- registry of handlers, and the command-line client mgmtctl sends such requests.
--
-- The files, and the code that they model:
--   Prelude (with Tests, Lists, Text, Int, Decimal): shared lemmas, and the C string functions and
--     decimal conversions on byte lists. Printing: texts put together with snprintf at a growing
--     offset.
--   Protocol: Mgmt/include/mgmt_protocol.h and Mgmt/src/mgmt_protocol.c. mgmt_request_init is
--     `request_init`, and so on without the prefix `mgmt_`.
--   Registry: Mgmt/include/event_handler.h and Mgmt/src/event_handler.c. handler_register is
--     `register`, and so on without the prefix `handler_`; `g_registry` is the argument and a part
--     of the result. Array, Find, Search and Live are about the array and its search, Valid about
--     the invariant, Views about the registry as a map. Listing is handler_list. Dispatch is
--     handler_dispatch. Threads has the regions of several threads in any order.
--   Metrics (with Types): Mgmt/include/metrics_collector.h and Mgmt/src/metrics_collector.c. Json
--     is metrics_snapshot_to_json.
--   Logger: Common/include/unified_logger.h and Common/src/unified_logger.c, functions without
--     `ulog_`: the output in Logger, the logging functions in Calls, the macros and safe_strerror in
--     Global, the others in Control. Runs describes the log by the settings alone.
--   Socket: Mgmt/src/mgmt_socket.c and Mgmt/src/mgmt_worker.c, functions without `mgmt_socket_`.
--     Lifetime has what create and destroy acquire and release.
--   Handlers: Collector/src/mgmt_handlers.c, Router/src/mgmt_handlers.c,
--     Viewer/src/mgmt_handlers.c.
--   Ctl: MgmtCtl/src/main.c and MgmtCtl/src/mgmt_send.c.
--   Shm: SHM/src/shm_api.c, functions without `shm_api_`. Attach has init, close and destroy of
--     that file and of PosixSHM/src/shm_api.c, in several processes; Posix has the latter's write
--     and read. Ipc: Router/src/msg_common.c and the messages; Emptying is the emptying of the
--     shared queue by the two programs that start with it.
--   Network: Common/include/network_config.h, and the socket addresses.
--   Collector: Collector/src/poll_io.c, the datagram handler in Collector and the loop in Loop;
--     SetUp is Collector/src/main.c.
--   Router: Router/src/router_worker.c (Relay), the event loop of Router/src/main.c (MainLoop), the
--     rest of its main (SetUp, with its options for faults in Faults), Router/src/udp_worker.c and
--     Router/src/signal_worker.c (Sources); Threads has the threads of the process together.
--   Viewer: the threads of Viewer/src/main.c, Viewer/src/signal_thread.c and
--     Viewer/src/tcp_worker.c.
--   Lifecycle: when the events of acquiring and releasing are in order.
--   Pipeline: a datagram's way through Collector, Shm, Router and Viewer. Examples: runs at concrete
--     inputs.
--
-- State is passed explicitly. What a system call answers is an argument of the step that makes the
-- call, so the theorems hold for every sequence of answers that their hypotheses allow. A mutex
-- makes its region one step; where a function releases it in between, the regions are separate
-- definitions. A pointer that may be NULL is an Option, and a result of `none` where the code has
-- none stands for undefined behaviour. An unsigned integer is a native number with its wrap-around
-- written out; a `time_t` is taken as a number that is not negative.
--
-- No loop has made-up fuel: a loop over messages, attempts or events runs over the list of the
-- answers it gets, which is as long as the run is (the threads of the viewer and of the router and
-- the processes that attach the segment run over a list of steps), and the connection loop has the
-- source's 5 attempts. Among threads, a step that has to wait changes nothing.
-- Decimal numbers are printed with 20 digits at most, and a `long` has no more
-- than 19.
--
-- Not modelled: the programs' messages about themselves on the terminal (what the viewer prints of
-- its clients' bytes is modelled), the signal masks but for
-- their failure, and the counter that the threads of the race option write. The three main functions
-- are modelled as far as they acquire, release, wait and signal.
pub mod Prelude
pub mod Protocol
pub mod Registry
pub mod Metrics
pub mod Shm
pub mod Ipc
pub mod Collector
pub mod Router
pub mod Pipeline
pub mod Socket
pub mod Handlers
pub mod Ctl
pub mod Examples
pub mod Printing
pub mod Logger
pub mod Lifecycle
pub mod Network
pub mod Viewer
