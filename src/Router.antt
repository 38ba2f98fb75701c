-- ===== src/Router.antt =====
-- Router/src: the thread that relays the collector's data to the viewer (router_worker.c), the main
-- loop (main.c), and the threads that feed it (udp_worker.c and signal_worker.c).
pub mod Relay
pub mod MainLoop
pub mod SetUp
pub mod Sources
pub mod Threads
