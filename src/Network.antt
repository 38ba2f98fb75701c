-- ===== src/Network.antt =====
-- Common/include/network_config.h, and the addresses that Router/src/router_worker.c,
-- Router/src/udp_worker.c, Viewer/src/tcp_worker.c and Collector/src/poll_io.c make with it. What
-- getenv gives is an argument, and `atoi` a parameter.
use study_c.Prelude.{
  ℕ, ◌+◌, ◌-◌, ◌*◌, ◌/◌, ◌%◌, ◌^◌, ◌<◌, ◌≡◌, refl, Bool, true, Option, none, some, [], ◌∷◌, Bytes,
  arith, ℤ, pos, negsuc, bytes_eq, ◌&&◌, ◌||◌,
}

abbrev pub default_network_udp_port : ℤ
default_network_udp_port = pos 9999

abbrev pub default_network_tcp_port : ℤ
default_network_tcp_port = pos 7777

abbrev pub default_network_udp_send_port : ℤ
default_network_udp_send_port = pos 8888

-- A conversion to `uint16_t`.
abbrev pub uint16 : ℤ → ℕ
uint16 (pos n) = n % 2 ^ 16
uint16 (negsuc n) = 2 ^ 16 - 1 - n % 2 ^ 16

-- `htons`: the bytes in memory, the higher one first.
abbrev pub htons : ℕ → Bytes
htons n = n / 256 ∷ n % 256 ∷ []

-- The fields of `struct sockaddr_in` that the programs set.
pub record SockAddr : Type 0 where
  pub sin_port : Bytes
  pub sin_addr : Bytes

-- `INADDR_ANY`, and what inet_pton puts for "127.0.0.1"
abbrev pub inaddr_any : Bytes
inaddr_any = 0 ∷ 0 ∷ 0 ∷ 0 ∷ []

abbrev pub loopback : Bytes
loopback = 127 ∷ 0 ∷ 0 ∷ 1 ∷ []

module _ (atoi : Bytes → ℤ) where
  unfoldable pub get_network_udp_port : Option Bytes → ℤ
  get_network_udp_port none = default_network_udp_port
  get_network_udp_port (some env) = atoi env

  unfoldable pub get_network_tcp_port : Option Bytes → ℤ
  get_network_tcp_port none = default_network_tcp_port
  get_network_tcp_port (some env) = atoi env

  unfoldable pub get_network_udp_send_port : Option Bytes → ℤ
  get_network_udp_send_port none = default_network_udp_send_port
  get_network_udp_send_port (some env) = atoi env

  -- Where the collector and the router's UDP thread receive, where the viewer listens, and where
  -- the router's worker connects to.
  unfoldable pub collector_addr : Option Bytes → SockAddr
  collector_addr env = record {
    sin_port = htons (uint16 (get_network_udp_port env));
    sin_addr = inaddr_any;
  }

  unfoldable pub udp_worker_addr : Option Bytes → SockAddr
  udp_worker_addr env = record {
    sin_port = htons (uint16 (get_network_udp_send_port env));
    sin_addr = inaddr_any;
  }

  unfoldable pub viewer_addr : Option Bytes → SockAddr
  viewer_addr env = record {
    sin_port = htons (uint16 (get_network_tcp_port env));
    sin_addr = inaddr_any;
  }

  unfoldable pub dest_addr : Option Bytes → SockAddr
  dest_addr env = record {
    sin_port = htons (uint16 (get_network_tcp_port env));
    sin_addr = loopback;
  }

-- A socket that is bound to the first address takes what is sent to the second; port 0 stands for
-- one that the system chooses.
abbrev pub reaches : SockAddr → SockAddr → Bool
reaches bound dest =
    bytes_eq bound.sin_port dest.sin_port
    && (bytes_eq bound.sin_addr inaddr_any || bytes_eq bound.sin_addr dest.sin_addr)

-- The port number that two bytes stand for.
abbrev pub ntohs : Bytes → ℕ
ntohs (hi ∷ lo ∷ rest) = hi * 256 + lo
ntohs _ = 0

-- Where the router and the viewer run with the same STUDYC_TCP_PORT, whose number is below 2^16,
-- the viewer listens at that port, and the router's worker connects to it.
pub viewer_reached :
    (atoi : Bytes → ℤ) (env : Bytes) (n : ℕ)
    → atoi env ≡ pos n
    → n < 2 ^ 16
    → (reaches (viewer_addr atoi (some env)) (dest_addr atoi (some env)) ≡ true)
      × (ntohs (viewer_addr atoi (some env)).sin_port ≡ n)
unfolding viewer_addr dest_addr get_network_tcp_port bytes_eq
viewer_reached atoi env n e h = rw e (ground arith, omega arith)

-- A text that is no number, for which atoi gives 0, makes the viewer listen at a port that the
-- system chooses, and the router's worker connect to port 0.
pub junk_port :
    (atoi : Bytes → ℤ) (env : Bytes)
    → atoi env ≡ pos 0
    → (ntohs (viewer_addr atoi (some env)).sin_port ≡ 0)
      × (ntohs (dest_addr atoi (some env)).sin_port ≡ 0)
unfolding viewer_addr dest_addr get_network_tcp_port
junk_port atoi env e = rw e (refl, refl)
