-- ===== src/Muduo/Socket.antt =====
-- mymuduo-main/src/Socket.cpp and InetAddress.cpp: socket addresses, and the calls on a socket.
-- The kernel's answers are arguments; what it is asked is a list of events, in order.
use mprpc_main.Common.{ℕ, Bool, true, false, List, [], ◌∷◌, Bytes, codes, c_str, ℤ, pos, negsuc}
use mprpc_main.Muduo.Logger.{LogLevel, erorr, fatal}

-- What the address functions of <arpa/inet.h> compute.
pub record Network : Type 0 where
  pub htons : ℕ → ℕ
  pub inet_addr : Bytes → ℕ

-- The fields of `sockaddr_in` that are set.
pub record InetAddress : Type 0 where
  pub sin_port : ℕ
  pub s_addr : ℕ

-- `InetAddress::InetAddress`, of a port and an address in text.
unfoldable pub inet_address : Network → ℕ → Bytes → InetAddress
inet_address net port ip = record { sin_port = net.htons port; s_addr = net.inet_addr (c_str ip) }

pub data SocketOption : Type 0 where
  tcp_nodelay so_reuseaddr so_reuseport so_keepalive : SocketOption

-- What is asked of the kernel, of the loop and of the log. A descriptor may be -1.
pub data Event : Type 0 where
  bound : ℤ → InetAddress → Event
  listened shut_write closed able_read : ℤ → Event
  option_set : ℤ → SocketOption → Bool → Event
  logged : LogLevel → Bytes → Event

-- The log line of a call that gave -1.
unfoldable pub or_log : Bool → LogLevel → Bytes → List Event
or_log true level text = []
or_log false level text = logged level text ∷ []

-- `bindAddress`: the answer is whether `bind` gave 0, here and below.
unfoldable pub bind_address : Bool → ℤ → InetAddress → List Event
unfolding or_log
bind_address answer fd addr = bound fd addr ∷ or_log answer fatal (codes "bind error")

-- `listen`.
unfoldable pub listen : Bool → ℤ → List Event
unfolding or_log
listen answer fd = listened fd ∷ or_log answer fatal (codes "listen error")

-- `accept`: the descriptor, and the address of the peer, which is written where there is one.
unfoldable pub accept : ℤ → InetAddress → InetAddress → InetAddress
accept (pos connfd) from peer = from
accept (negsuc n) from peer = peer

-- `shutdownWrite`.
unfoldable pub shutdown_write : Bool → ℤ → List Event
unfolding or_log
shutdown_write answer fd = shut_write fd ∷ or_log answer erorr (codes "shutdownWrite error")

-- `setTcpNoDelay`, `setReuseAddr`, `setReusePort` and `setKeepAlive`.
unfoldable pub set_tcp_no_delay : Bool → ℤ → Bool → List Event
unfolding or_log
set_tcp_no_delay answer fd on =
    option_set fd tcp_nodelay on ∷ or_log answer erorr (codes "setTcpNoDelay error")

unfoldable pub set_reuse_addr : Bool → ℤ → Bool → List Event
unfolding or_log
set_reuse_addr answer fd on =
    option_set fd so_reuseaddr on ∷ or_log answer erorr (codes "setReuseAddr error")

unfoldable pub set_reuse_port : Bool → ℤ → Bool → List Event
unfolding or_log
set_reuse_port answer fd on =
    option_set fd so_reuseport on ∷ or_log answer erorr (codes "setReusePort error")

unfoldable pub set_keep_alive : Bool → ℤ → Bool → List Event
unfolding or_log
set_keep_alive answer fd on =
    option_set fd so_keepalive on ∷ or_log answer erorr (codes "setKeepAlive error")

-- `Socket::~Socket`.
unfoldable pub destroy : ℤ → List Event
destroy fd = closed fd ∷ []
