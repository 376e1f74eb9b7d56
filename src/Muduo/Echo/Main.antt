-- ===== src/Muduo/Echo/Main.antt =====
-- mymuduo-main/examples/echo_server.cpp: its log of connections, and `main` up to the loop.
use mprpc_main.Common.{
  ℕ, ◌≡◌, ◌≤◌, true, Bool, List, [], ◌∷◌, ◌++◌, Bytes, codes, c_str, ℤ, pos, negsuc, if◌then◌else◌,
  arith, to_u16,
}
use mprpc_main.Common.Strings.Decimal.{to_string}
use mprpc_main.Muduo.Logger
use mprpc_main.Muduo.Logger.{Logger}
use mprpc_main.Muduo.Socket.{
  Network, InetAddress, inet_address, bound, listened, able_read, option_set, so_keepalive,
  so_reuseaddr, so_reuseport,
}
use mprpc_main.Muduo.Acceptor.{Answers}
use mprpc_main.Muduo.Acceptor.Heedless.{calls}
use mprpc_main.Muduo.Listener.{Listener, new_listener, set_thread_num, start}
use mprpc_main.Muduo.Listener.Listens.{start-listens}
use mprpc_main.Muduo.Echo.{port_of, in_port_range}

-- What <arpa/inet.h> makes of an address for people to read.
pub record Presentation : Type 0 where
  pub ntohs : ℕ → ℕ
  pub inet_ntop : ℕ → Bytes

-- `toIpPort`.
pub to_ip_port : Presentation → InetAddress → Bytes
to_ip_port p addr =
    p.inet_ntop addr.s_addr ++ (codes ":" ++ to_string (pos (p.ntohs addr.sin_port)))

-- `onConnection`.
pub on_connection : Presentation → Bool → InetAddress → InetAddress → Bytes → Logger → Logger
unfolding to_ip_port
on_connection p connected peer local name l =
    if connected
    then Logger.log_info
        (codes "new connection: "
          ++ (c_str (to_ip_port p peer)
              ++ (codes " -> " ++ (c_str (to_ip_port p local) ++ (codes ", name=" ++ c_str name)))))
        l
    else Logger.log_info (codes "connection down: " ++ c_str name) l

-- `main`.
pub main : Network → Answers → (Bytes → ℤ) → List Bytes → Logger → Listener × Logger
main net k atoi arguments l =
    let port = port_of atoi arguments in
    (
      start k (
          set_thread_num 2
            (new_listener k (inet_address net port (codes "0.0.0.0")) (codes "EchoServer") true)),
      Logger.log_info (codes "EchoServer start, listen on " ++ to_string (pos port)) l,
    )

in_port_range-Port : (n : ℤ) → (1 ≤ in_port_range n) × (in_port_range n ≤ 65535)
unfolding in_port_range to_u16
in_port_range-Port (pos n) = ground arith
in_port_range-Port (negsuc n) = (omega arith, omega arith)

port_of-Port :
    (atoi : Bytes → ℤ) (arguments : List Bytes)
    → (1 ≤ port_of atoi arguments) × (port_of atoi arguments ≤ 65535)
unfolding port_of
port_of-Port atoi [] = (omega arith, omega arith)
port_of-Port atoi (argument ∷ arguments) = in_port_range-Port (atoi argument)

-- Whatever the command line is, the echo server binds a port from 1 to 65535 on all interfaces,
-- lets others bind it too, and listens.
pub main-listens :
    (net : Network) (k : Answers) (atoi : Bytes → ℤ) (arguments : List Bytes) (l : Logger)
    → (port : ℕ) × (1 ≤ port)
      × (port ≤ 65535)
      × (calls (main net k atoi arguments l).0.acceptor.events
          ≡ option_set k.socket so_keepalive true
            ∷ option_set k.socket so_reuseaddr true
            ∷ option_set k.socket so_reuseport true
            ∷ bound k.socket (inet_address net port (codes "0.0.0.0"))
            ∷ listened k.socket
            ∷ able_read k.socket
            ∷ [])
unfolding main
main-listens net k atoi arguments l =
    let port = port_of atoi arguments in
    let h = port_of-Port atoi arguments in
    (
      port,
      h.0,
      h.1,
      start-listens k (inet_address net port (codes "0.0.0.0")) (codes "EchoServer") true 2,
    )
