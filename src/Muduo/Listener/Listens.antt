-- ===== src/Muduo/Listener/Listens.antt =====
-- A server of mymuduo-main/src/TcpServer.cpp that is made and started.
use mprpc_main.Common.{ℕ, ◌≡◌, refl, true, pos, [], ◌∷◌, Bool, Bytes}
use mprpc_main.Muduo.Socket.{
  InetAddress, bound, listened, able_read, option_set, so_keepalive, so_reuseaddr, so_reuseport,
}
use mprpc_main.Muduo.Server.{new_server}
use mprpc_main.Muduo.Server
use mprpc_main.Muduo.Acceptor
use mprpc_main.Muduo.Acceptor.{Answers, new_acceptor}
use mprpc_main.Muduo.Socket
use mprpc_main.Muduo.Acceptor.Heedless.{calls, listen-heedless}
use mprpc_main.Muduo.Listener.{new_listener, set_thread_num, start}

-- The kernel gives the socket `fd`, and every call on it succeeds.
pub record Grants (k : Answers) (fd : ℕ) : Type 0 where
  pub socket : k.socket ≡ pos fd
  pub keep_alive : k.keep_alive ≡ true
  pub reuse_addr : k.reuse_addr ≡ true
  pub reuse_port : k.reuse_port ≡ true
  pub bind : k.bind ≡ true
  pub listen : k.listen ≡ true

-- Where the kernel grants all, a new server that is given threads and started has bound its address
-- and listens, and nothing is logged.
pub start-granted :
    (k : Answers) (addr : InetAddress) (name : Bytes) (reuseport : Bool) (n fd : ℕ)
    → Grants k fd
    → (start k (set_thread_num n (new_listener k addr name reuseport))).acceptor.events
      ≡ option_set (pos fd) so_keepalive true
        ∷ option_set (pos fd) so_reuseaddr true
        ∷ option_set (pos fd) so_reuseport reuseport
        ∷ bound (pos fd) addr
        ∷ listened (pos fd)
        ∷ able_read (pos fd)
        ∷ []
unfolding start set_thread_num new_listener new_server Server.set_thread_num new_acceptor
    Acceptor.listen Socket.set_keep_alive Socket.set_reuse_addr Socket.set_reuse_port
    Socket.bind_address Socket.listen Socket.or_log
start-granted k addr name reuseport n fd g =
    rw (g.socket, g.keep_alive, g.reuse_addr, g.reuse_port, g.bind, g.listen) refl

-- A new server that is given threads and started has bound its address, and then listens.
pub start-listens :
    (k : Answers) (addr : InetAddress) (name : Bytes) (reuseport : Bool) (n : ℕ)
    → calls (start k (set_thread_num n (new_listener k addr name reuseport))).acceptor.events
      ≡ option_set k.socket so_keepalive true
        ∷ option_set k.socket so_reuseaddr true
        ∷ option_set k.socket so_reuseport reuseport
        ∷ bound k.socket addr
        ∷ listened k.socket
        ∷ able_read k.socket
        ∷ []
unfolding start set_thread_num new_listener new_server Server.set_thread_num
start-listens k addr name reuseport n = (listen-heedless k addr reuseport).0
