-- ===== src/Muduo/Acceptor.antt =====
-- mymuduo-main/src/Acceptor.cpp: the listening socket, from its creation to a connection.
pub mod Heedless
pub mod Example
use mprpc_main.Common.{
  ℕ, Bool, true, false, Option, none, some, List, [], ◌∷◌, ◌++◌, codes, ℤ, pos, negsuc,
}
use mprpc_main.Muduo.Socket
use mprpc_main.Muduo.Socket.{InetAddress, Event, able_read, closed, logged}
use mprpc_main.Muduo.Logger.{erorr}

-- What the kernel answers to an acceptor's calls: a descriptor or -1, and whether each call gave 0.
pub record Answers : Type 0 where
  pub socket : ℤ
  pub keep_alive : Bool
  pub reuse_addr : Bool
  pub reuse_port : Bool
  pub bind : Bool
  pub listen : Bool

pub record Acceptor : Type 0 where
  pub accept_socket : ℤ
  pub listening : Bool
  pub events : List Event

-- `Acceptor::Acceptor`; `createNonblocking` gives what `socket` gave.
unfoldable pub new_acceptor : Answers → InetAddress → Bool → Acceptor
new_acceptor k listen_addr reuseport = record {
  accept_socket = k.socket;
  listening = false;
  events =
      Socket.set_keep_alive k.keep_alive k.socket true
      ++ (Socket.set_reuse_addr k.reuse_addr k.socket true
          ++ (Socket.set_reuse_port k.reuse_port k.socket reuseport
              ++ Socket.bind_address k.bind k.socket listen_addr));
}

-- `Acceptor::listen`; the channel is then enabled for reading.
unfoldable pub listen : Answers → Acceptor → Acceptor
listen k a = record a {
  listening = true;
  events = a.events ++ (Socket.listen k.listen a.accept_socket ++ (able_read a.accept_socket ∷ []));
}

-- `handleRead`: the connection that goes to the callback, if one is set, or else what is done.
-- `accept4` gave a descriptor or -1, and the peer's address.
pub handle_read : Bool → ℤ → InetAddress → InetAddress → Option (ℕ × InetAddress) × List Event
handle_read true (pos connfd) from any = (some (connfd, Socket.accept (pos connfd) from any), [])
handle_read false (pos connfd) from any = (none, closed (pos connfd) ∷ [])
handle_read called (negsuc n) from any = (none, logged erorr (codes "accept err") ∷ [])
