-- ===== src/Muduo/Listener.antt =====
-- mymuduo-main/src/TcpServer.cpp: a server with its acceptor, from its constructor to its start,
-- which the thread of the base loop calls.
pub mod Listens
use mprpc_main.Common.{ℕ, Bool, true, false, List, [], ◌∷◌, Bytes, codes, ◌==◌, if◌then◌else◌}
use mprpc_main.Muduo.Logger.{erorr}
use mprpc_main.Muduo.Socket.{InetAddress, Event, logged}
use mprpc_main.Muduo.Acceptor
use mprpc_main.Muduo.Acceptor.{Acceptor, Answers, new_acceptor}
use mprpc_main.Muduo.Server
use mprpc_main.Muduo.Server.{TcpServer, new_server}

pub record Listener : Type 0 where
  pub acceptor : Acceptor
  pub server : TcpServer

-- `TcpServer::TcpServer`.
pub new_listener : Answers → InetAddress → Bytes → Bool → Listener
new_listener k listen_addr name reuseport = record {
  acceptor = new_acceptor k listen_addr reuseport;
  server = new_server name;
}

-- `TcpServer::setThreadNum`.
pub set_thread_num : ℕ → Listener → Listener
set_thread_num n l = record l {
  server = record l.server { pool = Server.set_thread_num n l.server.pool };
}

-- `TcpServer::start`: `runInLoop` runs `Acceptor::listen` at once.
pub start : Answers → Listener → Listener
start k l = record {
  acceptor = if l.server.started == 0 then Acceptor.listen k l.acceptor else l.acceptor;
  server = Server.start l.server;
}

-- `TcpServer::getLocalAddr`, by whether `getsockname` gave 0, and the address that it wrote; without
-- one the zeros stay.
pub get_local_addr : Bool → InetAddress → InetAddress × List Event
get_local_addr true found = (found, [])
get_local_addr false found = (
  record { sin_port = 0; s_addr = 0 },
  logged erorr (codes "TcpServer::getLocalAddr getsockname error") ∷ [],
)
