-- ===== src/Muduo/Acceptor/Example.antt =====
-- A network and a kernel for runs of servers.
use mprpc_main.Common.{true, pos}
use mprpc_main.Muduo.Socket.{Network}
use mprpc_main.Muduo.Acceptor.{Answers}

abbrev pub net : Network
net = record { htons = λ p. p; inet_addr = λ ip. 0 }

-- Every call succeeds.
abbrev pub fine : Answers
fine = record {
  socket = pos 4;
  keep_alive = true;
  reuse_addr = true;
  reuse_port = true;
  bind = true;
  listen = true;
}
