-- ===== src/Muduo/Server/Tests.antt =====
-- Runs of mymuduo-main/src/TcpServer.cpp and EventLoopThreadPool.cpp.
use mprpc_main.Common.{
  ℕ, ◌≡◌, refl, arith, Bool, true, false, Option, none, some, List, [], ◌∷◌, Bytes, codes, find,
  assign, bytes_key,
}
use mprpc_main.Common.Strings.Decimal.{to_string, decimal, decimal_from}
use mprpc_main.Muduo.Server.{
  TcpServer, EventLoopThreadPool, new_server, new_pool, set_thread_num, start_pool, start,
  handle_read, conn_name, register, new_connection, get_next_loop, next_from, give, started_loops,
  listen, connect_established,
}
use mprpc_main.Muduo.Server.RoundRobin.{turns, round_robin, turns-round_robin}
use mprpc_main.Muduo.Server.Connections.{Reach, created, begun, accepted, Reach-next_name}

turns-round_robin_example :
    (p : EventLoopThreadPool) × (turns 7 (start_pool (set_thread_num 3 new_pool))
      ≡ some (round_robin 3 0 7, p))
turns-round_robin_example = turns-round_robin 2 7

abbrev one_client : TcpServer
one_client = record {
  name = codes "s";
  pool = record { num_threads = 0; started = true; next = 0; loops = [] };
  started = 1;
  next_conn_id = 2;
  connections = (codes "s#1", (9, 0)) ∷ [];
  jobs = (0, listen) ∷ (0, connect_established (codes "s#1")) ∷ [];
}

Reach-one_client : Reach one_client
unfolding new_server start handle_read new_connection register get_next_loop next_from give
    start_pool started_loops new_pool conn_name to_string decimal decimal_from find assign
    mprpc_main.Common.bytes_eq
Reach-one_client =
    accepted (start (new_server (codes "s"))) one_client (some 9)
      (begun (new_server (codes "s")) (created (codes "s"))) refl

Reach-next_name_example : find (conn_name (codes "s") 2) one_client.connections ≡ none
Reach-next_name_example = Reach-next_name Reach-one_client (omega arith)
