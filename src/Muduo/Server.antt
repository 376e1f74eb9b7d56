-- ===== src/Muduo/Server.antt =====
-- mymuduo-main/src/EventLoopThreadPool.cpp, Acceptor.cpp and TcpServer.cpp: which loop a connection
-- gets, and the table of the connections. A loop is its number; the base loop is loop 0, and
-- `startLoop` of the i-th thread, counted from 1, gives loop i. What is handed to loops is
-- recorded, in order; a connection is named by its text.
pub mod RoundRobin
pub mod Connections
mod Tests
use mprpc_main.Common.{
  ℕ, zero, suc, ◌+◌, ◌-◌, ◌*◌, ◌%◌, ◌<◌, ◌≤◌, Bool, true, false, Option, none, some, List, [], ◌∷◌,
  ◌++◌, Bytes, length, leb, ltb, ◌==◌, if◌then◌else◌, codes, bytes_key, find, assign, erase, ℤ, pos,
}
use mprpc_main.Common.Strings.Decimal.{to_string}

pub record EventLoopThreadPool : Type 0 where
  pub num_threads : ℕ
  pub started : Bool
  pub next : ℕ
  pub loops : List ℕ

unfoldable pub new_pool : EventLoopThreadPool
new_pool = record { num_threads = 0; started = false; next = 0; loops = [] }

unfoldable pub set_thread_num : ℕ → EventLoopThreadPool → EventLoopThreadPool
set_thread_num n p = record p { num_threads = n }

-- The loops of the threads from `i` on, `n` of them.
pub started_loops : ℕ → ℕ → List ℕ
started_loops i zero = []
started_loops i (suc n) = i ∷ started_loops (suc i) n

-- `start`.
pub start_pool : EventLoopThreadPool → EventLoopThreadPool
unfolding started_loops
start_pool p = record p {
  started = true;
  loops = p.loops ++ started_loops (suc (length p.loops)) p.num_threads;
}

-- `loops_[i]`: a fault if it is not there.
pub loop_at : ℕ → List ℕ → Option ℕ
loop_at i [] = none
loop_at zero (l ∷ ls) = some l
loop_at (suc i) (l ∷ ls) = loop_at i ls

next_of : Option ℕ → EventLoopThreadPool → Option (ℕ × EventLoopThreadPool)
next_of none p = none
next_of (some l) p =
    some (l, record p { next = if leb (length p.loops) (p.next + 1) then 0 else p.next + 1 })

next_from : List ℕ → EventLoopThreadPool → Option (ℕ × EventLoopThreadPool)
unfolding next_of loop_at
next_from [] p = some (0, p)
next_from (l ∷ ls) p = next_of (loop_at p.next p.loops) p

-- `getNextLoop`.
pub get_next_loop : EventLoopThreadPool → Option (ℕ × EventLoopThreadPool)
unfolding next_from
get_next_loop p = next_from p.loops p

-- `getAllLoops`.
pub get_all_loops : EventLoopThreadPool → List ℕ
get_all_loops p = elim p.num_threads [ zero ↦ 0 ∷ [] | suc n ↦ p.loops ]

-- What a loop is handed.
pub data Job : Type 0 where
  listen : Job
  connect_established connect_destroyed : Bytes → Job
  removal : Bytes → Job

-- `connections` gives the descriptor and the loop.
pub record TcpServer : Type 0 where
  pub name : Bytes
  pub pool : EventLoopThreadPool
  pub started : ℕ
  pub next_conn_id : ℕ
  pub connections : List (Bytes × (ℕ × ℕ))
  pub jobs : List (ℕ × Job)

unfoldable pub new_server : Bytes → TcpServer
unfolding new_pool
new_server name = record {
  name = name;
  pool = new_pool;
  started = 0;
  next_conn_id = 1;
  connections = [];
  jobs = [];
}

pub give : ℕ → Job → TcpServer → TcpServer
give l job t = record t { jobs = t.jobs ++ ((l, job) ∷ []) }

-- `TcpServer::start`: a second call changes the counter only.
pub start : TcpServer → TcpServer
unfolding start_pool give
start t =
    if t.started == 0
    then give 0 listen (record t { started = 1; pool = start_pool t.pool })
    else record t { started = t.started + 1 }

-- `name_ + "#" + std::to_string(nextConnId_)`.
pub conn_name : Bytes → ℕ → Bytes
conn_name name id = name ++ (codes "#" ++ to_string (pos id))

register : ℕ → Option (ℕ × EventLoopThreadPool) → TcpServer → Option TcpServer
unfolding give conn_name
register sockfd none t = none
register sockfd (some (io_loop, pool)) t =
    let name = conn_name t.name t.next_conn_id in
    some (
      give io_loop (connect_established name) (record t {
        pool = pool;
        next_conn_id = t.next_conn_id + 1;
        connections = assign name (sockfd, io_loop) t.connections;
      }))

-- `newConnection`; `nextConnId_` is an `int` that is taken not to reach 2 ^ 31.
pub new_connection : ℕ → TcpServer → Option TcpServer
unfolding register get_next_loop
new_connection sockfd t = register sockfd (get_next_loop t.pool) t

-- `Acceptor::handleRead`: what `accept` returns, `none` for -1.
pub handle_read : Option ℕ → TcpServer → Option TcpServer
handle_read none t = some t
handle_read (some connfd) t = new_connection connfd t

-- `removeConnection`, the close callback: on the base loop.
pub remove_connection : Bytes → TcpServer → TcpServer
unfolding give
remove_connection name t = give 0 (removal name) t

-- `removeConnectionInLoop`, of the connection of that name and loop.
pub remove_connection_in_loop : Bytes → ℕ → TcpServer → TcpServer
unfolding give
remove_connection_in_loop name io_loop t =
    give io_loop (connect_destroyed name) (record t { connections = erase name t.connections })

-- The loop of the destructor: each connection is destroyed in its own loop.
destroy_all : List (Bytes × (ℕ × ℕ)) → TcpServer → TcpServer
unfolding give
destroy_all [] t = t
destroy_all ((name, (fd, io_loop)) ∷ connections) t =
    destroy_all connections (give io_loop (connect_destroyed name) t)

-- `TcpServer::~TcpServer`.
pub destroy : TcpServer → TcpServer
unfolding destroy_all
destroy t = destroy_all t.connections t
