-- ===== src/Rpc/ZkClient/Session.antt =====
-- mprpc-main/src/zkclient.cc: `Start`, which waits for the session, the watcher, which ends the
-- wait, and the destructor. The ZooKeeper library calls the watcher in a thread of its own.
pub mod Reconnect
mod Tests
use mprpc_main.Common.{
  ℕ, zero, suc, Bool, true, false, ◌&&◌, ◌==◌, Option, none, some, List, [], ◌∷◌, ◌++◌, Bytes,
  codes, if◌then◌else◌, ◌>>=◌,
}
use mprpc_main.Rpc.Config.{ConfigMap, load}

-- Where the thread that calls `Start` is.
pub data Phase : Type 0 where
  waiting started closed : Phase

-- `sem` is the semaphore on the stack of `Start`: its count, or `none` once it is destroyed.
pub record ZkClient : Type 0 where
  pub zk_handle : Bool
  pub sem : Option ℕ
  pub phase : Phase

-- `connstr`.
pub connstr : ConfigMap → Bytes
connstr m = load (codes "zookeeperip") m ++ (codes ":" ++ load (codes "zookeeperport") m)

-- `Start` up to `sem_wait`: the handle that `zookeeper_init` gives, or `none` for a null pointer,
-- and then `exit(EXIT_FAILURE)`.
pub start : Bool → Option ZkClient
start initialized =
    if initialized then some (record { zk_handle = true; sem = some 0; phase = waiting }) else none

-- `sem_post`: `none` is a post on a semaphore that is no more.
post : ZkClient → Option ℕ → Option ZkClient
post c none = none
post c (some n) = some (record c { sem = some (suc n) })

-- `ZOO_SESSION_EVENT` and `ZOO_CONNECTED_STATE` of the ZooKeeper library.
pub record Constants : Type 0 where
  pub session_event : ℕ
  pub connected_state : ℕ

-- `global_watcher`.
pub global_watcher : Constants → ℕ → ℕ → ZkClient → Option ZkClient
unfolding post
global_watcher k type state c =
    if (type == k.session_event) && (state == k.connected_state) then post c c.sem else some c

wake : Phase → Option ℕ → ZkClient → ZkClient
wake waiting (some (suc n)) c = record c { sem = none; phase = started }
wake waiting _ c = c
wake started _ c = c
wake closed _ c = c

-- `sem_wait`, which blocks at 0, `sem_destroy`, and the return of `Start`.
pub wait : ZkClient → ZkClient
unfolding wake
wait c = wake c.phase c.sem c

-- The destructor: `true` says that `zookeeper_close` is called.
pub destroy : ZkClient → Bool × ZkClient
destroy c = (c.zk_handle, record c { phase = closed })

-- What happens to a client: an event of the session, or its own thread is scheduled.
pub data Happening : Type 0 where
  event : ℕ → ℕ → Happening
  scheduled : Happening

pub happen : Constants → Happening → ZkClient → Option ZkClient
unfolding global_watcher wait
happen k (event type state) c = global_watcher k type state c
happen k scheduled c = some (wait c)

pub run : Constants → List Happening → ZkClient → Option ZkClient
run k [] c = some c
run k (h ∷ hs) c = happen k h c >>= λ c'. run k hs c'
