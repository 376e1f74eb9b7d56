-- ===== src/Rpc/Start.antt =====
-- How a provider comes up: `MprpcApplication::Init` of mprpc-main/src/mprpcapplication.cc, the
-- constructor of `RpcProvider` and `Run` of mprpc-main/src/rpcprovider.cc. What `getopt` returns,
-- the files, ZooKeeper and the kernel's answers are parameters; `ZkClient::Start` is in
-- ZkClient/Session, and gives `Run` a session on a tree.
pub mod Dialled
pub mod Configured
pub mod Caller
mod Tests
use mprpc_main.Common.{
  ℕ, Option, none, some, List, [], ◌∷◌, ◌++◌, Bytes, codes, ltb, if◌then◌else◌, c_str, ℤ, to_u16,
  false, ◌>>=◌,
}
use mprpc_main.Common.Strings.Atoi.{atoi}
use mprpc_main.Muduo.Socket.{Network, InetAddress, inet_address}
use mprpc_main.Muduo.Acceptor.{Answers}
use mprpc_main.Muduo.Listener
use mprpc_main.Muduo.Listener.{Listener, new_listener}
use mprpc_main.Rpc.Config.{ConfigMap, load_config_file, load}
use mprpc_main.Rpc.Provider.{Service, ServiceMap, notify_service}
use mprpc_main.Rpc.ZkClient.{ZooKeeper, register_services}

-- What `getopt` returns before -1: `-c` with its argument, or anything else.
pub data Returned : Type 0 where
  config_file : Bytes → Returned
  other : Returned

-- The loop of `Init`: `none` is `exit(EXIT_FAILURE)`.
read_options : (Bytes → Option Bytes) → List Returned → ConfigMap → Option ConfigMap
read_options files [] m = some m
read_options files (config_file optarg ∷ cs) m =
    read_options files cs (load_config_file (files optarg) m)
read_options files (other ∷ cs) m = none

-- `MprpcApplication::Init`, with the contents of the files that open.
pub init : (Bytes → Option Bytes) → ℕ → List Returned → ConfigMap → Option ConfigMap
unfolding read_options
init files argc cs m = if ltb argc 3 then none else read_options files cs m

pub record RpcProvider : Type 0 where
  pub listener : Listener
  pub service_map : ServiceMap

provider_at : Network → Answers → Bytes → Option ℤ → Option RpcProvider
provider_at net k ip none = none
provider_at net k ip (some port) = some (record {
  listener = new_listener k (inet_address net (to_u16 port) ip) (codes "RpcProvider") false;
  service_map = [];
})

-- The constructor; `none` where `atoi` is undefined.
pub new_provider : Network → Answers → ConfigMap → Option RpcProvider
unfolding provider_at
new_provider net k m =
    provider_at net k (load (codes "rpcserverip") m) (atoi (c_str (load (codes "rpcserverport") m)))

-- `method_data`.
pub method_data : ConfigMap → Bytes
method_data m = load (codes "rpcserverip") m ++ (codes ":" ++ load (codes "rpcserverport") m)

-- The end of `Run`.
start_server : Answers → RpcProvider → RpcProvider
start_server k p = record p { listener = Listener.start k (Listener.set_thread_num 4 p.listener) }

module _ (zk : ZooKeeper) where
  -- `Run` up to the loop.
  pub run : Answers → ConfigMap → zk.Tree → RpcProvider → Option (zk.Tree × RpcProvider)
  unfolding method_data start_server
  run k m t p =
      register_services zk (method_data m) p.service_map t >>= λ t'. some (t', start_server k p)

-- `main` of mprpc-main/example/callee: `UserService` is what `service` is made of. `none` is an
-- exit.
module _ (zk : ZooKeeper) (net : Network) (k : Answers) (files : Bytes → Option Bytes) where
  pub callee_main : Service → ℕ → List Returned → zk.Tree → Option (zk.Tree × RpcProvider)
  callee_main service argc cs t = do
    m ← init files argc cs []
    p ← new_provider net k m
    run zk k m t (record p { service_map = notify_service service p.service_map })
