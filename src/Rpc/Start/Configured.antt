-- ===== src/Rpc/Start/Configured.antt =====
-- The example callee of mprpc-main/example/callee, from its configuration file to a caller.
use mprpc_main.Common.{
  ℕ, ◌≡◌, ap, ◌∙◌, true, Option, none, some, List, [], ◌∷◌, ◌++◌, Bytes, codes, find, bytes_key,
  bytes_eq_refl, if◌then◌else◌, ◌>>=◌,
}
use mprpc_main.Muduo.Socket.{Network}
use mprpc_main.Muduo.Acceptor.{Answers}
use mprpc_main.Rpc.Config.{ConfigMap}
use mprpc_main.Rpc.Controller.{Controller}
use mprpc_main.Rpc.Wire.{HeaderCodec}
use mprpc_main.Rpc.Provider.{Service, ServiceMap, notify_service}
use mprpc_main.Rpc.Provider.Registry.{
  lookup_method, with_index, first_index, lookup_method-notify_service,
}
use mprpc_main.Rpc.ZkClient.{ZooKeeper}
use mprpc_main.Rpc.ZkClient.Laws.{ZooKeeperLaws, is_name}
use mprpc_main.Rpc.Caller.{Kernel}
use mprpc_main.Rpc.Start.{RpcProvider, new_provider, run}

-- The text that is registered.
abbrev pub address_text : Bytes → Bytes → Bytes
address_text ip port = ip ++ (codes ":" ++ port)

registered :
    (s : Service) (method : Bytes) (i : ℕ)
    → first_index 0 method s.method_names ≡ some i
    → lookup_method (notify_service s []) s.name method ≡ some (s, i)
unfolding find
registered s method i e =
    lookup_method-notify_service s [] s.name method
    ∙ ap (λ b. if b then with_index s (first_index 0 method s.method_names) else none)
        (bytes_eq_refl s.name)
    ∙ ap (with_index s) e

-- All are protobuf names.
abbrev pub AllNames : List Bytes → Type 0
AllNames [] = Unit {0}
AllNames (name ∷ names) = (is_name name ≡ true) × AllNames names

services_of : Option RpcProvider → ServiceMap
services_of none = []
services_of (some p) = p.service_map

module _ (codec : HeaderCodec) (zk : ZooKeeper) (laws : ZooKeeperLaws zk) (kernel : Kernel)
    (net : Network) (k : Answers) (files : Bytes → Option Bytes) where
  abbrev with_service : Service → RpcProvider → RpcProvider
  with_service s q = record q { service_map = notify_service s q.service_map }

  abbrev behind_options : Service → zk.Tree → ConfigMap → Option (zk.Tree × RpcProvider)
  behind_options s t m = new_provider net k m >>= λ q. run zk k m t (with_service s q)
