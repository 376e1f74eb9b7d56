-- ===== src/Rpc/ZkClient/Discovery.antt =====
-- What `RpcProvider::Run` of mprpc-main/src/rpcprovider.cc registers, `GetData` finds.
use mprpc_main.Common.{
  ℕ, ◌≤◌, ◌≡◌, refl, ap, ◌∙◌, Option, none, some, List, [], ◌∷◌, Bytes, length, take_all, true,
}
use mprpc_main.Rpc.Provider.{ServiceMap}
use mprpc_main.Rpc.ZkClient.Laws.{service_path, result_of, ZooKeeperLaws, is_name}
use mprpc_main.Rpc.ZkClient.{
  ZooKeeper, get_data, read, method_path, register_methods, register_services,
}
use mprpc_main.Rpc.ZkClient.Creation.{
  Ready, Keeps, Registers, registers, Registers-bind, service-Registers, method-Registers,
}

module _ (zk : ZooKeeper) (laws : ZooKeeperLaws zk) (address : Bytes) (Own : Bytes → Type 0) where
  open zk use {Tree}

  -- All methods of a service, and all services, have the address at their paths.
  abbrev pub MethodsAt : Tree → Bytes → List (Bytes × ℕ) → Type 0
  MethodsAt t service [] = Unit {0}
  MethodsAt t service ((name, index) ∷ methods) =
      (get_data zk t (method_path zk service name) ≡ some address) × MethodsAt t service methods

  abbrev pub ServicesAt : Tree → ServiceMap → Type 0
  ServicesAt t [] = Unit {0}
  ServicesAt t ((name, info) ∷ services) = MethodsAt t name info.method_map × ServicesAt t services

  -- The services are the provider's, and all names are protobuf names.
  abbrev pub MethodsNamed : List (Bytes × ℕ) → Type 0
  MethodsNamed [] = Unit {0}
  MethodsNamed ((name, index) ∷ methods) = (is_name name ≡ true) × MethodsNamed methods

  abbrev pub Named : ServiceMap → Type 0
  Named [] = Unit {0}
  Named ((name, info) ∷ services) =
      Own name × (is_name name ≡ true) × MethodsNamed info.method_map × Named services

  NodesAt : Tree → Bytes → List (Bytes × ℕ) → Type 0
  NodesAt t service [] = Unit {0}
  NodesAt t service ((name, index) ∷ methods) =
      (laws.node t (method_path zk service name) ≡ some (some address)) × NodesAt t service methods

  NodesAt-Keeps :
      (t t' : Tree) (service : Bytes) (methods : List (Bytes × ℕ))
      → Keeps zk laws address Own t t'
      → NodesAt t service methods
      → NodesAt t' service methods
  unfolding Keeps NodesAt
  NodesAt-Keeps t t' service [] k h = tt
  NodesAt-Keeps t t' service ((name, index) ∷ methods) k h =
      (k (method_path zk service name) (some address) h.0, NodesAt-Keeps t t' service methods k h.1)

  NodesOf : Tree → ServiceMap → Type 0
  NodesOf t [] = Unit {0}
  NodesOf t ((name, info) ∷ services) = NodesAt t name info.method_map × NodesOf t services

  found :
      (t : Tree) (q : Bytes)
      → length address ≤ 64
      → laws.node t q ≡ some (some address)
      → get_data zk t q ≡ some address
  unfolding get_data read
  found t q le h =
      ap (read zk) (laws.get-node t q ∙ ap result_of h) ∙ ap some (take_all 64 address le)

  NodesAt-MethodsAt :
      (t : Tree) (service : Bytes) (methods : List (Bytes × ℕ))
      → length address ≤ 64
      → NodesAt t service methods
      → MethodsAt t service methods
  unfolding NodesAt
  NodesAt-MethodsAt t service [] le h = tt
  NodesAt-MethodsAt t service ((name, index) ∷ methods) le h =
      (found t (method_path zk service name) le h.0, NodesAt-MethodsAt t service methods le h.1)

  register_methods-Registers :
      (service : Bytes) (methods : List (Bytes × ℕ)) (t : Tree)
      → Own service
      → is_name service ≡ true
      → MethodsNamed methods
      → laws.node t (service_path service) ≡ some none
      → Ready zk laws address Own t
      → Registers zk laws address Own t
          (λ t'. NodesAt t' service methods)
          (register_methods zk address service methods t)
  unfolding register_methods Keeps NodesAt
  register_methods-Registers service [] t own l names parent ready = registers ready (λ q d h. h) tt
  register_methods-Registers service ((name, index) ∷ methods) t own l names parent ready =
      Registers-bind zk laws address Own t
        (method-Registers zk laws address Own t service name own l names.0 parent ready)
        (λ t1 ready1 k at.
          register_methods-Registers service methods t1 own l names.1
            (k (service_path service) none parent) ready1)
        (λ t1 t' at k h. (k (method_path zk service name) (some address) at, h))

  register_services-Registers :
      (services : ServiceMap) (t : Tree)
      → Named services
      → Ready zk laws address Own t
      → Registers zk laws address Own t
          (λ t'. NodesOf t' services)
          (register_services zk address services t)
  unfolding register_services Keeps NodesOf
  register_services-Registers [] t l ready = registers ready (λ q d h. h) tt
  register_services-Registers ((name, info) ∷ services) t l ready =
      Registers-bind zk laws address Own t
        (service-Registers zk laws address Own t name l.0 l.1 ready)
        (λ t1 ready1 k at.
          Registers-bind zk laws address Own t1
            (register_methods-Registers name info.method_map t1 l.0 l.1 l.2 at ready1)
            (λ t2 ready2 k2 h. register_services-Registers services t2 l.3 ready2)
            (λ t2 t' h k2 h'. (NodesAt-Keeps t2 t' name info.method_map k2 h, h')))
        (λ t1 t' at k h. h)

  NodesOf-ServicesAt :
      (t : Tree) (services : ServiceMap)
      → length address ≤ 64
      → NodesOf t services
      → ServicesAt t services
  unfolding NodesOf
  NodesOf-ServicesAt t [] le h = tt
  NodesOf-ServicesAt t ((name, info) ∷ services) le h =
      (NodesAt-MethodsAt t name info.method_map le h.0, NodesOf-ServicesAt t services le h.1)

  Registers-ServicesAt :
      (t : Tree) (services : ServiceMap) (r : Option Tree)
      → length address ≤ 64
      → Registers zk laws address Own t (λ t'. NodesOf t' services) r
      → (t' : Tree) × (r ≡ some t') × ServicesAt t' services × Ready zk laws address Own t'
  Registers-ServicesAt t services none le x = elim x [ ]
  Registers-ServicesAt t services (some t') le (registers ready k h) =
      (t', refl, NodesOf-ServicesAt t' services le h, ready)

  -- The registration of services with protobuf names, with an address of at most 64 bytes, in a tree
  -- where none of their methods has another address yet: it comes back, `GetData` then gives that
  -- address under the path of each method of each service, and the provider can be started again on
  -- the tree.
  pub register_services-found :
      (services : ServiceMap) (t : Tree)
      → length address ≤ 64
      → Named services
      → Ready zk laws address Own t
      → (t' : Tree) × (register_services zk address services t ≡ some t')
        × ServicesAt t' services
        × Ready zk laws address Own t'
  register_services-found services t le l ready =
      Registers-ServicesAt t services (register_services zk address services t) le
        (register_services-Registers services t l ready)
