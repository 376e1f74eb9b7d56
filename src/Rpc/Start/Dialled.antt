-- ===== src/Rpc/Start/Dialled.antt =====
-- A provider's address, from its configuration over ZooKeeper to the caller.
use mprpc_main.Common.{
  ℕ, ◌≤◌, ◌≡◌, refl, sym, ap, ap₂, ◌∙◌, subst, true, false, Option, none, some, List, [], ◌∷◌, ◌++◌,
  Bytes, codes, length, ℤ, pos, to_u16, c_str, stoi, Lacks, find, bytes_key, bytes_eq, bytes_eq_iff,
  Bool-cases, inl, inr, if◌then◌else◌, ◌>>=◌,
}
use mprpc_main.Common.Strings.Atoi.{atoi, atoi-c_str}
use mprpc_main.Muduo.Socket.{
  Network, inet_address, bound, listened, able_read, option_set, so_keepalive, so_reuseaddr,
  so_reuseport,
}
use mprpc_main.Muduo.Acceptor.{Answers}
use mprpc_main.Muduo.Listener.{new_listener}
use mprpc_main.Muduo.Listener.Listens.{Grants, start-granted}
use mprpc_main.Rpc.Config.{ConfigMap, load}
use mprpc_main.Rpc.Controller.{Controller}
use mprpc_main.Rpc.Wire.{HeaderCodec, frame}
use mprpc_main.Rpc.Provider.{Service, ServiceInfo, ServiceMap}
use mprpc_main.Rpc.Provider.Registry.{lookup_method, with_index, found_method}
use mprpc_main.Rpc.ZkClient.{ZooKeeper, get_data, method_path}
use mprpc_main.Rpc.ZkClient.Laws.{ZooKeeperLaws}
use mprpc_main.Rpc.ZkClient.Creation.{Ready}
use mprpc_main.Rpc.ZkClient.Discovery.{MethodsAt, ServicesAt, Named, register_services-found}
use mprpc_main.Rpc.Caller.{Kernel, Messages, call_method, request_header, exchange}
use mprpc_main.Rpc.Caller.Outcomes.{call_method-dials}
use mprpc_main.Rpc.Start.{RpcProvider, new_provider, provider_at, run, method_data, start_server}

module _ (zk : ZooKeeper) (laws : ZooKeeperLaws zk) (address : Bytes) (Own : Bytes → Type 0)
    (t : zk.Tree) where
  MethodsAt-find :
      (service name : Bytes) (i : ℕ) (methods : List (Bytes × ℕ))
      → MethodsAt zk laws address Own t service methods
      → find name methods ≡ some i
      → get_data zk t (method_path zk service name) ≡ some address
  unfolding find
  MethodsAt-find service name i [] at e = cc
  MethodsAt-find service name i ((n, j) ∷ methods) at e = elim (Bool-cases (bytes_eq n name)) [
    | inl same ↦
        subst (λ x. get_data zk t (method_path zk service x) ≡ some address)
          ((bytes_eq_iff n name).0 same) at.0
    | inr apart ↦
        MethodsAt-find service name i methods at.1
          (sym (ap (λ b. if b then some j else find name methods) apart) ∙ e)
  ]

  with_index-find :
      (info : ServiceInfo) (service name : Bytes) (o : Option ℕ) (found : Service × ℕ)
      → MethodsAt zk laws address Own t service info.method_map
      → find name info.method_map ≡ o
      → with_index info.service o ≡ some found
      → get_data zk t (method_path zk service name) ≡ some address
  with_index-find info service name none found at e f = cc
  with_index-find info service name (some i) found at e f =
      MethodsAt-find service name i info.method_map at e

  ServicesAt-lookup :
      (services : ServiceMap) (service name : Bytes) (found : Service × ℕ)
      → ServicesAt zk laws address Own t services
      → lookup_method services service name ≡ some found
      → get_data zk t (method_path zk service name) ≡ some address
  unfolding lookup_method find
  ServicesAt-lookup [] service name found at e = cc
  ServicesAt-lookup ((n, info) ∷ services) service name found at e =
      elim (Bool-cases (bytes_eq n service)) [
        | inl same ↦
            let f : found_method name (some info) ≡ some found =
              sym
                (ap (λ b. found_method name (if b then some info else find service services)) same)
              ∙ e in
            with_index-find info service name (find name info.method_map) found
              (subst (λ s. MethodsAt zk laws address Own t s info.method_map)
                ((bytes_eq_iff n service).0 same) at.0)
              refl f
        | inr apart ↦ ServicesAt-lookup services service name found at.1 (
            sym (ap (λ b. found_method name (if b then some info else find service services)) apart)
            ∙ e)
      ]

module _ (codec : HeaderCodec) (zk : ZooKeeper) (laws : ZooKeeperLaws zk) (kernel : Kernel)
    (net : Network) (k : Answers) (m : ConfigMap) (Own : Bytes → Type 0) where
  -- A provider is made and runs with a configuration whose `rpcserverip` is a text that is not
  -- empty and has no colon, whose `rpcserverport` begins with a number that an `int` holds, and
  -- which make an address of at most 64 bytes; its services and methods have protobuf names,
  -- and none of them has another node in ZooKeeper yet; and the kernel grants the socket and all
  -- calls on it. Then the constructor and `Run` succeed; the acceptor's socket is bound to that
  -- address and, as a `uint16_t`, that port, and listens, and nothing is logged of a call that
  -- failed; and a `CallMethod` of a method that the provider finds, once its messages are
  -- serialized, connects to that same address and port.
  pub run-dialled :
      (services : ServiceMap) (t : zk.Tree) (h : ℕ) (ip port_text : Bytes) (n : ℤ) (ms : Messages)
      (service method args hs : Bytes) (found : Service × ℕ) (c : Controller) (fd : ℕ)
      → Grants k fd
      → load (codes "rpcserverip") m ≡ h ∷ ip
      → load (codes "rpcserverport") m ≡ port_text
      → Lacks b':' (h ∷ ip)
      → stoi port_text ≡ some n
      → length (method_data m) ≤ 64
      → Named zk laws (method_data m) Own services
      → Ready zk laws (method_data m) Own t
      → lookup_method services service method ≡ some found
      → ms.serialized_request ≡ some args
      → codec.serialize (request_header codec zk kernel service method args) ≡ some hs
      → (p p' : RpcProvider) × (t' : zk.Tree) × (new_provider net k m ≡ some p)
        × (run zk k m t (record p { service_map = services }) ≡ some (t', p'))
        × (p'.listener.acceptor.events
            ≡ option_set (pos fd) so_keepalive true
              ∷ option_set (pos fd) so_reuseaddr true
              ∷ option_set (pos fd) so_reuseport false
              ∷ bound (pos fd) (inet_address net (to_u16 n) (h ∷ ip))
              ∷ listened (pos fd)
              ∷ able_read (pos fd)
              ∷ [])
        × (call_method codec zk kernel ms t' service method c
            ≡ exchange codec zk kernel ms (frame hs args) (h ∷ ip) (to_u16 n) c)
  unfolding new_provider provider_at run method_data start_server
  run-dialled services t h ip port_text n ms service method args hs found c fd grants e1 e2 l st
        small names ready look ser hdr =
      let (t', e, at, again) =
        register_services-found zk laws (method_data m) Own services t small names ready in
      (
        made,
        start_server k (record made { service_map = services }),
        t',
        ap₂ (provider_at net k) e1 (ap (λ s. atoi (c_str s)) e2 ∙ atoi-c_str port_text n st),
        ap (λ o. o >>= λ x. some (x, start_server k (record made { service_map = services }))) e,
        start-granted k (inet_address net (to_u16 n) (h ∷ ip)) (codes "RpcProvider") false 4 fd
            grants,
        call_method-dials codec zk kernel c ms t' service method args hs ip port_text h n ser hdr
            (ServicesAt-lookup zk laws (method_data m) Own t' services service method found at look
              ∙ ap some (ap₂ (λ a b. a ++ (b':' ∷ b)) e1 e2))
            l st,
      )
    where
      made : RpcProvider
      made = record {
        listener =
            new_listener k (inet_address net (to_u16 n) (h ∷ ip)) (codes "RpcProvider") false;
        service_map = [];
      }
