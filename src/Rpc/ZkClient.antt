-- ===== src/Rpc/ZkClient.antt =====
-- mprpc-main/src/zkclient.cc, and the registration in `RpcProvider::Run`: znodes by path.
-- ZooKeeper itself is a parameter; what is used of it are three calls on a connected handle.
pub mod Laws
pub mod Creation
pub mod Discovery
pub mod Listed
pub mod Session
use mprpc_main.Common.{
  ℕ, Bool, true, false, Option, none, some, List, [], ◌∷◌, ◌++◌, Bytes, take, codes, ◌>>=◌,
}
use mprpc_main.Rpc.Provider.{ServiceMap}

-- What `zoo_exists` says.
pub data Exists : Type 0 where
  zok znonode other : Exists

-- What `zoo_get` says: an error, a znode without data, or the data.
pub data GetResult : Type 0 where
  missing : GetResult
  null_data : GetResult
  got : Bytes → GetResult

-- The calls of the ZooKeeper C client. `create` is told the path, the data and whether the node is
-- ephemeral; `none` is a code that is not `ZOK`.
pub record ZooKeeper : Type 1 where
  pub Tree : Type 0
  pub exists : Tree → Bytes → Exists
  pub create : Tree → Bytes → Option Bytes → Bool → Option Tree
  pub get : Tree → Bytes → GetResult

module _ (zk : ZooKeeper) where
  open zk use {Tree}

  unfoldable pub create_at : Exists → Tree → Bytes → Option Bytes → Bool → Option Tree
  create_at znonode t path bytes ephemeral = zk.create t path bytes ephemeral
  create_at zok t path bytes ephemeral = some t
  create_at other t path bytes ephemeral = some t

  -- `Create`: `none` is `exit(EXIT_FAILURE)`.
  pub create : Tree → Bytes → Option Bytes → Bool → Option Tree
  unfolding create_at
  create t path bytes ephemeral = create_at (zk.exists t path) t path bytes ephemeral

  unfoldable pub read : GetResult → Option Bytes
  read missing = some []
  read null_data = none
  read (got bytes) = some (take 64 bytes)

  -- `GetData`: an error gives the empty string, and 64 bytes are read at most. A znode without data
  -- sets the length to -1, and `std::string` throws: `none`.
  unfoldable pub get_data : Tree → Bytes → Option Bytes
  unfolding read
  get_data t path = read (zk.get t path)

  -- `/service/method`.
  abbrev pub method_path : Bytes → Bytes → Bytes
  method_path service method = (codes "/" ++ service) ++ (codes "/" ++ method)

  -- The inner loop of `Run`.
  pub register_methods : Bytes → Bytes → List (Bytes × ℕ) → Tree → Option Tree
  register_methods address service [] t = some t
  register_methods address service ((name, index) ∷ methods) t = do
    t' ← create t (method_path service name) (some address) true
    register_methods address service methods t'

  -- The outer loop of `Run`: persistent nodes for services, ephemeral ones for methods.
  pub register_services : Bytes → ServiceMap → Tree → Option Tree
  register_services address [] t = some t
  register_services address ((name, info) ∷ services) t = do
    t' ← create t (codes "/" ++ name) none false
    t'' ← register_methods address name info.method_map t'
    register_services address services t''
