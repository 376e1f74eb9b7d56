-- ===== src/Rpc/ZkClient/Laws.antt =====
-- The paths of mprpc-main/src/rpcprovider.cc in ZooKeeper, and what is used of ZooKeeper.
use mprpc_main.Common.{
  ◌≡◌, ◌≢◌, Bool, true, false, Option, none, some, [], ◌∷◌, ◌++◌, Bytes, codes, bytes_eq, Lacks, ℕ,
  leb, ◌==◌, ◌&&◌, ◌||◌, sym, ap, ◌∙◌, if◌then◌else◌,
}
use mprpc_main.Rpc.ZkClient.{
  Exists, zok, znonode, GetResult, missing, null_data, got, ZooKeeper, method_path,
}

-- The path of a service's node.
abbrev pub service_path : Bytes → Bytes
service_path name = codes "/" ++ name

-- What is at a path: no node, a node without data, or one with data.
abbrev pub exists_of : Option (Option Bytes) → Exists
exists_of none = znonode
exists_of (some d) = zok

abbrev pub result_of : Option (Option Bytes) → GetResult
result_of none = missing
result_of (some none) = null_data
result_of (some (some bytes)) = got bytes

-- Names as protobuf gives them: letters, digits, `_` and `.`, no digit or `.` first. They may stand
-- in a path of ZooKeeper.
abbrev pub is_letter : ℕ → Bool
is_letter c = (leb 65 c && leb c 90) || ((leb 97 c && leb c 122) || (c == 95))

abbrev pub is_name_byte : ℕ → Bool
is_name_byte c = is_letter c || ((leb 48 c && leb c 57) || (c == 46))

abbrev pub all_name_bytes : Bytes → Bool
all_name_bytes [] = true
all_name_bytes (c ∷ s) = is_name_byte c && all_name_bytes s

abbrev pub is_name : Bytes → Bool
is_name [] = false
is_name (c ∷ s) = is_letter c && all_name_bytes (c ∷ s)

-- What ZooKeeper's manual says of its calls, on a session that holds: `node` is what is at a path;
-- where a name is a protobuf name, a node that is not there can be created below the root, and
-- below the node of a service; it then has its data, and the other paths are as before.
pub record ZooKeeperLaws (zk : ZooKeeper) : Type 0 where
  pub node : zk.Tree → Bytes → Option (Option Bytes)
  pub exists-node : (t : zk.Tree) (p : Bytes) → zk.exists t p ≡ exists_of (node t p)
  pub get-node : (t : zk.Tree) (p : Bytes) → zk.get t p ≡ result_of (node t p)
  pub create-service :
      (t : zk.Tree) (name : Bytes)
      → is_name name ≡ true
      → node t (service_path name) ≡ none
      → (t' : zk.Tree) × (zk.create t (service_path name) none false ≡ some t')
  pub create-method :
      (t : zk.Tree) (service name : Bytes) (bytes : Option Bytes)
      → is_name service ≡ true
      → is_name name ≡ true
      → node t (service_path service) ≡ some none
      → node t (method_path zk service name) ≡ none
      → (t' : zk.Tree) × (zk.create t (method_path zk service name) bytes true ≡ some t')
  pub node-create :
      (t t' : zk.Tree) (p q : Bytes) (bytes : Option Bytes) (ephemeral : Bool)
      → zk.create t p bytes ephemeral ≡ some t'
      → node t' q ≡ (if bytes_eq p q then some bytes else node t q)

pub slash-apart : (name service method : Bytes) → Lacks b'/' name → name ≢ service ++ b'/' ∷ method
slash-apart [] [] method l e = cc
slash-apart [] (c ∷ service) method l e = cc
slash-apart (c ∷ name) [] method l e = l.0 (cc)
slash-apart (c ∷ name) (d ∷ service) method l e = slash-apart name service method l.1 (cc)

name_byte-slash : (c : ℕ) → is_name_byte c ≡ true → c ≢ b'/'
name_byte-slash c h e = clash (sym (ap is_name_byte e) ∙ h)
  where
    clash : false ≡ true → ⊥
    clash f = cc

and-true : (a b : Bool) → (a && b) ≡ true → (a ≡ true) × (b ≡ true)
and-true true true h = (h, h)
and-true true false h = cc
and-true false b h = cc

all_name_bytes-Lacks : (s : Bytes) → all_name_bytes s ≡ true → Lacks b'/' s
all_name_bytes-Lacks [] h = tt
all_name_bytes-Lacks (c ∷ s) h =
    let (a, b) = and-true (is_name_byte c) (all_name_bytes s) h in
    (name_byte-slash c a, all_name_bytes-Lacks s b)

pub is_name-Lacks : (s : Bytes) → is_name s ≡ true → Lacks b'/' s
is_name-Lacks [] h = tt
is_name-Lacks (c ∷ s) h =
    all_name_bytes-Lacks (c ∷ s) (and-true (is_letter c) (all_name_bytes (c ∷ s)) h).1
