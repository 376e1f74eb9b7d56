-- ===== src/Rpc/ZkClient/Listed.antt =====
-- A ZooKeeper that is a list of nodes, for runs of mprpc-main/src/zkclient.cc.
use mprpc_main.Common.{
  ◌≡◌, refl, sym, ap, Option, none, some, List, ◌∷◌, Bytes, find, bytes_key, bytes_eq,
  if◌then◌else◌,
}
use mprpc_main.Rpc.ZkClient.{ZooKeeper, method_path}
use mprpc_main.Rpc.ZkClient.Laws.{exists_of, result_of, service_path, ZooKeeperLaws}

abbrev pub Nodes : Type 0
Nodes = List (Bytes × Option Bytes)

abbrev pub put : Option (Option Bytes) → Bytes → Option Bytes → Nodes → Option Nodes
put none p d t = some ((p, d) ∷ t)
put (some _) p d t = none

abbrev pub listed : ZooKeeper
listed = record {
  Tree = Nodes;
  exists = λ t p. exists_of (find p t);
  create = λ t p d ephemeral. put (find p t) p d t;
  get = λ t p. result_of (find p t);
}

pub put-find :
    (o : Option (Option Bytes)) (t t' : Nodes) (p q : Bytes) (d : Option Bytes)
    → put o p d t ≡ some t'
    → find q t' ≡ (if bytes_eq p q then some d else find q t)
unfolding find
put-find none t t' p q d e = ap (find q) (sym (tree e))
  where
    tree : some ((p, d) ∷ t) ≡ some t' → (p, d) ∷ t ≡ t'
    tree f = cc
put-find (some x) t t' p q d e = cc

abbrev pub listed_laws : ZooKeeperLaws listed
listed_laws = record {
  node = λ t p. find p t;
  exists-node = λ t p. refl;
  get-node = λ t p. refl;
  create-service =
      λ t name n h. ((service_path name, none) ∷ t, ap (λ o. put o (service_path name) none t) h);
  create-method = λ t service name bytes n n' h k. (
    (method_path listed service name, bytes) ∷ t,
    ap (λ o. put o (method_path listed service name) bytes t) k,
  );
  node-create = λ t t' p q d ephemeral e. put-find (find p t) t t' p q d e;
}
