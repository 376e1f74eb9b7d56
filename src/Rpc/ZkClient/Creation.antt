-- ===== src/Rpc/ZkClient/Creation.antt =====
-- What `Create` of mprpc-main/src/zkclient.cc makes of the tree, for a service and for a method.
use mprpc_main.Common.{
  ◌≡◌, ◌≢◌, sym, ap, ◌∙◌, subst, Bool, true, false, Option, none, some, Bytes, ◌>>=◌, bytes_eq,
  bytes_eq_refl, bytes_eq_iff, bytes_ne, Lacks, ◌⊎◌, inl, inr, Bool-cases, if◌then◌else◌,
}
use mprpc_main.Rpc.ZkClient.Laws.{
  service_path, exists_of, ZooKeeperLaws, slash-apart, is_name, is_name-Lacks,
}
use mprpc_main.Rpc.ZkClient.{ZooKeeper, create_at, create, method_path}

-- `Own` are the names of the services that the provider offers.
module _ (zk : ZooKeeper) (laws : ZooKeeperLaws zk) (address : Bytes) (Own : Bytes → Type 0) where
  open zk use {Tree}

  -- The path of a service is not that of a method.
  paths-apart :
      (name service method : Bytes)
      → Lacks b'/' name
      → service_path name ≢ method_path zk service method
  paths-apart name service method l e = slash-apart name service method l (cc)

  -- The provider's services have nodes without data, and their methods have nodes with the address,
  -- as far as they have any. Nothing is said of other paths of the tree.
  pub record Ready (t : Tree) : Type 0 where
    pub methods :
        (service name : Bytes)
        → Own service
        → is_name service ≡ true
        → is_name name ≡ true
        → (laws.node t (method_path zk service name) ≡ none)
          ⊎ (laws.node t (method_path zk service name) ≡ some (some address))
    pub services :
        (name : Bytes)
        → Own name
        → is_name name ≡ true
        → (laws.node t (service_path name) ≡ none) ⊎ (laws.node t (service_path name) ≡ some none)

  unfoldable pub Keeps : Tree → Tree → Type 0
  Keeps t t' = (q : Bytes) (d : Option Bytes) → laws.node t q ≡ some d → laws.node t' q ≡ some d

  -- A tree came back in which `P` holds, and what had been there is kept.
  pub data Registers (t : Tree) (P : Tree → Type 0) : Option Tree → Type 0 where
    registers : {t' : Tree} → Ready t' → Keeps t t' → P t' → Registers t P (some t')

  -- One registration behind another.
  pub Registers-bind :
      (t : Tree) {P Q R : Tree → Type 0} {r : Option Tree} {f : Tree → Option Tree}
      → Registers t P r
      → ((t1 : Tree) → Ready t1 → Keeps t t1 → P t1 → Registers t1 Q (f t1))
      → ((t1 t' : Tree) → P t1 → Keeps t1 t' → Q t' → R t')
      → Registers t R (r >>= f)
  unfolding Keeps
  Registers-bind t {Q = Q} {R = R} {f = f} (registers {t' = t1} ready k h) next both =
      behind (f t1) (next t1 ready k h)
    where
      behind : (r : Option Tree) → Registers t1 Q r → Registers t R r
      behind (some t') (registers ready' k' h') =
          registers ready' (λ q d e. k' q d (k q d e)) (both t1 t' h k' h')
      behind none x = elim x [ ]

  module _ (t t' : Tree) (p : Bytes) (d : Option Bytes) (ephemeral : Bool)
      (e : zk.create t p d ephemeral ≡ some t') where
    node_at : laws.node t' p ≡ some d
    node_at =
        laws.node-create t t' p p d ephemeral e
        ∙ ap (λ b. if b then some d else laws.node t p) (bytes_eq_refl p)

    node_other : (q : Bytes) → p ≢ q → laws.node t' q ≡ laws.node t q
    node_other q ne =
        laws.node-create t t' p q d ephemeral e
        ∙ ap (λ b. if b then some d else laws.node t q) (bytes_ne p q ne)

    node_either : (q : Bytes) → (laws.node t' q ≡ some d) ⊎ (laws.node t' q ≡ laws.node t q)
    node_either q = elim (Bool-cases (bytes_eq p q)) [
      | inl same ↦ inl (ap (laws.node t') (sym ((bytes_eq_iff p q).0 same)) ∙ node_at)
      | inr apart ↦ inr (
          laws.node-create t t' p q d ephemeral e
          ∙ ap (λ b. if b then some d else laws.node t q) apart)
    ]

    create-Keeps : laws.node t p ≡ none → Keeps t t'
    unfolding Keeps
    create-Keeps absent q c h =
        node_other q (λ same. clash (sym absent ∙ ap (laws.node t) same ∙ h)) ∙ h
      where
        clash : none ≡ some c → ⊥
        clash f = cc

  create_absent :
      (t : Tree) (p : Bytes) (d : Option Bytes) (b : Bool)
      → laws.node t p ≡ none
      → create zk t p d b ≡ zk.create t p d b
  unfolding create create_at
  create_absent t p d b h = ap (λ x. create_at zk x t p d b) (laws.exists-node t p ∙ ap exists_of h)

  create_present :
      (t : Tree) (p : Bytes) (d c : Option Bytes) (b : Bool)
      → laws.node t p ≡ some c
      → create zk t p d b ≡ some t
  unfolding create create_at
  create_present t p d c b h =
      ap (λ x. create_at zk x t p d b) (laws.exists-node t p ∙ ap exists_of h)

  pub service-Registers :
      (t : Tree) (name : Bytes)
      → Own name
      → is_name name ≡ true
      → Ready t
      → Registers t
          (λ x. laws.node x (service_path name) ≡ some none)
          (create zk t (service_path name) none false)
  unfolding Keeps
  service-Registers t name own l ready = elim (ready.services name own l) [
    | inr there ↦
        subst (Registers t (λ x. laws.node x (service_path name) ≡ some none))
          (sym (create_present t (service_path name) none none false there))
          (registers ready (λ q d h. h) there)
    | inl absent ↦
        let (t', e) = laws.create-service t name l absent in
        subst (Registers t (λ x. laws.node x (service_path name) ≡ some none))
          (sym (create_absent t (service_path name) none false absent ∙ e))
          (registers
            (record {
              methods = λ s m o k k'.
                  rw
                    (node_other t t' (service_path name) none false e (method_path zk s m)
                      (paths-apart name s m (is_name-Lacks name l)))
                    (ready.methods s m o k k');
              services = λ n o k.
                  elim (node_either t t' (service_path name) none false e (service_path n)) [
                    | inl new ↦ inr new
                    | inr old ↦ rw old (ready.services n o k)
                  ];
            })
            (create-Keeps t t' (service_path name) none false e absent)
            (node_at t t' (service_path name) none false e))
  ]

  pub method-Registers :
      (t : Tree) (service name : Bytes)
      → Own service
      → is_name service ≡ true
      → is_name name ≡ true
      → laws.node t (service_path service) ≡ some none
      → Ready t
      → Registers t
          (λ x. laws.node x (method_path zk service name) ≡ some (some address))
          (create zk t (method_path zk service name) (some address) true)
  unfolding Keeps
  method-Registers t service name own l l' parent ready =
      let p = method_path zk service name in
      elim (ready.methods service name own l l') [
        | inr there ↦
            subst (Registers t (λ x. laws.node x p ≡ some (some address)))
              (sym (create_present t p (some address) (some address) true there))
              (registers ready (λ q d h. h) there)
        | inl absent ↦
            let (t', e) = laws.create-method t service name (some address) l l' parent absent in
            subst (Registers t (λ x. laws.node x p ≡ some (some address)))
              (sym (create_absent t p (some address) true absent ∙ e))
              (registers
                (record {
                  methods = λ s m o k k'.
                      elim (node_either t t' p (some address) true e (method_path zk s m)) [
                        | inl new ↦ inr new
                        | inr old ↦ rw old (ready.methods s m o k k')
                      ];
                  services = λ n o k.
                      rw
                        (node_other t t' p (some address) true e (service_path n)
                          (λ same. paths-apart n service name (is_name-Lacks n k) (sym same)))
                        (ready.services n o k);
                })
                (create-Keeps t t' p (some address) true e absent)
                (node_at t t' p (some address) true e))
      ]
