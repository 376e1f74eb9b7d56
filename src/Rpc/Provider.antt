-- ===== src/Rpc/Provider.antt =====
-- mprpc-main/src/rpcprovider.cc: the registry of services, and `OnMessage`, which cuts requests
-- from the buffer of a connection and dispatches them. A request's effects on the connection are
-- a list, in the order of the calls. A `Flow` says how a round of the loop goes on.
pub mod Framing
pub mod Stream
pub mod Wrap
pub mod Registry
pub mod Ownership
mod Tests
use mprpc_main.Common.{
  ℕ, zero, suc, ◌+◌, ◌^◌, Bool, true, false, not, Option, none, some, List, [], ◌∷◌, ◌++◌, Bytes,
  ltb, if◌then◌else◌, add_u32, find, insert, bytes_key,
}
use mprpc_main.Muduo.Buffer
use mprpc_main.Muduo.Buffer.{Buffer}
use mprpc_main.Rpc.Wire.{RpcHeader, HeaderCodec, decode_u32}

-- How a call of a method ends: `done` is not run, or it is run on a response that protobuf
-- refuses or manages to serialize.
pub data Reply : Type 0 where
  silent : Reply
  unserializable : Reply
  reply : Bytes → Reply

-- A `google::protobuf::Service` of the application. A method descriptor is its index.
pub record Service : Type 0 where
  pub name : Bytes
  pub method_names : List Bytes
  pub parses : ℕ → Bytes → Bool
  pub call_method : ℕ → Bytes → Reply

pub record ServiceInfo : Type 0 where
  pub service : Service
  pub method_map : List (Bytes × ℕ)

abbrev pub ServiceMap : Type 0
ServiceMap = List (Bytes × ServiceInfo)

-- The loop of `NotifyService` over the methods from index `i` on.
unfoldable pub insert_methods : ℕ → List Bytes → List (Bytes × ℕ) → List (Bytes × ℕ)
insert_methods i [] m = m
insert_methods i (name ∷ names) m = insert_methods (i + 1) names (insert name i m)

unfoldable pub notify_service : Service → ServiceMap → ServiceMap
notify_service service services =
    insert service.name
      (record { service = service; method_map = insert_methods 0 service.method_names [] }) services

-- What is done to the connection.
pub data Effect : Type 0 where
  send : Bytes → Effect
  shutdown : Effect

-- `RpcProviderClosure::Run`, which calls `SendRpcResponse`.
unfoldable pub send_rpc_response : Reply → List Effect
send_rpc_response silent = []
send_rpc_response unserializable = shutdown ∷ []
send_rpc_response (reply response) = send response ∷ []

pub data Flow {ℓ} (A : Type ℓ) : Type ℓ where
  -- `break`, after these effects.
  stop : List Effect → Flow A
  -- A read outside of the buffer's memory.
  fault : Flow A
  go : A → Flow A

infixl 5 ◌>>=◌ ◌>>◌
abbrev pub ◌>>=◌ {ℓ κ} : {A : Type ℓ} {B : Type κ} → Flow A → (A → Flow B) → Flow B
stop es >>= f = stop es
fault >>= f = fault
go a >>= f = f a

abbrev pub ◌>>◌ {ℓ} : {B : Type ℓ} → Flow (Unit {0}) → Flow B → Flow B
m >> k = m >>= λ _. k

abbrev pub stop_if : Bool → List Effect → Flow (Unit {0})
stop_if true es = stop es
stop_if false es = go tt

abbrev pub or_fault {ℓ} : {A : Type ℓ} → Option A → Flow A
or_fault none = fault
or_fault (some a) = go a

abbrev pub or_shutdown {ℓ} : {A : Type ℓ} → Option A → Flow A
or_shutdown none = stop (shutdown ∷ [])
or_shutdown (some a) = go a

-- How `OnMessage` ends: it returns, it faults, or the rounds were too few.
pub data Outcome : Type 0 where
  returned : List Effect → Buffer → Outcome
  faulted : Outcome
  out_of_fuel : Outcome

abbrev pub after : List Effect → Outcome → Outcome
after es (returned fs b) = returned (es ++ fs) b
after es faulted = faulted
after es out_of_fuel = out_of_fuel

module _ (codec : HeaderCodec) (services : ServiceMap) where
  -- From the lookup of the service to the call of its method.
  unfoldable pub dispatch : RpcHeader → Bytes → Flow (List Effect)
  dispatch header args = do
    info ← or_shutdown (find header.service_name services)
    method ← or_shutdown (find header.method_name info.method_map)
    stop_if (not (info.service.parses method args)) (shutdown ∷ [])
    go (send_rpc_response (info.service.call_method method args))

  -- One round of `while (true)`.
  pub handle_request : Buffer → Flow (List Effect × Buffer)
  handle_request b = do
    stop_if (ltb (Buffer.readable_bytes b) 4) []
    size ← or_fault (Buffer.peek_at b 0 4)
    let header_size = decode_u32 size
    stop_if (ltb (Buffer.readable_bytes b) (add_u32 4 header_size)) []
    header_str ← or_fault (Buffer.peek_at b 4 header_size)
    header ← or_shutdown (codec.parse header_str)
    let total_size = add_u32 (add_u32 4 header_size) header.args_size
    stop_if (ltb (Buffer.readable_bytes b) total_size) []
    args ← or_fault (Buffer.peek_at b (4 + header_size) header.args_size)
    effects ← dispatch header args
    go (effects, Buffer.retrieve total_size b)

  -- The loop: what a round sends comes before what the later rounds send.
  pub message_loop : ℕ → Buffer → Outcome
  message_loop zero b = out_of_fuel
  message_loop (suc fuel) b = elim (handle_request b) [
    | stop es ↦ returned es b
    | fault ↦ faulted
    | go (es, b') ↦ after es (message_loop fuel b')
  ]

  -- A round retrieves four bytes at least, so there are fewer rounds than readable bytes, but one.
  pub on_message : Buffer → Outcome
  on_message b = message_loop (suc (Buffer.readable_bytes b)) b

-- `OnConnection`: a connection that is not connected any more is shut down.
pub on_connection : Bool → List Effect
on_connection connected = if connected then [] else shutdown ∷ []
