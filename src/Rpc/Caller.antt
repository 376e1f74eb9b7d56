-- ===== src/Rpc/Caller.antt =====
-- mprpc-main/src/mprpcchannel.cc: `MprpcChannel::CallMethod`, the caller's side of a remote call.
-- The kernel, ZooKeeper and the message classes are parameters. What the call does to sockets is a
-- trace, in order.
use mprpc_main.Common.{
  ℕ, ◌+◌, ◌%◌, ◌^◌, ℤ, Bool, true, false, not, Option, none, some, List, [], ◌∷◌, ◌++◌, Bytes,
  length, take, drop, codes, find_char, substr, stoi, to_u16, if◌then◌else◌,
}
pub mod Outcomes
pub mod Served
pub mod Answered
mod Tests
use mprpc_main.Rpc.Controller.{Controller, set_failed}
use mprpc_main.Rpc.Wire.{RpcHeader, HeaderCodec, frame}
use mprpc_main.Rpc.ZkClient.{ZooKeeper, get_data, method_path}

-- The kernel's answers to the calls on sockets; `none` and `false` stand for -1. `recv` is told
-- the descriptor and the room.
pub record Kernel : Type 0 where
  pub socket : Option ℕ
  pub connect : ℕ → Bytes → ℕ → Bool
  pub send : ℕ → Bytes → Bool
  pub recv : ℕ → ℕ → Option Bytes

pub data Action : Type 0 where
  opened : ℕ → Action
  connected : ℕ → Bytes → ℕ → Action
  sent : ℕ → Bytes → Action
  closed : ℕ → Action

-- What `CallMethod` leaves: the controller, the trace, and the bytes given to `response`.
pub record Call : Type 0 where
  pub controller : Controller
  pub trace : List Action
  pub response : Option Bytes

pub data Ending : Type 0 where
  finished : Call → Ending
  -- An exception leaves `CallMethod`.
  threw : Ending

-- The request and the response message: what `SerializeToString` gives, and whether
-- `ParseFromArray` accepts.
pub record Messages : Type 0 where
  pub serialized_request : Option Bytes
  pub accepts_response : Bytes → Bool

abbrev fail : Bytes → List Action → Controller → Ending
fail reason trace c =
    finished (record { controller = set_failed reason c; trace = trace; response = none })

module _ (codec : HeaderCodec) (zk : ZooKeeper) (kernel : Kernel) where
  parse_response : Messages → ℕ → List Action → Controller → Option Bytes → Ending
  parse_response ms fd trace c none =
      fail (codes "recv rpc response error") (trace ++ (closed fd ∷ [])) c
  parse_response ms fd trace c (some bytes) =
      if ms.accepts_response bytes
      then finished
          (record { controller = c; trace = trace ++ (closed fd ∷ []); response = some bytes })
      else fail (codes "parse rpc response error") (trace ++ (closed fd ∷ [])) c

  -- After `send`: one `recv` into a buffer of 1024 bytes, and the parse.
  receive : Messages → ℕ → List Action → Controller → Ending
  unfolding parse_response
  receive ms fd trace c = parse_response ms fd trace c (kernel.recv fd 1024)

  exchange_on : Messages → Bytes → Bytes → ℕ → Controller → Option ℕ → Ending
  unfolding receive
  exchange_on ms request ip port c none = fail (codes "create socket error") [] c
  exchange_on ms request ip port c (some fd) =
      if kernel.connect fd ip port
      then if kernel.send fd request
        then receive ms fd (opened fd ∷ connected fd ip port ∷ sent fd request ∷ []) c
        else fail (codes "send rpc request error")
            (opened fd ∷ connected fd ip port ∷ closed fd ∷ []) c
      else fail (codes "connect server error") (opened fd ∷ closed fd ∷ []) c

  -- From `socket` on.
  pub exchange : Messages → Bytes → Bytes → ℕ → Controller → Ending
  unfolding exchange_on
  exchange ms request ip port c = exchange_on ms request ip port c kernel.socket

  call_address : Messages → Bytes → Bytes → Option ℤ → Controller → Ending
  unfolding exchange
  call_address ms request ip none c = threw
  call_address ms request ip (some port) c = exchange ms request ip (to_u16 port) c

  call_colon : Messages → Bytes → Bytes → Option ℕ → Controller → Ending
  unfolding call_address
  call_colon ms request host none c = fail (codes "rpc service address is invalid!") [] c
  call_colon ms request host (some idx) c =
      call_address ms request (substr 0 idx host) (stoi (drop (idx + 1) host)) c

  -- What follows the look-up of the provider's address.
  pub call_host : Messages → Bytes → Option Bytes → Controller → Ending
  unfolding call_colon
  call_host ms request none c = threw
  call_host ms request (some []) c = fail (codes "rpc service is not exist!") [] c
  call_host ms request (some (h ∷ host)) c =
      call_colon ms request (h ∷ host) (find_char b':' (h ∷ host)) c

  call_header : Messages → zk.Tree → RpcHeader → Bytes → Option Bytes → Controller → Ending
  unfolding call_host
  call_header ms tree header args none c = fail (codes "serialize rpc header error") [] c
  call_header ms tree header args (some header_str) c =
      call_host ms (frame header_str args)
        (get_data zk tree (method_path zk header.service_name header.method_name)) c

  -- `rpcHeader`: the size of the arguments is stored in a `uint32`.
  pub request_header : Bytes → Bytes → Bytes → RpcHeader
  request_header service method args = record {
    service_name = service;
    method_name = method;
    args_size = length args % 2 ^ 32;
  }

  call_args : Messages → zk.Tree → Bytes → Bytes → Option Bytes → Controller → Ending
  unfolding call_header request_header
  call_args ms tree service method none c = fail (codes "serialize request error") [] c
  call_args ms tree service method (some args) c =
      call_header ms tree (request_header service method args) args
        (codec.serialize (request_header service method args)) c

  pub call_method : Messages → zk.Tree → Bytes → Bytes → Controller → Ending
  unfolding call_args
  call_method ms tree service method c = call_args ms tree service method ms.serialized_request c
