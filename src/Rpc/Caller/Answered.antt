-- ===== src/Rpc/Caller/Answered.antt =====
-- A whole remote call: `CallMethod` of mprpc-main/src/mprpcchannel.cc, and `OnMessage` of
-- mprpc-main/src/rpcprovider.cc on the other end of its socket.
use mprpc_main.Common.{
  ℕ, ◌+◌, ◌^◌, ◌<◌, ◌≡◌, ap, ◌∙◌, true, Option, none, some, [], ◌∷◌, ◌++◌, Bytes, length, find,
  bytes_key, ℤ, to_u16, stoi, Lacks,
}
use mprpc_main.Muduo.Buffer.{Buffer}
use mprpc_main.Muduo.Buffer.Invariant.{IsValid, contents}
use mprpc_main.Rpc.Controller.{Controller}
use mprpc_main.Rpc.Wire.{HeaderCodec, frame}
use mprpc_main.Rpc.ZkClient.{ZooKeeper, get_data, method_path}
use mprpc_main.Rpc.Provider.{
  ServiceMap, ServiceInfo, reply, send, Outcome, returned, send_rpc_response, on_message,
}
use mprpc_main.Rpc.Caller.{
  Kernel, Messages, opened, connected, sent, closed, finished, call_method, request_header,
}
use mprpc_main.Rpc.Caller.Outcomes.{call_method-succeeds}
use mprpc_main.Rpc.Caller.Served.{request_header-served}

-- The bytes of a run of `OnMessage` that sends once.
abbrev pub sent_by : Outcome → Option Bytes
sent_by (returned (send bytes ∷ []) left) = some bytes
sent_by _ = none

module _ (codec : HeaderCodec) (zk : ZooKeeper) (kernel : Kernel) (services : ServiceMap)
    (c : Controller) where
  -- A provider's address `ip:port` is under the method's path in ZooKeeper; the provider has the
  -- service and the method, which can parse the arguments and replies. The socket is made, connected
  -- and written to; the provider's valid buffer then holds just the frame that was sent, of less than
  -- 2 ^ 32 bytes, and the one `recv` of the caller delivers just what `OnMessage` sends for it, which
  -- the response accepts. Then `CallMethod` connected to that address, sent that one frame, closed
  -- the socket, left the controller alone, and gives the response that the method has made of the
  -- arguments.
  pub call_method-answered :
      (ms : Messages) (tree : zk.Tree) (service method args hs host_ip port_text response : Bytes)
      (h fd : ℕ) (port : ℤ) (info : ServiceInfo) (i : ℕ) (b : Buffer)
      → ms.serialized_request ≡ some args
      → codec.serialize (request_header codec zk kernel service method args) ≡ some hs
      → get_data zk tree (method_path zk service method)
        ≡ some ((h ∷ host_ip) ++ (b':' ∷ port_text))
      → Lacks b':' (h ∷ host_ip)
      → stoi port_text ≡ some port
      → kernel.socket ≡ some fd
      → kernel.connect fd (h ∷ host_ip) (to_u16 port) ≡ true
      → kernel.send fd (frame hs args) ≡ true
      → 4 + length hs + length args < 2 ^ 32
      → IsValid b
      → contents b ≡ frame hs args
      → find service services ≡ some info
      → find method info.method_map ≡ some i
      → info.service.parses i args ≡ true
      → info.service.call_method i args ≡ reply response
      → kernel.recv fd 1024 ≡ sent_by (on_message codec services b)
      → ms.accepts_response response ≡ true
      → call_method codec zk kernel ms tree service method c
        ≡ finished (record {
          controller = c;
          trace =
              opened fd
              ∷ connected fd (h ∷ host_ip) (to_u16 port)
              ∷ sent fd (frame hs args)
              ∷ closed fd
              ∷ [];
          response = some response;
        })
  unfolding send_rpc_response
  call_method-answered ms tree service method args hs ip port_text response h fd port info i b ser
        hdr at l st sock conn sends small valid arrived has_service has_method parses replies
        delivers accepts =
      let (left, runs, emptied) =
        request_header-served codec zk kernel services service method args hs info i b hdr small
          valid arrived has_service has_method parses in
      call_method-succeeds codec zk kernel c ms tree service method args hs ip port_text response h
        fd port ser hdr at l st sock conn sends
        (delivers
          ∙ ap sent_by runs
          ∙ ap (λ r. sent_by (returned (send_rpc_response r) left)) replies)
        accepts
