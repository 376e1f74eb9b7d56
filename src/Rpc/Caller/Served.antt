-- ===== src/Rpc/Caller/Served.antt =====
-- A request of mprpc-main/src/mprpcchannel.cc as mprpc-main/src/rpcprovider.cc serves it.
use mprpc_main.Common.{
  ℕ, ◌+◌, ◌^◌, ◌<◌, ◌≡◌, refl, sym, ap, ◌∙◌, true, some, [], ◌∷◌, ◌++◌, Bytes, length, arith, find,
  bytes_key, append-nil,
}
use mprpc_main.Muduo.Buffer.{Buffer}
use mprpc_main.Muduo.Buffer.Invariant.{IsValid, contents}
use mprpc_main.Rpc.Wire.{HeaderCodec, frame}
use mprpc_main.Rpc.ZkClient.{ZooKeeper}
use mprpc_main.Rpc.Provider.{
  ServiceMap, ServiceInfo, returned, go, send_rpc_response, on_message, dispatch,
}
use mprpc_main.Rpc.Provider.Stream.{Request, nothing, serve, on_message-Returns}
use mprpc_main.Rpc.Caller.{Kernel, request_header}

module _ (codec : HeaderCodec) (zk : ZooKeeper) (kernel : Kernel) (services : ServiceMap) where
  -- The header that `CallMethod` makes and the frame that it sends, of less than 2 ^ 32 bytes: a
  -- provider whose valid buffer holds just that frame, and that has the service and the method and
  -- can parse the arguments, calls just that method with just these arguments, responds with what
  -- the method's reply asks for, and leaves its buffer empty.
  pub request_header-served :
      (service method args hs : Bytes) (info : ServiceInfo) (i : ℕ) (b : Buffer)
      → codec.serialize (request_header codec zk kernel service method args) ≡ some hs
      → 4 + length hs + length args < 2 ^ 32
      → IsValid b
      → contents b ≡ frame hs args
      → find service services ≡ some info
      → find method info.method_map ≡ some i
      → info.service.parses i args ≡ true
      → (left : Buffer) × (on_message codec services b
          ≡ returned (send_rpc_response (info.service.call_method i args)) left)
        × (contents left ≡ [])
  unfolding request_header
  request_header-served service method args hs info i b s small v e f g p =
      let request : Request = record {
        header = request_header codec zk kernel service method args;
        hs = hs;
        args = args;
      } in
      let r =
        on_message-Returns codec services (request ∷ []) [] b v
          (e ∙ sym (append-nil (frame hs args)) ∙ sym (append-nil (frame hs args ++ [])))
          (record { serialized = s; sized = omega arith; small = small }, tt) (nothing refl) in
      (
        r.left,
        r.returns ∙ ap (λ spec. returned spec.0 r.left) served,
        r.remaining ∙ ap (λ spec. spec.1) served,
      )
    where
      dispatched :
          dispatch codec services (request_header codec zk kernel service method args) args
          ≡ go (send_rpc_response (info.service.call_method i args))
      dispatched = unfold dispatch in rw (f, g, p)

      served :
          serve codec services
            (record {
              header = request_header codec zk kernel service method args;
              hs = hs;
              args = args;
            }
              ∷ [])
            []
          ≡ (send_rpc_response (info.service.call_method i args), [])
      served = unfold serve in rw (dispatched, serve) (ap (λ es. (es, [])) (append-nil _))
