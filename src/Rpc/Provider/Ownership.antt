-- ===== src/Rpc/Provider/Ownership.antt =====
-- The objects that `OnMessage` of mprpc-main/src/rpcprovider.cc makes for a request, and
-- `RpcProviderClosure`, which deletes them.
use mprpc_main.Common.{
  ℕ, ◌≡◌, refl, Bool, true, false, not, Option, none, some, List, [], ◌∷◌, Bytes, find, bytes_key,
  if◌then◌else◌,
}
use mprpc_main.Rpc.Wire.{RpcHeader, HeaderCodec}
use mprpc_main.Rpc.Provider.{
  Reply, silent, unserializable, reply, Service, ServiceInfo, ServiceMap, Effect, shutdown,
  send_rpc_response, Flow, stop, go, dispatch, ◌>>=◌, stop_if, or_shutdown,
}
use mprpc_main.Rpc.Provider.Registry.{lookup_method, with_index, found_method}

-- The objects of one request.
pub data Object : Type 0 where
  request response closure : Object

pub data Use : Type 0 where
  made deleted : Object → Use

-- `RpcProviderClosure::Run`: the response is sent, and then all is deleted, itself last.
pub run_closure : Reply → List Effect × List Use
run_closure r = (send_rpc_response r, deleted request ∷ deleted response ∷ deleted closure ∷ [])

-- The call of the method; one that runs `done` runs it once.
call_method : Reply → Flow (List Effect) × List Use
unfolding run_closure
call_method silent = (go [], [])
call_method unserializable = (go (run_closure unserializable).0, (run_closure unserializable).1)
call_method (reply bytes) = (go (run_closure (reply bytes)).0, (run_closure (reply bytes)).1)

serve_parsed : Bool → Reply → Flow (List Effect) × List Use
unfolding call_method
serve_parsed false r = (stop (shutdown ∷ []), made request ∷ deleted request ∷ [])
serve_parsed true r =
    ((call_method r).0, made request ∷ made response ∷ made closure ∷ (call_method r).1)

serve_method : ServiceInfo → Bytes → Option ℕ → Flow (List Effect) × List Use
unfolding serve_parsed
serve_method info args none = (stop (shutdown ∷ []), [])
serve_method info args (some i) =
    serve_parsed (info.service.parses i args) (info.service.call_method i args)

serve_service : RpcHeader → Bytes → Option ServiceInfo → Flow (List Effect) × List Use
unfolding serve_method
serve_service header args none = (stop (shutdown ∷ []), [])
serve_service header args (some info) =
    serve_method info args (find header.method_name info.method_map)

-- From the lookup of the service to the call of its method, with its objects.
pub serve_request : ServiceMap → RpcHeader → Bytes → Flow (List Effect) × List Use
unfolding serve_service
serve_request services header args = serve_service header args (find header.service_name services)

same_object : Object → Object → Bool
same_object request request = true
same_object response response = true
same_object closure closure = true
same_object _ _ = false

take_out : Object → List Object → Option (List Object)
unfolding same_object
take_out o [] = none
take_out o (p ∷ ps) = elim (same_object p o) [
  | true ↦ some ps
  | false ↦ elim (take_out o ps) [ none ↦ none | some rest ↦ some (p ∷ rest) ]
]

-- The objects that are left, if only what is there is deleted.
pub left : List Object → List Use → Option (List Object)
unfolding take_out
left os [] = some os
left os (made o ∷ us) = left (o ∷ os) us
left os (deleted o ∷ us) = elim (take_out o os) [ none ↦ none | some rest ↦ left rest us ]

-- What still belongs to a method that has not run `done`.
pub awaited : Reply → List Object
awaited silent = closure ∷ response ∷ request ∷ []
awaited unserializable = []
awaited (reply bytes) = []

-- By the method that the provider finds.
pub owed : Option (Service × ℕ) → Bytes → List Object
unfolding awaited
owed none args = []
owed (some (s, i)) args = if s.parses i args then awaited (s.call_method i args) else []

-- The detailed run does to the connection what was said, and leaves these objects.
abbrev Owns : Flow (List Effect) × List Use → Flow (List Effect) → List Object → Type 0
Owns run flow os = (run.0 ≡ flow) × (left [] run.1 ≡ some os)

parsed-Owns :
    (b : Bool) (r : Reply)
    → Owns
        (serve_parsed b r)
        (stop_if (not b) (shutdown ∷ []) >>= λ u. go (send_rpc_response r))
        (if b then awaited r else [])
unfolding serve_parsed call_method run_closure left take_out same_object awaited
parsed-Owns false r = (refl, refl)
parsed-Owns true silent = (unfold send_rpc_response in refl, refl)
parsed-Owns true unserializable = (refl, refl)
parsed-Owns true (reply bytes) = (refl, refl)

method-Owns :
    (info : ServiceInfo) (args : Bytes) (o : Option ℕ)
    → Owns
        (serve_method info args o)
        (or_shutdown o >>= λ i. stop_if (not (info.service.parses i args)) (shutdown ∷ []) >>= λ u.
          go (send_rpc_response (info.service.call_method i args)))
        (owed (with_index info.service o) args)
unfolding serve_method owed left
method-Owns info args none = (refl, refl)
method-Owns info args (some i) =
    parsed-Owns (info.service.parses i args) (info.service.call_method i args)

module _ (codec : HeaderCodec) (services : ServiceMap) where
  -- What `OnMessage` does from the lookup of the service on, whatever the header and the arguments
  -- are: with its objects it has the same effects on the connection as without; nothing is deleted
  -- that is not there or was deleted before; and nothing is left, unless the method that was found
  -- has parsed the arguments and did not run `done`: then the request, the response and the closure
  -- are left to that method.
  pub serve_request-Owns :
      (header : RpcHeader) (args : Bytes)
      → ((serve_request services header args).0 ≡ dispatch codec services header args)
        × (left [] (serve_request services header args).1
            ≡ some (owed (lookup_method services header.service_name header.method_name) args))
  unfolding serve_request serve_service dispatch lookup_method left owed
  serve_request-Owns header args = service-Owns (find header.service_name services)
    where
      service-Owns :
          (o : Option ServiceInfo)
          → ((serve_service header args o).0 ≡ (
              or_shutdown o >>= λ info.
              or_shutdown (find header.method_name info.method_map) >>= λ i.
              stop_if (not (info.service.parses i args)) (shutdown ∷ []) >>= λ u.
              go (send_rpc_response (info.service.call_method i args))))
            × (left [] (serve_service header args o).1
                ≡ some (owed (found_method header.method_name o) args))
      service-Owns none = (refl, refl)
      service-Owns (some info) = method-Owns info args (find header.method_name info.method_map)
