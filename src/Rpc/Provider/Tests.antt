-- ===== src/Rpc/Provider/Tests.antt =====
-- Runs of mprpc-main/src/rpcprovider.cc, on a header format and a service made for them.
use mprpc_main.Common.{
  ◌+◌, ◌≡◌, ◌≢◌, refl, arith, true, none, some, [], ◌∷◌, ◌++◌, Bytes, length, drop, codes,
  if◌then◌else◌, bytes_eq, bytes_key, find,
}
use mprpc_main.Muduo.Buffer.{Buffer}
use mprpc_main.Muduo.Buffer.Invariant.{IsValid}
use mprpc_main.Rpc.Wire.{RpcHeader, frame, encode_u32, decode_u32}
use mprpc_main.Rpc.Wire.Example.{example_codec, example_header_bytes}
use mprpc_main.Rpc.Provider
use mprpc_main.Rpc.Provider.{
  Service, ServiceMap, notify_service, Reply, reply, silent, ◌>>=◌, dispatch, handle_request, Flow,
  go, stop, on_message, faulted, out_of_fuel,
}
use mprpc_main.Rpc.Provider.Ownership.{serve_request, left, owed, serve_request-Owns}
use mprpc_main.Rpc.Provider.Stream.{
  Request, wire, WellFormed, half, serve, Returns, on_message-Returns,
}
use mprpc_main.Rpc.Provider.Wrap.{on_message-faulted, on_message-ends}
use mprpc_main.Rpc.Provider.Registry.{
  lookup_method, lookup_method-notify_service, is_some, with_index, first_index,
}

-- A service whose one method gives the arguments back.
abbrev echo : Service
echo = record {
  name = codes "S";
  method_names = codes "m" ∷ [];
  parses = λ i args. true;
  call_method = λ i args. reply args;
}

abbrev services : ServiceMap
services = notify_service echo []

abbrev header : RpcHeader
header = record { service_name = codes "S"; method_name = codes "m"; args_size = 2 }

abbrev ping : Request
ping = record { header = header; hs = example_header_bytes header; args = codes "hi" }

ping-WellFormed : WellFormed example_codec ping
ping-WellFormed = record { serialized = refl; sized = refl; small = omega arith }

abbrev filled : Bytes → Buffer
filled bytes = record {
  buffer = 0 ∷ 0 ∷ 0 ∷ 0 ∷ 0 ∷ 0 ∷ 0 ∷ 0 ∷ bytes;
  reader_index = 8;
  writer_index = 8 + length bytes;
}

-- Two requests, and the first three bytes of a third.
abbrev two_and_more : Bytes
two_and_more = wire (ping ∷ ping ∷ []) ++ (5 ∷ 0 ∷ 0 ∷ [])

two_and_more-IsValid : IsValid (filled two_and_more)
unfolding frame encode_u32
two_and_more-IsValid = omega arith

on_message-Returns_example :
    Returns example_codec services
      (serve example_codec services (ping ∷ ping ∷ []) (5 ∷ 0 ∷ 0 ∷ []))
      (on_message example_codec services (filled two_and_more))
unfolding frame encode_u32
on_message-Returns_example =
    on_message-Returns example_codec services (ping ∷ ping ∷ []) (5 ∷ 0 ∷ 0 ∷ [])
      (filled two_and_more) two_and_more-IsValid refl (ping-WellFormed, (ping-WellFormed, tt))
      (half ping (drop 3 (frame ping.hs ping.args)) ping-WellFormed refl (omega arith))

abbrev huge_size : Bytes
huge_size = 253 ∷ 255 ∷ 255 ∷ 255 ∷ []

on_message-faulted_example : on_message example_codec services (filled huge_size) ≡ faulted
on_message-faulted_example =
    on_message-faulted example_codec services (filled huge_size) (omega arith) (omega arith)
      (omega arith) (unfold decode_u32 in omega arith)

on_message-ends_example :
    on_message example_codec services (filled (codes "anything")) ≢ out_of_fuel
on_message-ends_example =
    on_message-ends example_codec services (filled (codes "anything")) (omega arith) (omega arith)

lookup_method-notify_service_example :
    lookup_method (notify_service echo []) (codes "S") (codes "m") ≡ (
      if is_some (find {V = Provider.ServiceInfo} (codes "S") [])
      then lookup_method [] (codes "S") (codes "m")
      else if bytes_eq (codes "S") (codes "S")
      then with_index echo (first_index 0 (codes "m") (codes "m" ∷ []))
      else none)
lookup_method-notify_service_example = lookup_method-notify_service echo [] (codes "S") (codes "m")

-- A service whose method does not run `done`.
abbrev quiet : Service
quiet = record echo { call_method = λ i args. silent }

serve_request-Owns_example :
    ((serve_request (notify_service quiet []) header ping.args).0
      ≡ dispatch example_codec (notify_service quiet []) header ping.args)
    × (left [] (serve_request (notify_service quiet []) header ping.args).1
        ≡ some (
            owed
              (lookup_method (notify_service quiet []) header.service_name header.method_name)
              ping.args))
serve_request-Owns_example =
    serve_request-Owns example_codec (notify_service quiet []) header ping.args
