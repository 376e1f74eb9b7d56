-- ===== src/Rpc/Wire/Example.antt =====
-- A header format for the runs: each name behind its length, and the size of the arguments.
use mprpc_main.Common.{
  ◌^◌, ◌<◌, ◌≡◌, refl, Option, none, some, [], ◌∷◌, ◌++◌, Bytes, length, take, drop, ltb,
  if◌then◌else◌, take-append, drop-append, lt→ltb, arith,
}
use mprpc_main.Rpc.Wire.{RpcHeader, HeaderCodec}

abbrev pub example_header_bytes : RpcHeader → Bytes
example_header_bytes h =
    (length h.service_name ∷ h.service_name)
    ++ ((length h.method_name ∷ h.method_name) ++ (h.args_size ∷ []))

abbrev pub parse_size : Bytes → Bytes → Bytes → Option RpcHeader
parse_size service method (n ∷ []) =
    if ltb n (2 ^ 32)
    then some (record { service_name = service; method_name = method; args_size = n })
    else none
parse_size service method _ = none

abbrev pub parse_method : Bytes → Bytes → Option RpcHeader
parse_method service [] = none
parse_method service (n ∷ s) = parse_size service (take n s) (drop n s)

abbrev pub parse_service : Bytes → Option RpcHeader
parse_service [] = none
parse_service (n ∷ s) = parse_method (take n s) (drop n s)

parse_size-lt :
    (service method s : Bytes) (h : RpcHeader)
    → parse_size service method s ≡ some h
    → h.args_size < 2 ^ 32
parse_size-lt service method [] h e = cc
parse_size-lt service method (n ∷ []) h e = ground arith
parse_size-lt service method (n ∷ m ∷ s) h e = cc

parse_method-lt :
    (service s : Bytes) (h : RpcHeader) → parse_method service s ≡ some h → h.args_size < 2 ^ 32
parse_method-lt service [] h e = cc
parse_method-lt service (n ∷ s) h e = parse_size-lt service (take n s) (drop n s) h e

pub parse_service-lt : (s : Bytes) (h : RpcHeader) → parse_service s ≡ some h → h.args_size < 2 ^ 32
parse_service-lt [] h e = cc
parse_service-lt (n ∷ s) h e = parse_method-lt (take n s) (drop n s) h e

pub parse-example_header_bytes :
    (h : RpcHeader) → h.args_size < 2 ^ 32 → parse_service (example_header_bytes h) ≡ some h
parse-example_header_bytes h small = rw (
  take-append (length h.service_name) h.service_name
      ((length h.method_name ∷ h.method_name) ++ (h.args_size ∷ [])) refl,
  drop-append (length h.service_name) h.service_name
      ((length h.method_name ∷ h.method_name) ++ (h.args_size ∷ [])) refl,
  take-append (length h.method_name) h.method_name (h.args_size ∷ []) refl,
  drop-append (length h.method_name) h.method_name (h.args_size ∷ []) refl,
  lt→ltb h.args_size (2 ^ 32) small,
)

abbrev pub example_codec : HeaderCodec
example_codec = record {
  serialize = λ h. some (example_header_bytes h);
  parse = parse_service;
  parse-serialize = λ h s small e. rw (← some-inj e) (parse-example_header_bytes h small);
  args_size-lt = parse_service-lt;
}
  where
    some-inj : {s t : Bytes} → ◌≡◌ {A = Option Bytes} (some s) (some t) → s ≡ t
    some-inj e = cc
