-- ===== src/Rpc/Start/Tests.antt =====
-- A provider of mprpc-main/src/rpcprovider.cc comes up, and is called.
use mprpc_main.Common.{
  true, Option, none, some, List, [], ◌∷◌, ◌++◌, Bytes, codes, bytes_key, ℤ, pos, Lacks,
}
use mprpc_main.Common.Strings.Decimal.{to_string}
use mprpc_main.Rpc.Config.File.{Entry, print}
use mprpc_main.Rpc.Wire.Example.{example_codec, example_header_bytes}
use mprpc_main.Rpc.Provider.{Service, reply}
use mprpc_main.Rpc.ZkClient.Listed.{Nodes, listed}
use mprpc_main.Rpc.Caller.{Kernel, Messages, call_method, request_header}

abbrev port_text : Bytes
port_text = to_string (pos 8000)

abbrev entry : Bytes → Bytes → Entry
entry key value = record {
  key = key;
  value = value;
  before_key = 0;
  behind_key = 0;
  before_value = 1;
  behind_value = 0;
}

abbrev ip_line : Entry
ip_line = entry (codes "rpcserverip") (codes "10.0.0.1")

abbrev port_line : Entry
port_line = entry (codes "rpcserverport") port_text

-- Every file has these lines.
abbrev files : Bytes → Option Bytes
files path = some (print (ip_line ∷ port_line ∷ []))

abbrev echo : Service
echo = record {
  name = codes "S";
  method_names = codes "m" ∷ [];
  parses = λ i args. true;
  call_method = λ i args. reply args;
}

abbrev kernel : Kernel
kernel = record {
  socket = some 3;
  connect = λ fd ip port. true;
  send = λ fd bytes. true;
  recv = λ fd room. some (codes "ok");
}

abbrev messages : Messages
messages = record { serialized_request = some (codes "hi"); accepts_response = λ bytes. true }

abbrev header_bytes : Bytes
header_bytes =
    example_header_bytes
      (request_header example_codec listed kernel (codes "S") (codes "m") (codes "hi"))

-- The nodes of a ZooKeeper that has just been set up.
abbrev fresh : Nodes
fresh =
    (codes "/", some []) ∷ (codes "/zookeeper", some []) ∷ (codes "/zookeeper/quota", some []) ∷ []
