-- ===== src/Rpc/Caller/Tests.antt =====
-- Runs of mprpc-main/src/mprpcchannel.cc, on a kernel and a ZooKeeper made for them.
use mprpc_main.Common.{
  ℕ, Lacks, ◌≡◌, refl, arith, Bool, true, false, Option, none, some, List, [], ◌∷◌, ◌++◌, Bytes,
  codes, find, insert, bytes_key, ℤ, pos, to_u16,
}
use mprpc_main.Common.Strings.Decimal.{to_string, decimal, decimal_from, stoi-to_string}
use mprpc_main.Rpc.Controller.{new}
use mprpc_main.Rpc.Wire.{frame}
use mprpc_main.Rpc.Wire.Example.{example_codec, example_header_bytes}
use mprpc_main.Rpc.ZkClient
use mprpc_main.Rpc.ZkClient.{ZooKeeper, GetResult, missing, got, zok, znonode, Exists}
use mprpc_main.Rpc.Caller.{
  Kernel, Messages, finished, opened, connected, sent, closed, call_method, request_header,
}
use mprpc_main.Muduo.Buffer.{Buffer}
use mprpc_main.Rpc.Wire.{encode_u32}
use mprpc_main.Rpc.Provider.{ServiceInfo, reply, on_message}
use mprpc_main.Rpc.Caller.Answered.{sent_by, call_method-answered}
use mprpc_main.Rpc.Caller.Outcomes.{Settled, call_method-Settled}

abbrev got_of : Option Bytes → GetResult
got_of none = missing
got_of (some v) = got v

abbrev exists_of : Option Bytes → Exists
exists_of none = znonode
exists_of (some v) = zok

abbrev data_of : Option Bytes → Bytes
data_of none = []
data_of (some v) = v

abbrev nodes : ZooKeeper
nodes = record {
  Tree = List (Bytes × Bytes);
  exists = λ t path. exists_of (find path t);
  create = λ t path bytes ephemeral. some (insert path (data_of bytes) t);
  get = λ t path. got_of (find path t);
}

abbrev server_up : Kernel
server_up = record {
  socket = some 3;
  connect = λ fd ip port. true;
  send = λ fd bytes. true;
  recv = λ fd room. some (codes "ok");
}

-- No server listens.
abbrev server_down : Kernel
server_down = record server_up { connect = λ fd ip port. false }

abbrev messages : Messages
messages = record { serialized_request = some (codes "hi"); accepts_response = λ bytes. true }

abbrev port_text : Bytes
port_text = to_string (pos 8000)

abbrev tree : List (Bytes × Bytes)
tree = (codes "/S/m", codes "127.0.0.1" ++ (b':' ∷ port_text)) ∷ []

call_method-Settled_example :
    Settled new
      (call_method example_codec nodes server_down messages tree (codes "S") (codes "m") new)
call_method-Settled_example =
    call_method-Settled example_codec nodes server_down new messages tree (codes "S") (codes "m")

abbrev header_bytes : Bytes
header_bytes =
    example_header_bytes
      (request_header example_codec nodes server_up (codes "S") (codes "m") (codes "hi"))

abbrev echo_info : ServiceInfo
echo_info = record {
  service = record {
    name = codes "S";
    method_names = codes "m" ∷ [];
    parses = λ i args. true;
    call_method = λ i args. reply args;
  };
  method_map = (codes "m", 0) ∷ [];
}

abbrev arrived : Buffer
arrived = record {
  buffer = 0 ∷ 0 ∷ 0 ∷ 0 ∷ 0 ∷ 0 ∷ 0 ∷ 0 ∷ 5 ∷ 0 ∷ 0 ∷ 0 ∷ 1 ∷ 83 ∷ 1 ∷ 109 ∷ 2 ∷ 104 ∷ 105 ∷ [];
  reader_index = 8;
  writer_index = 19;
}

-- The network: what the provider sends for the frame that has arrived.
abbrev network : Kernel
network = record server_up {
  recv = λ fd room. sent_by (on_message example_codec ((codes "S", echo_info) ∷ []) arrived);
}

no_colon : Lacks b':' (codes "127.0.0.1")
no_colon = omega arith

call_method-answered_example :
    call_method example_codec nodes network messages tree (codes "S") (codes "m") new
    ≡ finished (record {
      controller = new;
      trace =
          opened 3
          ∷ connected 3 (codes "127.0.0.1") (to_u16 (pos 8000))
          ∷ sent 3 (frame header_bytes (codes "hi"))
          ∷ closed 3
          ∷ [];
      response = some (codes "hi");
    })
unfolding ZkClient.get_data ZkClient.read find mprpc_main.Common.bytes_eq to_string decimal
    decimal_from request_header frame encode_u32
call_method-answered_example =
    call_method-answered example_codec nodes network ((codes "S", echo_info) ∷ []) new messages tree
      (codes "S") (codes "m") (codes "hi") header_bytes (codes "27.0.0.1") port_text (codes "hi")
      b'1' 3 (pos 8000) echo_info 0 arrived refl refl refl no_colon
      (stoi-to_string (pos 8000) (omega arith)) refl refl refl (omega arith) (omega arith) refl refl
      refl refl refl refl refl
