-- ===== src/Muduo/Echo/Tests.antt =====
-- Runs of mymuduo-main/examples/echo_server.cpp.
use mprpc_main.Common.{
  ℕ, ◌≡◌, refl, arith, true, false, Bytes, [], ◌∷◌, codes, some, replicate, inr,
}
use mprpc_main.Muduo.Buffer
use mprpc_main.Muduo.Buffer.{ReadResult, got}
use mprpc_main.Muduo.Buffer.Invariant.{contents}
use mprpc_main.Muduo.Channel
use mprpc_main.Muduo.Channel.{added}
use mprpc_main.Muduo.Connection.{Connection, connected, WriteResult, wrote}
use mprpc_main.Muduo.Connection.Stream.{stream}
use mprpc_main.Muduo.Echo.{serve}
use mprpc_main.Muduo.Echo.Stream.{IsServed, begun, serve-echoes}

abbrev empty_buffer : Buffer.Buffer
empty_buffer = record { buffer = replicate 32 0; reader_index = 8; writer_index = 8 }

abbrev idle : Connection
idle = record {
  state = connected;
  watch = record {
    channel = record { self = 7; fd = 5; events = 3; revents = 0; index = added; tied = true };
    poller = record { channels = (5, 7) ∷ []; ctls = Channel.ctl_add 5 3 ∷ [] };
  };
  input = empty_buffer;
  output = empty_buffer;
  sent = [];
  write_shut = false;
  called = [];
  pending = [];
}

idle-IsServed : IsServed idle
idle-IsServed = record {
  open_state = refl;
  sound = record { valid = omega arith; bits = omega arith; awaited = inr refl };
  input_valid = omega arith;
  taken = refl;
}

abbrev greeting : ℕ → ReadResult
greeting room = got (codes "hello")

abbrev accept_two : Bytes → WriteResult
accept_two bytes = wrote 2

serve-echoes_example :
    (c'' : Connection) × (serve greeting accept_two idle ≡ some c'')
    × (stream c'' ≡ codes "hello")
    × (contents c''.input ≡ [])
serve-echoes_example =
    serve-echoes idle [] idle greeting accept_two b'h' (codes "ello") idle-IsServed begun refl
      (λ h. cc) (omega arith) (omega arith)
