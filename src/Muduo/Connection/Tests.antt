-- ===== src/Muduo/Connection/Tests.antt =====
-- Runs of mymuduo-main/src/TcpConnection.cpp.
use mprpc_main.Common.{
  true, false, ◌≡◌, refl, arith, Bytes, [], ◌∷◌, codes, inl, inr, some, ◌⊎◌, replicate,
}
use mprpc_main.Muduo.Buffer
use mprpc_main.Muduo.Buffer.{Buffer}
use mprpc_main.Muduo.Buffer.Invariant.{contents}
use mprpc_main.Muduo.Channel
use mprpc_main.Muduo.Channel.{added}
use mprpc_main.Muduo.Connection.{
  Connection, connected, disconnecting, is_state, send_in_loop, handle_write, WriteResult, wrote,
}
use mprpc_main.Muduo.Connection.Stream.{IsSound, Delivered, send_in_loop-Delivered}
use mprpc_main.Muduo.Connection.Writing.{handle_write-Delivered, handle_write-drains}

-- An established connection of descriptor 5, with nothing to write.
abbrev idle : Connection
idle = record {
  state = connected;
  watch = record {
    channel = record { self = 7; fd = 5; events = 3; revents = 0; index = added; tied = true };
    poller = record { channels = (5, 7) ∷ []; ctls = Channel.ctl_add 5 3 ∷ [] };
  };
  input = Buffer.new Buffer.initial_size;
  output = record { buffer = replicate 32 0; reader_index = 8; writer_index = 8 };
  sent = [];
  write_shut = false;
  called = [];
  pending = [];
}

idle-IsSound : IsSound idle
idle-IsSound = record { valid = omega arith; bits = omega arith; awaited = inr refl }

abbrev accept_two : Bytes → WriteResult
accept_two bytes = wrote 2

-- Three of the five bytes are buffered.
send_in_loop-Delivered_example :
    Delivered idle (codes "hello") (send_in_loop accept_two (codes "hello") idle)
send_in_loop-Delivered_example =
    send_in_loop-Delivered accept_two (codes "hello") idle (unfold is_state in refl) (λ h. cc)
      idle-IsSound (omega arith)

-- A connection that is being shut down, with three bytes to write.
abbrev busy : Connection
busy = record idle {
  state = disconnecting;
  watch = record {
    channel = record { self = 7; fd = 5; events = 7; revents = 0; index = added; tied = true };
    poller = record {
      channels = (5, 7) ∷ [];
      ctls = Channel.ctl_add 5 3 ∷ Channel.ctl_mod 5 7 ∷ [];
    };
  };
  output = record {
    buffer = 0 ∷ 0 ∷ 0 ∷ 0 ∷ 0 ∷ 0 ∷ 0 ∷ 0 ∷ 108 ∷ 108 ∷ 111 ∷ 0 ∷ [];
    reader_index = 8;
    writer_index = 11;
  };
}

busy-IsSound : IsSound busy
busy-IsSound = record {
  valid = omega arith;
  bits = omega arith;
  awaited = inl (unfold Channel.is_write in refl);
}

handle_write-Delivered_example : Delivered busy [] (handle_write accept_two busy)
handle_write-Delivered_example = handle_write-Delivered accept_two busy busy-IsSound

abbrev accept_three : Bytes → WriteResult
accept_three bytes = wrote 3

handle_write-drains_example :
    (c' : Connection) × (handle_write accept_three busy ≡ some c')
    × (contents c'.output ≡ [])
    × (Channel.is_write c'.watch ≡ false)
    × ((is_state disconnecting disconnecting ≡ false) ⊎ (c'.write_shut ≡ true))
handle_write-drains_example =
    handle_write-drains accept_three busy 2 busy-IsSound (unfold Channel.is_write in refl) refl
      (omega arith)
