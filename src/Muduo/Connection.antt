-- ===== src/Muduo/Connection.antt =====
-- mymuduo-main/src/TcpConnection.cpp: one connection, with its channel and its two buffers. The
-- kernel's answer to a call is an argument. The user's callbacks are recorded in `called`; they are
-- taken to be set, and do not run inside of a handler here. `sent` is what the kernel has accepted,
-- and `pending` what the loop has queued for this connection. `none` is a fault of a buffer.
pub mod Faults
pub mod Stream
pub mod Writing
pub mod Lifecycle
pub mod Input
mod Tests
use mprpc_main.Common.{
  ℕ, zero, suc, ◌-◌, Bool, true, false, not, ◌&&◌, Option, none, some, List, [], ◌∷◌, ◌++◌, Bytes,
  length, take, drop, ◌==◌, if◌then◌else◌, ltb, ◌>>=◌, ◌>>◌,
}
use mprpc_main.Muduo.Buffer
use mprpc_main.Muduo.Buffer.{Buffer, ReadResult, got, failed}
use mprpc_main.Muduo.Channel
use mprpc_main.Muduo.Channel.{Watch, Poller}

pub data State : Type 0 where
  disconnected connecting connected disconnecting : State

pub data Callback : Type 0 where
  connection_callback message_callback write_complete_callback close_callback : Callback

-- What waits in the loop's queue for this connection.
pub data Task : Type 0 where
  send_task : Bytes → Task
  shutdown_task : Task

pub record Connection : Type 0 where
  pub state : State
  pub watch : Watch
  pub input : Buffer
  pub output : Buffer
  pub sent : Bytes
  pub write_shut : Bool
  pub called : List Callback
  pub pending : List Task

-- The result of `write`: the number of bytes accepted, or -1 with `EWOULDBLOCK`, with `EPIPE` or
-- `ECONNRESET`, or with another error.
pub data WriteResult : Type 0 where
  wrote : ℕ → WriteResult
  would_block broken_pipe other_error : WriteResult

pub is_state : State → State → Bool
is_state disconnected disconnected = true
is_state connecting connecting = true
is_state connected connected = true
is_state disconnecting disconnecting = true
is_state _ _ = false

-- The constructor.
pub create : ℕ → ℕ → Connection
create self fd = record {
  state = connecting;
  watch = record { channel = Channel.create self fd; poller = record { channels = []; ctls = [] } };
  input = Buffer.new Buffer.initial_size;
  output = Buffer.new Buffer.initial_size;
  sent = [];
  write_shut = false;
  called = [];
  pending = [];
}

call : Callback → Connection → Connection
call cb c = record c { called = c.called ++ (cb ∷ []) }

-- `shutdownInLoop`: the write half is shut once nothing waits to be written.
pub shutdown_in_loop : Connection → Connection
shutdown_in_loop c = if Channel.is_write c.watch then c else record c { write_shut = true }

-- The second half of `sendInLoop`: what `write` did not accept goes to the buffer.
buffer_rest : Bytes → Connection → Option Connection
buffer_rest [] c = some c
buffer_rest (x ∷ xs) c = do
  output ← Buffer.append (x ∷ xs) c.output
  some (record c {
    output = output;
    watch = if Channel.is_write c.watch then c.watch else Channel.able_write c.watch;
  })

-- The branch of `sendInLoop` that writes directly.
direct_write : WriteResult → Bytes → Connection → Option Connection
unfolding buffer_rest call
direct_write (wrote n) bytes c =
    let written = record c { sent = c.sent ++ take n bytes } in
    if length bytes - n == 0
    then some (call write_complete_callback written)
    else buffer_rest (drop n bytes) written
direct_write would_block bytes c = buffer_rest bytes c
direct_write other_error bytes c = buffer_rest bytes c
direct_write broken_pipe bytes c = some c

-- `sendInLoop`: `write` is tried only if nothing is buffered and no write is awaited.
pub send_in_loop : (Bytes → WriteResult) → Bytes → Connection → Option Connection
unfolding direct_write buffer_rest is_state
send_in_loop write bytes c =
    if is_state c.state disconnected
    then some c
    else if not (Channel.is_write c.watch) && (Buffer.readable_bytes c.output == 0)
    then direct_write (write bytes) bytes c
    else buffer_rest bytes c

-- `send`: from another thread the bytes are copied into the loop's queue.
pub send : Bool → (Bytes → WriteResult) → Bytes → Connection → Option Connection
unfolding is_state
send in_loop_thread write bytes c =
    if is_state c.state connected
    then if in_loop_thread
      then send_in_loop write bytes c
      else some (record c { pending = c.pending ++ (send_task bytes ∷ []) })
    else some c

-- `shutdown`. In the loop's thread it is one step; from another thread the test and the store are
-- two, and this is the case in which nothing comes between them.
pub shutdown : Bool → Connection → Connection
unfolding is_state
shutdown in_loop_thread c =
    if is_state c.state connected
    then if in_loop_thread
      then shutdown_in_loop (record c { state = disconnecting })
      else record c { state = disconnecting; pending = c.pending ++ (shutdown_task ∷ []) }
    else c

-- The loop runs the oldest task.
run_task : (Bytes → WriteResult) → Task → Connection → Option Connection
run_task write (send_task bytes) c = send_in_loop write bytes c
run_task write shutdown_task c = some (shutdown_in_loop c)

run_first : (Bytes → WriteResult) → List Task → Connection → Option Connection
unfolding run_task
run_first write [] c = some c
run_first write (task ∷ tasks) c = run_task write task (record c { pending = tasks })

pub run_pending : (Bytes → WriteResult) → Connection → Option Connection
unfolding run_first
run_pending write c = run_first write c.pending c

pub connect_established : Connection → Connection
unfolding call
connect_established c =
    call connection_callback
      (record c { state = connected; watch = Channel.able_read (Channel.tie c.watch) })

pub connect_destroyed : Connection → Connection
unfolding is_state
connect_destroyed c = record c {
  state = if is_state c.state connected then disconnected else c.state;
  watch = Channel.remove (Channel.disable_all c.watch);
}

pub handle_close : Connection → Connection
unfolding call
handle_close c = call close_callback (call connection_callback (record c { state = disconnected }))

after_read : ReadResult → Connection → Connection
unfolding call handle_close
after_read (failed errno) c = c
after_read (got []) c = handle_close c
after_read (got (x ∷ xs)) c = call message_callback c

-- `handleRead`: `handleError` only logs.
pub handle_read : (ℕ → ReadResult) → Connection → Option Connection
unfolding after_read
handle_read readv c = do
  (result, input) ← Buffer.read_fd readv c.input
  some (after_read result (record c { input = input }))

-- `handleWrite`, once the buffer is drained.
drained : Connection → Connection
unfolding call is_state
drained c =
    let quiet = call write_complete_callback (record c { watch = Channel.disable_write c.watch }) in
    if is_state c.state disconnecting then shutdown_in_loop quiet else quiet

-- `handleWrite`, where `write` accepted `n` bytes.
flushed : ℕ → Bytes → Connection → Connection
unfolding drained
flushed zero bytes c = c
flushed (suc n) bytes c =
    let rest = record c {
      output = Buffer.retrieve (suc n) c.output;
      sent = c.sent ++ take (suc n) bytes;
    } in
    if Buffer.readable_bytes rest.output == 0 then drained rest else rest

write_buffered : WriteResult → Bytes → Connection → Connection
unfolding flushed
write_buffered (wrote n) bytes c = flushed n bytes c
write_buffered would_block bytes c = c
write_buffered broken_pipe bytes c = c
write_buffered other_error bytes c = c

-- `handleWrite`.
pub handle_write : (Bytes → WriteResult) → Connection → Option Connection
unfolding write_buffered
handle_write write c =
    if Channel.is_write c.watch
    then Buffer.peek c.output (Buffer.readable_bytes c.output)
      >>= (λ bytes. some (write_buffered (write bytes) bytes c))
    else some c
