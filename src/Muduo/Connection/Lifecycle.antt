-- ===== src/Muduo/Connection/Lifecycle.antt =====
-- The states of a connection, and when its write half is shut.
use mprpc_main.Common.{
  ℕ, ◌≡◌, refl, true, zero, suc, Option-cases, Bool, some, [], ◌∷◌, ◌++◌, take, drop, Bytes, arith,
  inl, inr,
}
use mprpc_main.Muduo.Buffer
use mprpc_main.Muduo.Buffer.{ReadResult}
use mprpc_main.Muduo.Connection.{
  Connection, State, disconnected, connecting, connected, disconnecting, WriteResult, wrote,
  would_block, broken_pipe, other_error, buffer_rest, direct_write, send_in_loop, send, shutdown,
  shutdown_in_loop, run_pending, handle_close, handle_read, handle_write, connect_destroyed,
  drained, flushed, write_buffered, call,
}

-- The order in which a connection goes through its states.
pub rank : State → ℕ
rank connecting = 0
rank connected = 1
rank disconnecting = 2
rank disconnected = 3

-- What is done to a connection that is established: all that the loop's thread does, and `send`
-- from any thread. `shutdown` from another thread is not among them: it tests `state_` and then
-- sets it, with no lock, and the loop may close the connection in between.
pub data Step (c c' : Connection) : Type 0 where
  sends :
      (here : Bool) (write : Bytes → WriteResult) (bytes : Bytes)
      → send here write bytes c ≡ some c'
      → Step c c'
  shuts : shutdown true c ≡ c' → Step c c'
  runs : (write : Bytes → WriteResult) → run_pending write c ≡ some c' → Step c c'
  reads : (readv : ℕ → ReadResult) → handle_read readv c ≡ some c' → Step c c'
  writes : (write : Bytes → WriteResult) → handle_write write c ≡ some c' → Step c c'
  closes : handle_close c ≡ c' → Step c c'
  destroys : connect_destroyed c ≡ c' → Step c c'

buffer_rest-state :
    (bytes : Bytes) (c : Connection) {c' : Connection}
    → buffer_rest bytes c ≡ some c'
    → (c'.state ≡ c.state) × (c'.write_shut ≡ c.write_shut)
unfolding buffer_rest
buffer_rest-state [] c e = ground arith
buffer_rest-state (x ∷ xs) c e = ground arith

direct_write-state :
    (r : WriteResult) (bytes : Bytes) (c : Connection) {c' : Connection}
    → direct_write r bytes c ≡ some c'
    → (c'.state ≡ c.state) × (c'.write_shut ≡ c.write_shut)
unfolding direct_write call
direct_write-state (wrote n) bytes c e =
    ground (arith, buffer_rest-state (drop n bytes) (record c { sent = c.sent ++ take n bytes }))
direct_write-state would_block bytes c e = buffer_rest-state bytes c e
direct_write-state broken_pipe bytes c e = ground arith
direct_write-state other_error bytes c e = buffer_rest-state bytes c e

pub send_in_loop-state :
    (write : Bytes → WriteResult) (bytes : Bytes) (c : Connection) {c' : Connection}
    → send_in_loop write bytes c ≡ some c'
    → (c'.state ≡ c.state) × (c'.write_shut ≡ c.write_shut)
unfolding send_in_loop
send_in_loop-state write bytes c e =
    ground (arith, direct_write-state (write bytes) bytes c, buffer_rest-state bytes c)

drained-state : (c : Connection) → (drained c).state ≡ c.state
unfolding drained call shutdown_in_loop
drained-state c = ground arith

write_buffered-state :
    (r : WriteResult) (bytes : Bytes) (c : Connection) → (write_buffered r bytes c).state ≡ c.state
unfolding write_buffered flushed
write_buffered-state (wrote zero) bytes c = refl
write_buffered-state (wrote (suc n)) bytes c = ground (
  arith,
  drained-state
      (record c { output = Buffer.retrieve (suc n) c.output; sent = c.sent ++ take (suc n) bytes }),
)
write_buffered-state would_block bytes c = refl
write_buffered-state broken_pipe bytes c = refl
write_buffered-state other_error bytes c = refl

pub handle_write-state :
    (write : Bytes → WriteResult) (c : Connection) {c' : Connection}
    → handle_write write c ≡ some c'
    → c'.state ≡ c.state
unfolding handle_write
handle_write-state write c e =
    elim (Option-cases (Buffer.peek c.output (Buffer.readable_bytes c.output))) [
      | inl n ↦ ground arith
      | inr (bytes, p) ↦ ground (arith, write_buffered-state (write bytes) bytes c)
    ]
