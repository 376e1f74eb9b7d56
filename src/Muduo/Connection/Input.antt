-- ===== src/Muduo/Connection/Input.antt =====
-- Writing leaves the input buffer of a connection alone.
use mprpc_main.Common.{
  ℕ, true, false, if◌then◌else◌, sym, subst, ◌≡◌, refl, zero, suc, Option-cases, some, [], ◌∷◌,
  ◌++◌, take, drop, Bytes, arith, inl, inr,
}
use mprpc_main.Muduo.Buffer
use mprpc_main.Muduo.Buffer.{ReadResult, got}
use mprpc_main.Muduo.Connection.{
  Connection, connected, disconnected, is_state, send, handle_read, after_read, message_callback,
  WriteResult, wrote, would_block, broken_pipe, other_error, buffer_rest, direct_write,
  send_in_loop, handle_write, shutdown_in_loop, drained, flushed, write_buffered, call,
}

buffer_rest-input :
    (bytes : Bytes) (c : Connection) {c' : Connection}
    → buffer_rest bytes c ≡ some c'
    → c'.input ≡ c.input
unfolding buffer_rest
buffer_rest-input [] c e = ground arith
buffer_rest-input (x ∷ xs) c e = ground arith

direct_write-input :
    (r : WriteResult) (bytes : Bytes) (c : Connection) {c' : Connection}
    → direct_write r bytes c ≡ some c'
    → c'.input ≡ c.input
unfolding direct_write call
direct_write-input (wrote n) bytes c e =
    ground (arith, buffer_rest-input (drop n bytes) (record c { sent = c.sent ++ take n bytes }))
direct_write-input would_block bytes c e = buffer_rest-input bytes c e
direct_write-input broken_pipe bytes c e = ground arith
direct_write-input other_error bytes c e = buffer_rest-input bytes c e

pub send_in_loop-input :
    (write : Bytes → WriteResult) (bytes : Bytes) (c : Connection) {c' : Connection}
    → send_in_loop write bytes c ≡ some c'
    → c'.input ≡ c.input
unfolding send_in_loop
send_in_loop-input write bytes c e =
    ground (arith, direct_write-input (write bytes) bytes c, buffer_rest-input bytes c)

drained-input : (c : Connection) → (drained c).input ≡ c.input
unfolding drained call shutdown_in_loop
drained-input c = ground arith

write_buffered-input :
    (r : WriteResult) (bytes : Bytes) (c : Connection) → (write_buffered r bytes c).input ≡ c.input
unfolding write_buffered flushed
write_buffered-input (wrote zero) bytes c = refl
write_buffered-input (wrote (suc n)) bytes c = ground (
  arith,
  drained-input
      (record c { output = Buffer.retrieve (suc n) c.output; sent = c.sent ++ take (suc n) bytes }),
)
write_buffered-input would_block bytes c = refl
write_buffered-input broken_pipe bytes c = refl
write_buffered-input other_error bytes c = refl

pub handle_write-input :
    (write : Bytes → WriteResult) (c : Connection) {c' : Connection}
    → handle_write write c ≡ some c'
    → c'.input ≡ c.input
unfolding handle_write
handle_write-input write c e =
    elim (Option-cases (Buffer.peek c.output (Buffer.readable_bytes c.output))) [
      | inl n ↦ ground arith
      | inr (bytes, p) ↦ ground (arith, write_buffered-input (write bytes) bytes c)
    ]

-- `send` in the loop's thread, on a connection that is connected.
pub send-connected :
    (write : Bytes → WriteResult) (bytes : Bytes) (c : Connection)
    → c.state ≡ connected
    → (send true write bytes c ≡ send_in_loop write bytes c)
      × (is_state c.state disconnected ≡ false)
unfolding send is_state
send-connected write bytes c e =
    subst
      (λ s.
        ((if is_state s connected then send_in_loop write bytes c else some c)
          ≡ send_in_loop write bytes c)
        × (is_state s disconnected ≡ false))
      (sym e) (refl, refl)

-- `handleRead`, where something was read.
pub handle_read-got :
    (readv : ℕ → ReadResult) (x : ℕ) (xs : Bytes) (input : Buffer.Buffer) (c : Connection)
    → Buffer.read_fd readv c.input ≡ some (got (x ∷ xs), input)
    → handle_read readv c
      ≡ some (record c { input = input; called = c.called ++ (message_callback ∷ []) })
unfolding handle_read after_read call
handle_read-got readv x xs input c e = rw e refl
