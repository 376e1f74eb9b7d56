-- ===== src/Muduo/Connection/Writing.antt =====
-- mymuduo-main/src/TcpConnection.cpp: `handleWrite`, which drains the output buffer.
use mprpc_main.Common.{
  ℕ, zero, suc, ◌≤◌, ◌<◌, ◌≡◌, refl, sym, ap, ◌∙◌, true, false, Option, some, [], ◌++◌, Bytes,
  length, take, drop, ◌==◌, arith, Bool-cases, inl, inr, ◌⊎◌, append_assoc, append-nil,
  take-append-drop, drop_all,
}
use mprpc_main.Muduo.Buffer
use mprpc_main.Muduo.Buffer.{Buffer}
use mprpc_main.Muduo.Buffer.Invariant.{
  contents, readable_bytes-length, contents-retrieve, retrieve-IsValid, peek_all,
}
use mprpc_main.Muduo.Channel
use mprpc_main.Muduo.Channel.Bits.{disable_write_lem}
use mprpc_main.Muduo.Connection.{
  Connection, WriteResult, wrote, would_block, broken_pipe, other_error, is_state, disconnecting,
  write_complete_callback, drained, flushed, write_buffered, handle_write, shutdown_in_loop, call,
}
use mprpc_main.Muduo.Connection.Stream.{stream, IsSound, Delivered, unmoved, nil_of_length}

shutdown_in_loop-Delivered :
    (c : Connection) → IsSound c → Delivered c [] (some (shutdown_in_loop c))
unfolding shutdown_in_loop
shutdown_in_loop-Delivered c s = elim (Bool-cases (Channel.is_write c.watch)) [
  | inl w ↦ rw w (unmoved c s)
  | inr w ↦ rw w (record {
    after = record c { write_shut = true };
    returns = refl;
    sound = record { valid = s.valid; bits = s.bits; awaited = s.awaited };
    streamed = sym (append-nil (stream c));
  })
]

quieted : Connection → Connection
unfolding call
quieted c = call write_complete_callback (record c { watch = Channel.disable_write c.watch })

-- A change that keeps the stream may come first.
behind :
    (c c' : Connection) (r : Option Connection)
    → stream c' ≡ stream c
    → Delivered c' [] r
    → Delivered c [] r
behind c c' r e d = record {
  after = d.after;
  returns = d.returns;
  sound = d.sound;
  streamed = d.streamed ∙ ap (λ t. t ++ []) e;
}

drained-Delivered :
    (c : Connection) → IsSound c → contents c.output ≡ [] → Delivered c [] (some (drained c))
unfolding drained quieted
drained-Delivered c s e = elim (Bool-cases (is_state c.state disconnecting)) [
  | inl d ↦ rw d (behind c (quieted c) _ refl (shutdown_in_loop-Delivered (quieted c) quiet))
  | inr d ↦ rw d (behind c (quieted c) _ refl (unmoved (quieted c) quiet))
]
  where
    quiet : IsSound (quieted c)
    quiet = record { valid = s.valid; bits = (disable_write_lem c.watch s.bits).1; awaited = inr e }

flushed-Delivered :
    (n : ℕ) (c : Connection)
    → IsSound c
    → Channel.is_write c.watch ≡ true
    → Delivered c [] (some (flushed n (contents c.output) c))
unfolding flushed
flushed-Delivered zero c s w = unmoved c s
flushed-Delivered (suc n) c s w = elim (Bool-cases (Buffer.readable_bytes rest.output == 0)) [
  | inl all ↦ rw all (
      behind c rest _ kept (
        drained-Delivered rest sound (
          nil_of_length (contents rest.output)
            (ground (arith, readable_bytes-length rest.output sound.valid)))))
  | inr part ↦ rw part (behind c rest _ kept (unmoved rest sound))
]
  where
    rest : Connection
    rest = record c {
      output = Buffer.retrieve (suc n) c.output;
      sent = c.sent ++ take (suc n) (contents c.output);
    }

    sound : IsSound rest
    sound = record {
      valid = retrieve-IsValid (suc n) c.output s.valid;
      bits = s.bits;
      awaited = inl w;
    }

    kept : stream rest ≡ stream c
    kept =
        ap (λ t. (c.sent ++ take (suc n) (contents c.output)) ++ t)
          (contents-retrieve (suc n) c.output s.valid)
        ∙ append_assoc c.sent (take (suc n) (contents c.output)) (drop (suc n) (contents c.output))
        ∙ ap (λ t. c.sent ++ t) (take-append-drop (suc n) (contents c.output))

write_buffered-Delivered :
    (r : WriteResult) (c : Connection)
    → IsSound c
    → Channel.is_write c.watch ≡ true
    → Delivered c [] (some (write_buffered r (contents c.output) c))
unfolding write_buffered
write_buffered-Delivered (wrote n) c s w = flushed-Delivered n c s w
write_buffered-Delivered would_block c s w = unmoved c s
write_buffered-Delivered broken_pipe c s w = unmoved c s
write_buffered-Delivered other_error c s w = unmoved c s

-- `handleWrite` on a sound connection, whatever `write` answers: it does not fault, and it neither
-- loses, repeats nor reorders a byte of the stream; what is still buffered still awaits a write.
pub handle_write-Delivered :
    (write : Bytes → WriteResult) (c : Connection)
    → IsSound c
    → Delivered c [] (handle_write write c)
unfolding handle_write
handle_write-Delivered write c s = elim (Bool-cases (Channel.is_write c.watch)) [
  | inl w ↦ rw (w, peek_all s.valid) (write_buffered-Delivered (write (contents c.output)) c s w)
  | inr w ↦ rw w (unmoved c s)
]

drained-settles :
    (c : Connection)
    → c.watch.channel.events < 8
    → ((drained c).output ≡ c.output)
      × (Channel.is_write (drained c).watch ≡ false)
      × ((is_state c.state disconnecting ≡ false) ⊎ ((drained c).write_shut ≡ true))
unfolding drained shutdown_in_loop call
drained-settles c h = elim (Bool-cases (is_state c.state disconnecting)) [
  | inl d ↦ ground (arith, disable_write_lem c.watch h, d)
  | inr d ↦ ground (arith, disable_write_lem c.watch h, d)
]

-- On a sound connection that awaits a write, where `write` accepts all that is buffered, the
-- channel awaits no write any more, and a connection that is being shut down has shut its write
-- half.
pub handle_write-drains :
    (write : Bytes → WriteResult) (c : Connection) (n : ℕ)
    → IsSound c
    → Channel.is_write c.watch ≡ true
    → write (contents c.output) ≡ wrote (suc n)
    → length (contents c.output) ≤ suc n
    → (c' : Connection) × (handle_write write c ≡ some c')
      × (contents c'.output ≡ [])
      × (Channel.is_write c'.watch ≡ false)
      × ((is_state c.state disconnecting ≡ false) ⊎ (c'.write_shut ≡ true))
unfolding handle_write write_buffered flushed
handle_write-drains write c n s w e h = (
  drained rest,
  rw (w, peek_all s.valid, e, write_buffered, none_left),
  ap contents settled.0 ∙ empty,
  settled.1,
  settled.2,
)
  where
    rest : Connection
    rest = record c {
      output = Buffer.retrieve (suc n) c.output;
      sent = c.sent ++ take (suc n) (contents c.output);
    }

    settled :
        ((drained rest).output ≡ rest.output)
        × (Channel.is_write (drained rest).watch ≡ false)
        × ((is_state c.state disconnecting ≡ false) ⊎ ((drained rest).write_shut ≡ true))
    settled = drained-settles rest s.bits

    empty : contents rest.output ≡ []
    empty = contents-retrieve (suc n) c.output s.valid ∙ drop_all (suc n) (contents c.output) h

    none_left : (Buffer.readable_bytes rest.output == 0) ≡ true
    none_left = ground (
      arith,
      readable_bytes-length rest.output (retrieve-IsValid (suc n) c.output s.valid),
      ap length empty,
    )
