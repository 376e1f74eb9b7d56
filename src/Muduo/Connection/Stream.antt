-- ===== src/Muduo/Connection/Stream.antt =====
-- The bytes that a connection delivers: what the kernel has accepted, and then what is buffered.
use mprpc_main.Common.{
  ◌+◌, ◌-◌, ◌^◌, ◌<◌, ◌≡◌, ◌≢◌, refl, sym, ap, ◌∙◌, true, false, not, ◌&&◌, Option, some, [], ◌∷◌,
  ◌++◌, Bytes, length, take, drop, ◌==◌, if◌then◌else◌, arith, Bool-cases, inl, inr, ◌⊎◌,
  append_assoc, append-nil, take-append-drop, take_all, length-drop,
}
use mprpc_main.Muduo.Buffer
use mprpc_main.Muduo.Buffer.{Buffer}
use mprpc_main.Muduo.Buffer.Invariant.{IsValid, contents, readable_bytes-length}
use mprpc_main.Muduo.Buffer.Append.{Appended, append-Appended}
use mprpc_main.Muduo.Channel
use mprpc_main.Muduo.Channel.Bits.{able_write_lem}
use mprpc_main.Muduo.Connection.{
  Connection, disconnected, WriteResult, wrote, would_block, broken_pipe, other_error, is_state,
  buffer_rest, direct_write, send_in_loop, write_complete_callback, call,
}

abbrev pub stream : Connection → Bytes
stream c = c.sent ++ contents c.output

-- The output buffer is valid, and buffered bytes await a write.
pub record IsSound (c : Connection) : Type 0 where
  pub valid : IsValid c.output
  pub bits : c.watch.channel.events < 8
  pub awaited : (Channel.is_write c.watch ≡ true) ⊎ (contents c.output ≡ [])

-- The handler returned; these bytes were added at the end of the stream.
pub record Delivered (c : Connection) (bytes : Bytes) (r : Option Connection) : Type 0 where
  pub after : Connection
  pub returns : r ≡ some after
  pub sound : IsSound after
  pub streamed : stream after ≡ stream c ++ bytes

pub unmoved : (c : Connection) → IsSound c → Delivered c [] (some c)
unmoved c s = record {
  after = c;
  returns = refl;
  sound = s;
  streamed = sym (append-nil (stream c));
}

buffer_rest-Delivered :
    (bytes : Bytes) (c : Connection)
    → IsSound c
    → length c.output.buffer + length bytes < 2 ^ 63
    → Delivered c bytes (buffer_rest bytes c)
unfolding buffer_rest
buffer_rest-Delivered [] c s fits = unmoved c s
buffer_rest-Delivered (x ∷ xs) c s fits = rw a.returns (record {
  after = after;
  returns = refl;
  sound = record { valid = a.valid; bits = watching.1; awaited = inl watching.0 };
  streamed =
      ap (λ o. c.sent ++ o) a.joined ∙ sym (append_assoc c.sent (contents c.output) (x ∷ xs));
})
  where
    a : Appended c.output (x ∷ xs) (Buffer.append (x ∷ xs) c.output)
    a = append-Appended (x ∷ xs) c.output s.valid fits

    after : Connection
    after = record c {
      output = a.after;
      watch = if Channel.is_write c.watch then c.watch else Channel.able_write c.watch;
    }

    watching : (Channel.is_write after.watch ≡ true) × (after.watch.channel.events < 8)
    watching = ground (arith, able_write_lem c.watch s.bits)

swap_nil : (s t c : Bytes) → c ≡ [] → (s ++ t) ++ c ≡ (s ++ c) ++ t
swap_nil s t c e = rw e (append-nil (s ++ t) ∙ ap (λ u. u ++ t) (sym (append-nil s)))

direct_write-Delivered :
    (r : WriteResult) (bytes : Bytes) (c : Connection)
    → r ≢ broken_pipe
    → IsSound c
    → contents c.output ≡ []
    → length c.output.buffer + length bytes < 2 ^ 63
    → Delivered c bytes (direct_write r bytes c)
unfolding direct_write call
direct_write-Delivered would_block bytes c ne s e fits = buffer_rest-Delivered bytes c s fits
direct_write-Delivered other_error bytes c ne s e fits = buffer_rest-Delivered bytes c s fits
direct_write-Delivered broken_pipe bytes c ne s e fits = absurd (ne refl)
direct_write-Delivered (wrote n) bytes c ne s e fits = elim (Bool-cases (length bytes - n == 0)) [
  | inl all ↦ rw all (record {
    after = call write_complete_callback written;
    returns = refl;
    sound = record { valid = s.valid; bits = s.bits; awaited = s.awaited };
    streamed = moved ∙ ap (λ t. stream c ++ t) (take_all n bytes (ground arith));
  })
  | inr part ↦ rw part (record {
    after = rest.after;
    returns = rest.returns;
    sound = rest.sound;
    streamed =
        rest.streamed
        ∙ ap (λ t. t ++ drop n bytes) moved
        ∙ append_assoc (stream c) (take n bytes) (drop n bytes)
        ∙ ap (λ t. stream c ++ t) (take-append-drop n bytes);
  })
]
  where
    written : Connection
    written = record c { sent = c.sent ++ take n bytes }

    moved : stream written ≡ stream c ++ take n bytes
    moved = swap_nil c.sent (take n bytes) (contents c.output) e

    rest : Delivered written (drop n bytes) (buffer_rest (drop n bytes) written)
    rest =
        buffer_rest-Delivered (drop n bytes) written
          (record { valid = s.valid; bits = s.bits; awaited = s.awaited })
          (omega (arith, length-drop n bytes))

pub nil_of_length : (s : Bytes) → length s ≡ 0 → s ≡ []
nil_of_length [] h = refl
nil_of_length (x ∷ s) h = absurd (omega arith)

-- `sendInLoop` on a sound connection that is not disconnected, whose output buffer stays below 2 ^
-- 63 bytes, and where `write` does not report a broken connection: it does not fault, it adds the
-- bytes, all and in order, behind those that were sent or buffered before, and what it buffers
-- awaits a write.
pub send_in_loop-Delivered :
    (write : Bytes → WriteResult) (bytes : Bytes) (c : Connection)
    → is_state c.state disconnected ≡ false
    → write bytes ≢ broken_pipe
    → IsSound c
    → length c.output.buffer + length bytes < 2 ^ 63
    → Delivered c bytes (send_in_loop write bytes c)
unfolding send_in_loop
send_in_loop-Delivered write bytes c live ne s fits =
    rw live
      (elim (Bool-cases (not (Channel.is_write c.watch) && (Buffer.readable_bytes c.output == 0))) [
        | inl idle ↦ rw idle (
            direct_write-Delivered (write bytes) bytes c ne s
              (nil_of_length (contents c.output)
                (ground (arith, readable_bytes-length c.output s.valid)))
              fits)
        | inr busy ↦ rw busy (buffer_rest-Delivered bytes c s fits)
      ])
