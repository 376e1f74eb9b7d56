-- ===== src/Muduo/Buffer/ReadFd.antt =====
-- `readFd` on a valid buffer: what `readv` delivers goes behind the readable bytes.
use mprpc_main.Common.{
  ℕ, ◌+◌, ◌-◌, ◌^◌, ◌≤◌, ◌<◌, ◌≡◌, ◌++◌, ap, ◌∙◌, Option, some, Bytes, length, take, drop, leb,
  arith, inl, inr, Bool-cases, ◌>>=◌, take_all, take-append-drop, length-take, length-drop,
  append_assoc, min,
}
use mprpc_main.Muduo.Buffer.Memory.{copied, copy_to-eq, length-copied, window-copied}
use mprpc_main.Muduo.Buffer.{Buffer, ReadResult, got, store_read, read_fd, read_capacity, append}
use mprpc_main.Muduo.Buffer.Invariant.{IsValid, contents, writable_bytes-eq}
use mprpc_main.Muduo.Buffer.Append.{Appended, append-Appended}

-- What `readFd` leaves behind after `readv` stored `bytes`.
pub record Received (b : Buffer) (bytes : Bytes) (r : Option (ReadResult × Buffer)) : Type 0 where
  pub after : Buffer
  pub returns : r ≡ some (got bytes, after)
  pub valid : IsValid after
  pub joined : contents after ≡ contents b ++ bytes

module _ (bytes : Bytes) (b : Buffer) (v : IsValid b) where
  room : ℕ
  room = length b.buffer - b.writer_index

  head_length : length (take room bytes) ≡ min room (length bytes)
  head_length = length-take room bytes

  -- The bytes that fit are in place, and the writer stands behind them.
  filled : Buffer
  filled = record b {
    buffer = copied b.buffer b.writer_index (take room bytes);
    writer_index = b.writer_index + length (take room bytes);
  }

  filled_size : length filled.buffer ≡ length b.buffer
  unfolding filled room
  filled_size = length-copied b.buffer b.writer_index (take room bytes) (omega (arith, head_length))

  filled-IsValid : IsValid filled
  unfolding filled room
  filled-IsValid = omega (arith, filled_size, head_length)

  contents-filled : contents filled ≡ contents b ++ take room bytes
  unfolding filled room
  contents-filled =
      window-copied b.buffer b.reader_index b.writer_index (take room bytes) v.ordered
        (omega (arith, head_length))

  stored : ℕ → Buffer
  stored n = record b {
    buffer = copied b.buffer b.writer_index (take room bytes);
    writer_index = n;
  }

  -- The branch where the writable space was enough.
  fitted-Received :
      (n : ℕ)
      → n ≡ filled.writer_index
      → length bytes ≤ room
      → Received b bytes (some (got bytes, stored n))
  unfolding stored filled room
  fitted-Received n e h = rw e (record {
    after = filled;
    returns = λ i. some (got bytes, filled);
    valid = filled-IsValid;
    joined = contents-filled ∙ ap (λ c. contents b ++ c) (take_all room bytes h);
  })

  -- The branch where the rest of the bytes stands in the stack buffer.
  spilled-Received :
      (n : ℕ)
      → n ≡ filled.writer_index
      → length b.buffer + length bytes < 2 ^ 63
      → Received b bytes (append (drop room bytes) (stored n) >>= λ b'. some (got bytes, b'))
  unfolding stored filled
  spilled-Received n e fits =
      rw (e, joined.returns)
        (record {
          after = joined.after;
          returns = λ i. some (got bytes, joined.after);
          valid = joined.valid;
          joined =
              joined.joined
              ∙ ap (λ c. c ++ drop room bytes) contents-filled
              ∙ append_assoc (contents b) (take room bytes) (drop room bytes)
              ∙ ap (λ c. contents b ++ c) (take-append-drop room bytes);
        })
    where
      joined : Appended filled (drop room bytes) (append (drop room bytes) filled)
      joined =
          append-Appended (drop room bytes) filled filled-IsValid
            (omega (arith, filled_size, length-drop room bytes))

  store_read-Received :
      length b.buffer + length bytes < 2 ^ 63 → Received b bytes (store_read (got bytes) b)
  unfolding store_read stored filled room
  store_read-Received fits =
      rw
        (
          writable_bytes-eq v,
          copy_to-eq b.buffer b.writer_index (take room bytes) (omega (arith, head_length)),
        )
        (elim (Bool-cases (leb (length bytes) room)) [
          | inl all ↦ rw all (fitted-Received _ (ground (arith, head_length)) (ground arith))
          | inr rest ↦ rw rest (spilled-Received _ (ground (arith, head_length)) fits)
        ])

-- `readFd` never faults on a valid buffer that stays below 2 ^ 63 bytes, whichever of the two
-- vectors the bytes went to: the result is valid, and its contents are those before and then the
-- bytes that `readv` delivered, in order.
pub read_fd-Received :
    (readv : ℕ → ReadResult) (bytes : Bytes) (b : Buffer)
    → IsValid b
    → readv (read_capacity b) ≡ got bytes
    → length b.buffer + length bytes < 2 ^ 63
    → Received b bytes (read_fd readv b)
unfolding read_fd
read_fd-Received readv bytes b v e fits = rw e (store_read-Received bytes b v fits)
