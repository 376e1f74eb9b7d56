-- ===== src/Muduo/Buffer/Append.antt =====
-- `append` on a valid buffer: no assertion fails, no copy leaves the vector, and the bytes arrive.
use mprpc_main.Common.{
  ℕ, ◌+◌, ◌-◌, ◌^◌, ◌≤◌, ◌<◌, ◌≡◌, ◌++◌, ap, ◌∙◌, Option, some, Bytes, length, leb, ltb, arith, inl,
  inr, Bool-cases, add_size, sub_size, ap, ◌∙◌, ◌>>=◌, ◌>>◌, assert, le→leb,
}
use mprpc_main.Muduo.Buffer.Memory.{
  copy_to, copied, copy_to-eq, length-copied, length-resize, resize, window-resize, window-copied,
  window-copied_at, length-window,
}
use mprpc_main.Muduo.Buffer.{
  Buffer, make_space, ensure_writable_bytes, has_written, append, writable_bytes, prependable_bytes,
}
use mprpc_main.Muduo.Buffer.Invariant.{
  IsValid, contents, peek_all, readable_bytes-length, writable_bytes-eq,
}

-- A buffer with room for `len` bytes and the contents of `b`.
pub record Roomy (b : Buffer) (len : ℕ) (r : Option Buffer) : Type 0 where
  pub after : Buffer
  pub returns : r ≡ some after
  pub valid : IsValid after
  pub same : contents after ≡ contents b
  pub room : after.writer_index + len ≤ length after.buffer
  pub bound : length after.buffer ≤ length b.buffer + len

pub record Appended (b : Buffer) (bytes : Bytes) (r : Option Buffer) : Type 0 where
  pub after : Buffer
  pub returns : r ≡ some after
  pub valid : IsValid after
  pub joined : contents after ≡ contents b ++ bytes
  pub bound : length after.buffer ≤ length b.buffer + length bytes

module _ (len : ℕ) (b : Buffer) (v : IsValid b) (fits : length b.buffer + len < 2 ^ 63) where
  grown : Buffer
  grown = record b { buffer = resize b.buffer (b.writer_index + len) }

  grow-Roomy : length b.buffer < b.writer_index + len → Roomy b len (some grown)
  unfolding grown
  grow-Roomy short = record {
    after = grown;
    returns = λ i. some grown;
    valid = omega (arith, length-resize b.buffer (b.writer_index + len));
    same =
        window-resize b.buffer (b.writer_index + len) b.reader_index b.writer_index v.ordered
          v.inside (omega arith);
    room = omega (arith, length-resize b.buffer (b.writer_index + len));
    bound = omega (arith, length-resize b.buffer (b.writer_index + len));
  }

  moved : Buffer
  moved = record {
    buffer = copied b.buffer 8 (contents b);
    reader_index = 8;
    writer_index = 8 + length (contents b);
  }

  move-Roomy :
      len + 8 ≤ b.reader_index + (length b.buffer - b.writer_index) → Roomy b len (some moved)
  unfolding moved
  move-Roomy wide = record {
    after = moved;
    returns = λ i. some moved;
    valid = omega (arith, size, length-copied b.buffer 8 (contents b) (omega (arith, size)));
    same = window-copied_at b.buffer 8 (contents b) (omega (arith, size));
    room = omega (arith, size, length-copied b.buffer 8 (contents b) (omega (arith, size)));
    bound = omega (arith, length-copied b.buffer 8 (contents b) (omega (arith, size)));
  }
    where
      size : length (contents b) ≡ b.writer_index - b.reader_index
      size = length-window b.buffer b.reader_index b.writer_index v.ordered v.inside

  make_space-Roomy : length b.buffer < b.writer_index + len → Roomy b len (make_space len b)
  unfolding make_space prependable_bytes grown moved
  make_space-Roomy short =
      rw (writable_bytes-eq v, peek_all v, readable_bytes-length b v)
        (elim (Bool-cases
          (ltb (add_size b.reader_index (length b.buffer - b.writer_index)) (add_size len 8))) [
            | inl tight ↦ rw (tight, end) (grow-Roomy short)
            | inr wide ↦
                rw (wide, copy_to-eq b.buffer 8 (contents b) (ground (arith, size)), start)
                  (move-Roomy (ground (arith)))
          ])
    where
      size : length (contents b) ≡ b.writer_index - b.reader_index
      size = length-window b.buffer b.reader_index b.writer_index v.ordered v.inside

      end : add_size b.writer_index len ≡ b.writer_index + len
      end = omega arith

      start : add_size 8 (length (contents b)) ≡ 8 + length (contents b)
      start = omega (arith, size)

  ensure_writable_bytes-Roomy : Roomy b len (ensure_writable_bytes len b)
  unfolding ensure_writable_bytes
  ensure_writable_bytes-Roomy =
      rw (writable_bytes-eq v) (elim (Bool-cases (ltb (length b.buffer - b.writer_index) len)) [
        | inl short ↦ rw short (checked (make_space len b) (make_space-Roomy (ground arith)))
        | inr enough ↦ rw enough (checked (some b) (kept (ground arith)))
      ])
    where
      kept : b.writer_index + len ≤ length b.buffer → Roomy b len (some b)
      kept room = record {
        after = b;
        returns = λ i. some b;
        valid = v;
        same = λ i. contents b;
        room = room;
        bound = omega arith;
      }

      checked :
          (m : Option Buffer)
          → Roomy b len m
          → Roomy b len (m >>= λ b'. assert (leb len (writable_bytes b')) >> some b')
      checked m r =
          rw
            (
              r.returns,
              writable_bytes-eq r.valid,
              le→leb len (length r.after.buffer - r.after.writer_index) (omega (arith, r.room)),
            )
            (record {
              after = r.after;
              returns = λ i. some r.after;
              valid = r.valid;
              same = r.same;
              room = r.room;
              bound = r.bound;
            })

module _ (bytes : Bytes) (b : Buffer) (v : IsValid b) where
  -- The steps of `append` behind the room check.
  stored-Appended :
      length b.buffer + length bytes < 2 ^ 63
      → (m : Option Buffer) → Roomy b (length bytes) m
      → Appended b bytes (
          m >>= λ b'. copy_to b'.buffer b'.writer_index bytes >>= λ copied.
          has_written (length bytes) (record b' { buffer = copied }))
  unfolding has_written writable_bytes
  stored-Appended fits m r =
      rw
        (
          r.returns,
          copy_to-eq mem w bytes r.room,
          le→leb (length bytes) (sub_size (length (copied mem w bytes)) w) (omega (arith, size)),
          end,
        )
        (record {
          after = done;
          returns = λ i. some done;
          valid = omega (arith, size);
          joined =
              window-copied mem r.after.reader_index w bytes r.valid.ordered r.room
              ∙ ap (λ c. c ++ bytes) r.same;
          bound = omega (arith, size);
        })
    where
      mem : Bytes
      mem = r.after.buffer

      w : ℕ
      w = r.after.writer_index

      size : length (copied mem w bytes) ≡ length mem
      size = length-copied mem w bytes r.room

      end : add_size w (length bytes) ≡ w + length bytes
      end = omega arith

      done : Buffer
      done = record r.after { buffer = copied mem w bytes; writer_index = w + length bytes }

  -- On a valid buffer that stays below 2 ^ 63 bytes, `append` succeeds: no assertion fails and no
  -- copy leaves the vector. The result is valid, and its contents are those before and then
  -- `bytes`.
  pub append-Appended : length b.buffer + length bytes < 2 ^ 63 → Appended b bytes (append bytes b)
  unfolding append
  append-Appended fits =
      stored-Appended fits _ (ensure_writable_bytes-Roomy (length bytes) b v fits)
