-- ===== src/Muduo/Buffer.antt =====
-- mymuduo-main/src/Buffer.cpp and include/mymuduo/Buffer.h: the byte buffer of a connection.
-- A result `none` is a fault: an `assert` that fails, or an access outside of `buffer_`.
-- `size_t` arithmetic wraps at 2 ^ 64.
pub mod Memory
pub mod Invariant
pub mod Append
pub mod ReadFd
mod Tests
use mprpc_main.Common.{
  ℕ, ◌+◌, Bool, Option, none, some, List, [], ◌++◌, Bytes, length, take, drop, replicate, ltb, leb,
  if◌then◌else◌, assert, add_size, sub_size, ◌>>=◌, ◌>>◌,
}
use Memory.{read_at, copy_to, resize}

abbrev pub cheap_prepend : ℕ
cheap_prepend = 8

abbrev pub initial_size : ℕ
initial_size = 1024

pub record Buffer : Type 0 where
  pub buffer : Bytes
  pub reader_index : ℕ
  pub writer_index : ℕ

-- `Buffer(initialSize)`: the vector is filled with zero bytes.
pub new : ℕ → Buffer
new size = record {
  buffer = replicate (cheap_prepend + size) 0;
  reader_index = cheap_prepend;
  writer_index = cheap_prepend;
}

pub readable_bytes : Buffer → ℕ
readable_bytes b = sub_size b.writer_index b.reader_index

pub writable_bytes : Buffer → ℕ
writable_bytes b = sub_size (length b.buffer) b.writer_index

pub prependable_bytes : Buffer → ℕ
prependable_bytes b = b.reader_index

-- The `n` bytes from `peek() + offset` on.
pub peek_at : Buffer → ℕ → ℕ → Option Bytes
peek_at b offset n = read_at b.buffer (b.reader_index + offset) n

-- The `n` bytes from `peek()` on.
pub peek : Buffer → ℕ → Option Bytes
peek b n = read_at b.buffer b.reader_index n

pub retrieve_all : Buffer → Buffer
retrieve_all b = record b { reader_index = cheap_prepend; writer_index = cheap_prepend }

pub retrieve : ℕ → Buffer → Buffer
retrieve len b =
    if leb (sub_size b.writer_index b.reader_index) len
    then retrieve_all b
    else record b { reader_index = add_size b.reader_index len }

pub retrieve_all_as_string : Buffer → Option (Bytes × Buffer)
retrieve_all_as_string b = do str ← peek b (readable_bytes b); some (str, retrieve_all b)

make_space : ℕ → Buffer → Option Buffer
make_space len b =
    if ltb (add_size (prependable_bytes b) (writable_bytes b)) (add_size len cheap_prepend)
    then some (record b { buffer = resize b.buffer (add_size b.writer_index len) })
    else do
      bytes ← peek b (readable_bytes b)
      moved ← copy_to b.buffer cheap_prepend bytes
      some (record {
        buffer = moved;
        reader_index = cheap_prepend;
        writer_index = add_size cheap_prepend (readable_bytes b);
      })

pub ensure_writable_bytes : ℕ → Buffer → Option Buffer
ensure_writable_bytes len b = do
  b' ← if ltb (writable_bytes b) len then make_space len b else some b
  assert (leb len (writable_bytes b'))
  some b'

pub has_written : ℕ → Buffer → Option Buffer
has_written len b = do
  assert (leb len (writable_bytes b))
  some (record b { writer_index = add_size b.writer_index len })

-- Both `append` functions: the string is its bytes and their number.
pub append : Bytes → Buffer → Option Buffer
append bytes b = do
  b' ← ensure_writable_bytes (length bytes) b
  copied ← copy_to b'.buffer b'.writer_index bytes
  has_written (length bytes) (record b' { buffer = copied })

-- What `readv` returns: the bytes that it stored in the vectors, in order, or `errno`.
pub data ReadResult : Type 0 where
  got : Bytes → ReadResult
  failed : ℕ → ReadResult

abbrev pub extra_size : ℕ
extra_size = 65536

-- The room that `readFd` offers: the stack buffer joins in when less than its size is writable.
pub read_capacity : Buffer → ℕ
read_capacity b =
    if ltb (writable_bytes b) extra_size then writable_bytes b + extra_size else writable_bytes b

-- `readFd` behind the call of `readv`: the vectors are filled in order, the writable space first.
store_read : ReadResult → Buffer → Option (ReadResult × Buffer)
store_read (failed errno) b = some (failed errno, b)
store_read (got bytes) b = do
  stored ← copy_to b.buffer b.writer_index (take (writable_bytes b) bytes)
  if leb (length bytes) (writable_bytes b)
      then some (
        got bytes,
        record b { buffer = stored; writer_index = add_size b.writer_index (length bytes) },
      )
      else do
        b' ←
            append (drop (writable_bytes b) bytes)
              (record b { buffer = stored; writer_index = length b.buffer })
        some (got bytes, b')

-- `readv` is the kernel's: it is told the room in the vectors.
pub read_fd : (ℕ → ReadResult) → Buffer → Option (ReadResult × Buffer)
read_fd readv b = store_read (readv (read_capacity b)) b
