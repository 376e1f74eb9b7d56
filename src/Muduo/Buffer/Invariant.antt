-- ===== src/Muduo/Buffer/Invariant.antt =====
-- The representation invariant of `Buffer`, and what the readable bytes are.
use mprpc_main.Common.{
  ℕ, ◌+◌, ◌-◌, ◌^◌, ◌≤◌, ◌<◌, ◌≡◌, some, Bytes, none, [], length, take, drop, arith, sub_size,
  add_size, length-replicate, drop-drop, drop-take, refl, sym, ap, leb, inl, inr, Bool-cases,
  drop_all, take-take,
}
use mprpc_main.Muduo.Buffer.Memory.{
  window, length-window, read_at-window, read_at-eq, read_at, read_at-past,
}
use mprpc_main.Muduo.Buffer.{
  Buffer, new, readable_bytes, writable_bytes, peek, peek_at, retrieve, retrieve_all,
  retrieve_all_as_string,
}

-- `0 <= prependable <= reader <= writer <= size`, with a vector of less than 2 ^ 63 bytes.
pub record IsValid (b : Buffer) : Type 0 where
  pub prepend : 8 ≤ b.reader_index
  pub ordered : b.reader_index ≤ b.writer_index
  pub inside : b.writer_index ≤ length b.buffer
  pub small : length b.buffer < 2 ^ 63

-- The readable bytes: the abstract queue that a buffer stands for.
abbrev pub contents : Buffer → Bytes
contents b = window b.buffer b.reader_index b.writer_index

pub new-IsValid : (n : ℕ) → n + 8 < 2 ^ 63 → IsValid (new n)
unfolding new
new-IsValid n h = omega (arith, length-replicate (8 + n) (let z : ℕ = 0 in z))

pub contents-new : (n : ℕ) → contents (new n) ≡ []
unfolding new
contents-new n = ground arith

pub readable_bytes-eq :
    {b : Buffer} → IsValid b → readable_bytes b ≡ b.writer_index - b.reader_index
unfolding readable_bytes
readable_bytes-eq v = omega arith

pub writable_bytes-eq :
    {b : Buffer} → IsValid b → writable_bytes b ≡ length b.buffer - b.writer_index
unfolding writable_bytes
writable_bytes-eq v = omega arith

-- `readableBytes` is the number of readable bytes: the subtraction does not wrap.
pub readable_bytes-length : (b : Buffer) → IsValid b → readable_bytes b ≡ length (contents b)
readable_bytes-length b v = omega (
  arith,
  readable_bytes-eq v,
  length-window b.buffer b.reader_index b.writer_index v.ordered v.inside,
)

pub retrieve_all-IsValid : (b : Buffer) → IsValid b → IsValid (retrieve_all b)
unfolding retrieve_all
retrieve_all-IsValid b v = omega arith

pub contents-retrieve_all : (b : Buffer) → contents (retrieve_all b) ≡ []
unfolding retrieve_all
contents-retrieve_all b = refl

pub retrieve-IsValid : (n : ℕ) (b : Buffer) → IsValid b → IsValid (retrieve n b)
unfolding retrieve retrieve_all
retrieve-IsValid n b v = ground arith

-- `retrieve` of a valid buffer drops that many bytes from the front of the readable ones, and all
-- of them if there are not more.
pub contents-retrieve :
    (n : ℕ) (b : Buffer) → IsValid b → contents (retrieve n b) ≡ drop n (contents b)
unfolding retrieve retrieve_all
contents-retrieve n b v = elim (Bool-cases (leb (sub_size b.writer_index b.reader_index) n)) [
  | inl all ↦ rw all (
      sym (
        drop_all n (contents b) (
          ground (arith, length-window b.buffer b.reader_index b.writer_index v.ordered v.inside))))
  | inr part ↦ rw part (tail (ground arith) (ground arith))
]
  where
    tail :
        add_size b.reader_index n ≡ b.reader_index + n
        → n ≤ b.writer_index - b.reader_index
        → window b.buffer (add_size b.reader_index n) b.writer_index ≡ drop n (contents b)
    tail e k =
        rw
          (
            e,
            drop-take n (b.writer_index - b.reader_index) (drop b.reader_index b.buffer),
            drop-drop n b.reader_index (b.reader_index + n) b.buffer (omega arith),
          )
          (ap (λ i. take i (drop (b.reader_index + n) b.buffer)) (omega arith))

-- `peek` and `retrieveAllAsString` read inside of the vector.
pub peek_all : {b : Buffer} → IsValid b → peek b (readable_bytes b) ≡ some (contents b)
unfolding peek
peek_all {b} v =
    rw (readable_bytes-eq v)
      (read_at-window b.buffer b.reader_index b.writer_index v.ordered v.inside)

-- A read at an offset inside of the readable bytes.
pub peek_at_lem :
    (offset n : ℕ) {b : Buffer}
    → IsValid b
    → offset + n ≤ length (contents b)
    → peek_at b offset n ≡ some (take n (drop offset (contents b)))
unfolding peek_at
peek_at_lem offset n {b} v h =
    rw
      (
        read_at-eq b.buffer (b.reader_index + offset) n (omega (arith, size)),
        drop-take offset (b.writer_index - b.reader_index) (drop b.reader_index b.buffer),
        drop-drop offset b.reader_index (b.reader_index + offset) b.buffer (omega arith),
      )
      (ap some (
        sym (
          take-take n (b.writer_index - b.reader_index - offset)
            (drop (b.reader_index + offset) b.buffer) (omega (arith, size)))))
  where
    size : length (contents b) ≡ b.writer_index - b.reader_index
    size = length-window b.buffer b.reader_index b.writer_index v.ordered v.inside

-- A read that leaves the vector.
pub peek_at_past :
    (b : Buffer) (offset n : ℕ)
    → length b.buffer < b.reader_index + offset + n
    → peek_at b offset n ≡ none
unfolding peek_at
peek_at_past b offset n h = read_at-past b.buffer (b.reader_index + offset) n h

pub peek_at_bound :
    (b : Buffer) (offset n : ℕ) {s : Bytes}
    → peek_at b offset n ≡ some s
    → b.reader_index + offset + n ≤ length b.buffer
unfolding peek_at read_at
peek_at_bound b offset n h = ground arith

pub length-buffer-retrieve : (n : ℕ) (b : Buffer) → length (retrieve n b).buffer ≡ length b.buffer
unfolding retrieve retrieve_all
length-buffer-retrieve n b = ground arith

pub retrieve_all_as_string_lem :
    (b : Buffer) → IsValid b → retrieve_all_as_string b ≡ some (contents b, retrieve_all b)
unfolding retrieve_all_as_string
retrieve_all_as_string_lem b v = rw (peek_all v)
