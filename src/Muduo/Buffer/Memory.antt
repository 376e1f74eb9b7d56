-- ===== src/Muduo/Buffer/Memory.antt =====
-- A `std::vector<char>`: reads and copies that fault outside of its bounds, and `resize`.
use mprpc_main.Common.{
  ℕ, ◌+◌, ◌-◌, ◌≤◌, ◌<◌, ◌≡◌, Option, none, some, ◌++◌, Bytes, length, take, drop, replicate, leb,
  if◌then◌else◌, arith, length-take, length-drop, length-append, length-replicate, take-append,
  take-append_le, drop-append, drop-append_le, take_all, drop-take, append_assoc,
}

-- The `n` bytes at `i`.
unfoldable pub read_at : Bytes → ℕ → ℕ → Option Bytes
read_at mem i n = if leb (i + n) (length mem) then some (take n (drop i mem)) else none

-- `std::copy` of `bytes` to the place `i`.
unfoldable pub copy_to : Bytes → ℕ → Bytes → Option Bytes
copy_to mem i bytes =
    if leb (i + length bytes) (length mem)
    then some (take i mem ++ (bytes ++ drop (i + length bytes) mem))
    else none

-- `vector::resize`: new bytes are zero.
unfoldable pub resize : Bytes → ℕ → Bytes
resize mem n = take n mem ++ replicate (n - length mem) 0

pub length-resize : (mem : Bytes) (n : ℕ) → length (resize mem n) ≡ n
unfolding resize
length-resize mem n = omega (
  arith,
  length-append (take n mem) (replicate (n - length mem) 0),
  length-take n mem,
  length-replicate (n - length mem) (let z : ℕ = 0 in z),
)

-- The bytes between two indices.
abbrev pub window : Bytes → ℕ → ℕ → Bytes
window mem r w = take (w - r) (drop r mem)

pub length-window :
    (mem : Bytes) (r w : ℕ) → r ≤ w → w ≤ length mem → length (window mem r w) ≡ w - r
length-window mem r w h k = omega (arith, length-take (w - r) (drop r mem), length-drop r mem)

pub read_at-window :
    (mem : Bytes) (r w : ℕ) → r ≤ w → w ≤ length mem → read_at mem r (w - r) ≡ some (window mem r w)
unfolding read_at
read_at-window mem r w h k = ground arith

pub read_at-eq :
    (mem : Bytes) (i n : ℕ) → i + n ≤ length mem → read_at mem i n ≡ some (take n (drop i mem))
unfolding read_at
read_at-eq mem i n h = ground arith

-- A read past the end of the vector is a fault.
pub read_at-past : (mem : Bytes) (i n : ℕ) → length mem < i + n → read_at mem i n ≡ none
unfolding read_at
read_at-past mem i n h = ground arith

pub copy_to-eq :
    (mem : Bytes) (i : ℕ) (bytes : Bytes)
    → i + length bytes ≤ length mem
    → copy_to mem i bytes ≡ some (take i mem ++ (bytes ++ drop (i + length bytes) mem))
unfolding copy_to
copy_to-eq mem i bytes h = ground arith

-- Growing the vector keeps what it holds.
pub window-resize :
    (mem : Bytes) (n r w : ℕ)
    → r ≤ w
    → w ≤ length mem
    → length mem ≤ n
    → window (resize mem n) r w ≡ window mem r w
unfolding resize
window-resize mem n r w h k m =
    rw (take_all n mem m, drop-append_le r mem (replicate (n - length mem) 0) (omega arith))
      (take-append_le (w - r) (drop r mem) (replicate (n - length mem) 0)
        (omega (arith, length-drop r mem)))

abbrev pub copied : Bytes → ℕ → Bytes → Bytes
copied mem i bytes = take i mem ++ (bytes ++ drop (i + length bytes) mem)

pub length-copied :
    (mem : Bytes) (i : ℕ) (bytes : Bytes)
    → i + length bytes ≤ length mem
    → length (copied mem i bytes) ≡ length mem
length-copied mem i bytes h = omega (
  arith,
  length-append (take i mem) (bytes ++ drop (i + length bytes) mem),
  length-append bytes (drop (i + length bytes) mem),
  length-take i mem,
  length-drop (i + length bytes) mem,
)

-- A copy just behind a window extends it.
pub window-copied :
    (mem : Bytes) (r w : ℕ) (bytes : Bytes)
    → r ≤ w
    → w + length bytes ≤ length mem
    → window (copied mem w bytes) r (w + length bytes) ≡ window mem r w ++ bytes
window-copied mem r w bytes h k =
    rw
      (
        drop-append_le r (take w mem) (bytes ++ tail) (omega (arith, length-take w mem)),
        drop-take r w mem,
        ← append_assoc,
      )
      (take-append (w + length bytes - r) (window mem r w ++ bytes) tail (
        omega (arith, length-append (window mem r w) bytes, length-window mem r w h (omega arith))))
  where
    tail : Bytes
    tail = drop (w + length bytes) mem

-- A copy at an index makes the window there.
pub window-copied_at :
    (mem : Bytes) (i : ℕ) (bytes : Bytes)
    → i + length bytes ≤ length mem
    → window (copied mem i bytes) i (i + length bytes) ≡ bytes
window-copied_at mem i bytes h =
    rw
      (drop-append i (take i mem) (bytes ++ drop (i + length bytes) mem)
        (omega (arith, length-take i mem)))
      (take-append (i + length bytes - i) bytes (drop (i + length bytes) mem) (omega arith))
