-- ===== src/Muduo/Buffer/Tests.antt =====
-- Runs of mymuduo-main/src/Buffer.cpp on small buffers.
use mprpc_main.Common.{ℕ, ◌≡◌, refl, arith, [], ◌∷◌, ◌++◌, codes, replicate, length, drop}
use mprpc_main.Muduo.Buffer
use mprpc_main.Muduo.Buffer.{Buffer, ReadResult, got}
use mprpc_main.Muduo.Buffer.Invariant.{IsValid, contents, contents-retrieve, readable_bytes-length}
use mprpc_main.Muduo.Buffer.ReadFd.{Received, read_fd-Received}

-- Two bytes were retrieved already, three are readable, and two are writable.
abbrev half_full : Buffer
half_full = record {
  buffer = replicate 10 0 ++ (1 ∷ 2 ∷ 3 ∷ 0 ∷ 0 ∷ []);
  reader_index = 10;
  writer_index = 13;
}

half_full-IsValid : IsValid half_full
half_full-IsValid = omega arith

contents-retrieve_example : contents (Buffer.retrieve 2 half_full) ≡ drop 2 (contents half_full)
contents-retrieve_example = contents-retrieve 2 half_full half_full-IsValid

readable_bytes-length_example : Buffer.readable_bytes half_full ≡ length (contents half_full)
readable_bytes-length_example = readable_bytes-length half_full half_full-IsValid

abbrev readv_four : ℕ → ReadResult
readv_four room = got (codes "abcd")

-- Two of the four bytes go to the stack buffer.
read_fd-Received_example : Received half_full (codes "abcd") (Buffer.read_fd readv_four half_full)
read_fd-Received_example =
    read_fd-Received readv_four (codes "abcd") half_full half_full-IsValid refl (omega arith)
