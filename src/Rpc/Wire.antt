-- ===== src/Rpc/Wire.antt =====
-- The request format of mprpc-main/src/mprpcchannel.cc and rpcprovider.cc: four bytes of header
-- size, the protobuf `RpcHeader`, and the arguments. `memcpy` reads the size in the order of a
-- little-endian host.
pub mod Example
use mprpc_main.Common.{
  ℕ, ◌+◌, ◌*◌, ◌/◌, ◌%◌, ◌^◌, ◌<◌, ◌≡◌, refl, Option, some, List, [], ◌∷◌, ◌++◌, Bytes, length,
  arith,
}

-- `mprpc::RpcHeader`.
pub record RpcHeader : Type 0 where
  pub service_name : Bytes
  pub method_name : Bytes
  pub args_size : ℕ

-- The generated class of mprpc.proto: `SerializeToString` and `ParseFromString`. What is written
-- can be read again, and `args_size` is a `uint32`.
pub record HeaderCodec : Type 0 where
  pub serialize : RpcHeader → Option Bytes
  pub parse : Bytes → Option RpcHeader
  pub parse-serialize :
      (h : RpcHeader) (s : Bytes) → h.args_size < 2 ^ 32 → serialize h ≡ some s → parse s ≡ some h
  pub args_size-lt : (s : Bytes) (h : RpcHeader) → parse s ≡ some h → h.args_size < 2 ^ 32

-- `std::string((char *)&header_size, 4)`.
unfoldable pub encode_u32 : ℕ → Bytes
encode_u32 n = (n % 256) ∷ (n / 256 % 256) ∷ (n / 65536 % 256) ∷ (n / 16777216 % 256) ∷ []

-- `memcpy(&header_size, data, 4)`.
unfoldable pub decode_u32 : Bytes → ℕ
decode_u32 (a ∷ b ∷ c ∷ d ∷ _) = (a + 256 * b + 65536 * c + 16777216 * d) % 2 ^ 32
decode_u32 _ = 0

pub length-encode_u32 : (n : ℕ) → length (encode_u32 n) ≡ 4
unfolding encode_u32
length-encode_u32 n = refl

-- The size that the caller writes is the size that the provider reads.
pub decode_u32-encode_u32 : (n : ℕ) → n < 2 ^ 32 → decode_u32 (encode_u32 n) ≡ n
unfolding encode_u32 decode_u32
decode_u32-encode_u32 n h = omega arith

pub decode_u32-lt : (s : Bytes) → decode_u32 s < 2 ^ 32
unfolding decode_u32
decode_u32-lt [] = omega arith
decode_u32-lt (a ∷ []) = omega arith
decode_u32-lt (a ∷ b ∷ []) = omega arith
decode_u32-lt (a ∷ b ∷ c ∷ []) = omega arith
decode_u32-lt (a ∷ b ∷ c ∷ d ∷ s) = omega arith

-- `send_rpc_str`: the header's size is converted to `uint32_t`.
unfoldable pub frame : Bytes → Bytes → Bytes
frame header args = encode_u32 (length header % 2 ^ 32) ++ (header ++ args)
