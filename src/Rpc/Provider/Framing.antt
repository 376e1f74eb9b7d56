-- ===== src/Rpc/Provider/Framing.antt =====
-- What one round of `OnMessage` reads of a buffer that begins with a whole request.
use mprpc_main.Common.{
  ◌+◌, ◌^◌, ◌≤◌, ◌<◌, ◌≡◌, ◌++◌, refl, sym, ap, ◌∙◌, some, Bytes, length, take, drop, le→ltb, arith,
  add_u32, length-append, take-append, drop-append, drop-append_le, drop-drop, append_assoc, [],
  inl, inr, Bool-cases, append-nil, take-append_le, length-drop, ltb, lt→ltb, true,
}
use mprpc_main.Muduo.Buffer
use mprpc_main.Muduo.Buffer.{Buffer}
use mprpc_main.Muduo.Buffer.Invariant.{IsValid, contents, readable_bytes-length, peek_at_lem}
use mprpc_main.Rpc.Wire.{
  RpcHeader, HeaderCodec, encode_u32, decode_u32-encode_u32, length-encode_u32, frame,
}
use mprpc_main.Rpc.Provider.{ServiceMap, stop, go, ◌>>=◌, dispatch, handle_request}

-- The parts of a request, by their offsets.
module _ (hs args rest c : Bytes) (e : c ≡ frame hs args ++ rest) (short : length hs < 2 ^ 32) where
  flat : c ≡ encode_u32 (length hs) ++ (hs ++ (args ++ rest))
  unfolding frame
  flat =
      e
      ∙ rw (append_assoc, append_assoc)
          (ap (λ n. encode_u32 n ++ (hs ++ (args ++ rest))) (omega arith))

  pub length-frame : length c ≡ 4 + length hs + length args + length rest
  length-frame = omega (
    arith,
    ap length flat,
    length-append (encode_u32 (length hs)) (hs ++ (args ++ rest)),
    length-encode_u32 (length hs),
    length-append hs (args ++ rest),
    length-append args rest,
  )

  behind_size : drop 4 c ≡ hs ++ (args ++ rest)
  behind_size = rw flat (drop-append 4 (encode_u32 (length hs)) _ (length-encode_u32 (length hs)))

  behind_header : drop (4 + length hs) c ≡ args ++ rest
  behind_header =
      sym (drop-drop (length hs) 4 (4 + length hs) c refl)
      ∙ ap (drop (length hs)) behind_size
      ∙ drop-append (length hs) hs (args ++ rest) refl

  pub size_part : take 4 (drop 0 c) ≡ encode_u32 (length hs)
  size_part = rw flat (take-append 4 (encode_u32 (length hs)) _ (length-encode_u32 (length hs)))

  pub header_part : take (length hs) (drop 4 c) ≡ hs
  header_part = rw behind_size (take-append (length hs) hs _ refl)

  pub args_part : take (length args) (drop (4 + length hs) c) ≡ args
  args_part = rw behind_header (take-append (length args) args rest refl)

  pub rest_part : drop (4 + length hs + length args) c ≡ rest
  rest_part =
      sym (drop-drop (length args) (4 + length hs) (4 + length hs + length args) c refl)
      ∙ ap (drop (length args)) behind_header
      ∙ drop-append (length args) args rest refl

module _ (codec : HeaderCodec) (services : ServiceMap) where
  -- A round on a whole request dispatches its header and arguments, and retrieves just the request.
  pub handle_request-frame :
      (header : RpcHeader) (hs args rest : Bytes) (b : Buffer)
      → IsValid b
      → contents b ≡ frame hs args ++ rest
      → codec.serialize header ≡ some hs
      → header.args_size ≡ length args
      → 4 + length hs + length args < 2 ^ 32
      → handle_request codec services b ≡ (
          dispatch codec services header args >>= λ es.
          go (es, Buffer.retrieve (4 + length hs + length args) b))
  unfolding handle_request
  handle_request-frame header hs args rest b v e s a small = rw (
    le→ltb (Buffer.readable_bytes b) 4 (omega (arith, size)),
    peek_size,
    decode_u32-encode_u32 (length hs) short,
    start,
    le→ltb (Buffer.readable_bytes b) (4 + length hs) (omega (arith, size)),
    peek_header,
    codec.parse-serialize header hs (omega arith) s,
    total,
    le→ltb (Buffer.readable_bytes b) (4 + length hs + length args) (omega (arith, size)),
    peek_args,
  )
    where
      short : length hs < 2 ^ 32
      short = omega arith

      size : Buffer.readable_bytes b ≡ 4 + length hs + length args + length rest
      size = readable_bytes-length b v ∙ length-frame hs args rest (contents b) e short

      start : add_u32 4 (length hs) ≡ 4 + length hs
      start = omega arith

      total : add_u32 (4 + length hs) header.args_size ≡ 4 + length hs + length args
      total = omega arith

      fits : 4 + length hs + length args ≤ length (contents b)
      fits = omega (arith, length-frame hs args rest (contents b) e short)

      peek_size : Buffer.peek_at b 0 4 ≡ some (encode_u32 (length hs))
      peek_size =
          peek_at_lem 0 4 v (omega (arith, fits))
          ∙ ap some (size_part hs args rest (contents b) e short)

      peek_header : Buffer.peek_at b 4 (length hs) ≡ some hs
      peek_header =
          peek_at_lem 4 (length hs) v (omega (arith, fits))
          ∙ ap some (header_part hs args rest (contents b) e short)

      peek_args : Buffer.peek_at b (4 + length hs) header.args_size ≡ some args
      peek_args =
          ap (Buffer.peek_at b (4 + length hs)) a
          ∙ peek_at_lem (4 + length hs) (length args) v (omega (arith, fits))
          ∙ ap some (args_part hs args rest (contents b) e short)

  -- A buffer that holds a proper prefix of one request makes the round stop with no effect: `c` is
  -- the prefix, `more` what has not arrived yet.
  pub handle_request-partial :
      (header : RpcHeader) (hs args more : Bytes) (b : Buffer)
      → IsValid b
      → contents b ++ more ≡ frame hs args
      → 0 < length more
      → codec.serialize header ≡ some hs
      → header.args_size ≡ length args
      → 4 + length hs + length args < 2 ^ 32
      → handle_request codec services b ≡ stop []
  unfolding handle_request
  handle_request-partial header hs args more b v e some_more s a small =
      elim (Bool-cases (ltb (Buffer.readable_bytes b) 4)) [
        | inl few ↦ rw few
        | inr four ↦
            let enough : 4 ≤ length c = ground (arith, readable_bytes-length b v) in
            rw (four, peek_size enough, decode_u32-encode_u32 (length hs) short, start)
              (elim (Bool-cases (ltb (Buffer.readable_bytes b) (4 + length hs))) [
                | inl cut ↦ rw cut
                | inr whole ↦ rw (
                  whole,
                  peek_header (ground (arith, readable_bytes-length b v)),
                  codec.parse-serialize header hs (omega arith) s,
                  total,
                  late,
                )
              ])
      ]
    where
      c : Bytes
      c = contents b

      full : c ++ more ≡ frame hs args ++ []
      full = e ∙ sym (append-nil (frame hs args))

      short : length hs < 2 ^ 32
      short = omega arith

      size : length c + length more ≡ 4 + length hs + length args
      size = omega (arith, length-append c more, length-frame hs args [] (c ++ more) full short)

      start : add_u32 4 (length hs) ≡ 4 + length hs
      start = omega arith

      total : add_u32 (4 + length hs) header.args_size ≡ 4 + length hs + length args
      total = omega arith

      late : ltb (Buffer.readable_bytes b) (4 + length hs + length args) ≡ true
      late = lt→ltb _ _ (omega (arith, size, readable_bytes-length b v))

      peek_size : 4 ≤ length c → Buffer.peek_at b 0 4 ≡ some (encode_u32 (length hs))
      peek_size h =
          peek_at_lem 0 4 v (omega arith)
          ∙ ap some (sym (take-append_le 4 c more h) ∙ size_part hs args [] (c ++ more) full short)

      peek_header : 4 + length hs ≤ length c → Buffer.peek_at b 4 (length hs) ≡ some hs
      peek_header h =
          peek_at_lem 4 (length hs) v (omega arith)
          ∙ ap some (
              sym (take-append_le (length hs) (drop 4 c) more (omega (arith, length-drop 4 c)))
              ∙ ap (take (length hs)) (sym (drop-append_le 4 c more (omega arith)))
              ∙ header_part hs args [] (c ++ more) full short)
