-- ===== src/Rpc/Provider/Stream.antt =====
-- `OnMessage` over a stream of requests: packets that stick together or arrive in halves.
use mprpc_main.Common.{
  ℕ, zero, suc, ◌+◌, ◌^◌, ◌≤◌, ◌<◌, ◌≡◌, ◌++◌, refl, ap, ◌∙◌, some, Bytes, List, [], ◌∷◌, length,
  arith, length-append, append_assoc, ◌⊎◌, inl, inr, Bool-cases, Option-cases, find, bytes_key,
  lt→ltb,
}
use mprpc_main.Muduo.Buffer
use mprpc_main.Muduo.Buffer.{Buffer}
use mprpc_main.Muduo.Buffer.Invariant.{
  IsValid, contents, readable_bytes-length, contents-retrieve, retrieve-IsValid,
}
use mprpc_main.Rpc.Wire.{RpcHeader, HeaderCodec, frame}
use mprpc_main.Rpc.Provider.{
  ServiceMap, Effect, shutdown, Flow, fault, stop, go, ◌>>=◌, dispatch, handle_request, on_message,
  message_loop, send_rpc_response, Outcome, returned, after,
}
use mprpc_main.Rpc.Provider.Framing.{
  handle_request-frame, handle_request-partial, length-frame, rest_part,
}

-- A request as the caller built it: the header, its serialized form and the arguments.
pub record Request : Type 0 where
  pub header : RpcHeader
  pub hs : Bytes
  pub args : Bytes

abbrev pub wire : List Request → Bytes
wire [] = []
wire (r ∷ rs) = frame r.hs r.args ++ wire rs

module _ (codec : HeaderCodec) where
  pub record WellFormed (r : Request) : Type 0 where
    pub serialized : codec.serialize r.header ≡ some r.hs
    pub sized : r.header.args_size ≡ length r.args
    pub small : 4 + length r.hs + length r.args < 2 ^ 32

  abbrev pub AllWellFormed : List Request → Type 0
  AllWellFormed [] = Unit {0}
  AllWellFormed (r ∷ rs) = WellFormed r × AllWellFormed rs

  -- What has arrived of the request behind the whole ones: nothing, or a proper prefix.
  pub data Pending (rest : Bytes) : Type 0 where
    nothing : rest ≡ [] → Pending rest
    half :
        (r : Request) (more : Bytes)
        → WellFormed r
        → rest ++ more ≡ frame r.hs r.args
        → 0 < length more
        → Pending rest

  module _ (services : ServiceMap) where
    -- The specification: requests are dispatched in order, and their effects are joined, up to the
    -- first that is refused. The bytes that stay are those from the refused request on, or `rest`.
    unfoldable pub serve : List Request → Bytes → List Effect × Bytes
    serve [] rest = ([], rest)
    serve (r ∷ rs) rest =
        let later = serve rs rest in
        elim (dispatch codec services r.header r.args) [
          | stop es ↦ (es, frame r.hs r.args ++ (wire rs ++ rest))
          | fault ↦ ([], rest)
          | go es ↦ (es ++ later.0, later.1)
        ]

    -- The loop has returned with these effects, and these bytes are left.
    pub record Returns (spec : List Effect × Bytes) (out : Outcome) : Type 0 where
      pub left : Buffer
      pub returns : out ≡ returned spec.0 left
      pub valid : IsValid left
      pub remaining : contents left ≡ spec.1

    -- `dispatch` reads no memory of the buffer.
    dispatch-cases :
        (h : RpcHeader) (args : Bytes)
        → ((es : List Effect) × (dispatch codec services h args ≡ stop es))
          ⊎ ((es : List Effect) × (dispatch codec services h args ≡ go es))
    unfolding dispatch
    dispatch-cases h args = elim (Option-cases (find h.service_name services)) [
      | inl e ↦ inl (shutdown ∷ [], rw e)
      | inr (info, e) ↦ rw e (elim (Option-cases (find h.method_name info.method_map)) [
        | inl f ↦ inl (shutdown ∷ [], rw f)
        | inr (method, f) ↦ rw f (elim (Bool-cases (info.service.parses method args)) [
          | inl t ↦ inr (send_rpc_response (info.service.call_method method args), rw t)
          | inr t ↦ inl (shutdown ∷ [], rw t)
        ])
      ])
    ]

    handle_request-empty :
        (b : Buffer) → IsValid b → contents b ≡ [] → handle_request codec services b ≡ stop []
    unfolding handle_request
    handle_request-empty b v e =
        rw (
          lt→ltb (Buffer.readable_bytes b) 4
            (omega (arith, readable_bytes-length b v, ap length e)))

    handle_request-Pending :
        (rest : Bytes) (b : Buffer)
        → IsValid b
        → contents b ≡ rest
        → Pending rest
        → handle_request codec services b ≡ stop []
    handle_request-Pending rest b v e (nothing f) = handle_request-empty b v (e ∙ f)
    handle_request-Pending rest b v e (half r more w f m) =
        handle_request-partial codec services r.header r.hs r.args more b v
          (ap (λ c. c ++ more) e ∙ f) m w.serialized w.sized w.small

    stopped :
        (es : List Effect) (fuel : ℕ) (b : Buffer)
        → handle_request codec services b ≡ stop es
        → message_loop codec services (suc fuel) b ≡ returned es b
    unfolding message_loop
    stopped es fuel b e = rw (e, message_loop)

    went_on :
        (es : List Effect) (fuel : ℕ) (b b' : Buffer)
        → handle_request codec services b ≡ go (es, b')
        → message_loop codec services (suc fuel) b ≡ after es (message_loop codec services fuel b')
    unfolding message_loop
    went_on es fuel b b' e = rw (e, message_loop)

    message_loop-Returns :
        (rs : List Request) (fuel : ℕ) (rest : Bytes) (b : Buffer)
        → IsValid b
        → contents b ≡ wire rs ++ rest
        → AllWellFormed rs
        → Pending rest
        → length rs < fuel
        → Returns (serve rs rest) (message_loop codec services fuel b)
    unfolding serve
    message_loop-Returns rs zero rest b v e w p f = absurd (omega arith)
    message_loop-Returns [] (suc fuel) rest b v e w p f = record {
      left = b;
      returns = stopped [] fuel b (handle_request-Pending rest b v e p);
      valid = v;
      remaining = e;
    }
    message_loop-Returns (r ∷ rs) (suc fuel) rest b v e w p f =
        elim (dispatch-cases r.header r.args) [
          | inl (es, d) ↦
              rw (d, serve)
                (record {
                  left = b;
                  returns = stopped es fuel b (round ∙ ap (λ m. m >>= next) d);
                  valid = v;
                  remaining = split;
                })
          | inr (es, d) ↦
              rw (d, serve)
                (joined es (round ∙ ap (λ m. m >>= next) d) (
                  message_loop-Returns rs fuel rest b' (retrieve-IsValid n b v) shorter w.1 p
                    (omega arith)))
        ]
      where
        n : ℕ
        n = 4 + length r.hs + length r.args

        b' : Buffer
        b' = Buffer.retrieve n b

        next : List Effect → Flow (List Effect × Buffer)
        next es = go (es, b')

        split : contents b ≡ frame r.hs r.args ++ (wire rs ++ rest)
        split = e ∙ append_assoc (frame r.hs r.args) (wire rs) rest

        round : handle_request codec services b ≡ (dispatch codec services r.header r.args >>= next)
        round =
            handle_request-frame codec services r.header r.hs r.args (wire rs ++ rest) b v split
              w.0.serialized w.0.sized w.0.small

        shorter : contents b' ≡ wire rs ++ rest
        shorter =
            contents-retrieve n b v
            ∙ rest_part r.hs r.args (wire rs ++ rest) (contents b) split (omega (arith, w.0.small))

        joined :
            (es : List Effect)
            → handle_request codec services b ≡ go (es, b')
            → Returns (serve rs rest) (message_loop codec services fuel b')
            → Returns
                (es ++ (serve rs rest).0, (serve rs rest).1)
                (message_loop codec services (suc fuel) b)
        joined es g ih = record {
          left = ih.left;
          returns = went_on es fuel b b' g ∙ ap (after es) ih.returns;
          valid = ih.valid;
          remaining = ih.remaining;
        }

    length-wire : (rs : List Request) → AllWellFormed rs → length rs ≤ length (wire rs)
    length-wire [] w = omega arith
    length-wire (r ∷ rs) w = omega (
      arith,
      length-wire rs w.1,
      length-frame r.hs r.args (wire rs) (wire (r ∷ rs)) refl (omega (arith, w.0.small)),
    )

    -- `OnMessage` on a valid buffer that holds any number of whole requests, one behind the other,
    -- and then nothing or a part of one more: it returns, it dispatches them as `serve` says, in
    -- order, and leaves just the bytes that `serve` leaves. The rounds allowed are enough.
    pub on_message-Returns :
        (rs : List Request) (rest : Bytes) (b : Buffer)
        → IsValid b
        → contents b ≡ wire rs ++ rest
        → AllWellFormed rs
        → Pending rest
        → Returns (serve rs rest) (on_message codec services b)
    unfolding on_message
    on_message-Returns rs rest b v e w p =
        message_loop-Returns rs (suc (Buffer.readable_bytes b)) rest b v e w p (
          omega (
            arith,
            length-wire rs w,
            readable_bytes-length b v,
            ap length e,
            length-append (wire rs) rest,
          ))
