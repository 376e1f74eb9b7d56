-- ===== src/Rpc/Provider/Wrap.antt =====
-- `OnMessage` on arbitrary bytes: every loop ends, and a header size near 2 ^ 32 wraps the checks.
use mprpc_main.Common.{
  ℕ, zero, suc, ◌+◌, ◌^◌, ◌≤◌, ◌<◌, ◌≡◌, ◌≢◌, ap, refl, Option, some, none, Bytes, List, [], length,
  take, ltb, arith, add_u32, le→ltb, Bool, true, false, length-drop,
}
use mprpc_main.Muduo.Buffer
use mprpc_main.Muduo.Buffer.{Buffer}
use mprpc_main.Muduo.Buffer.Invariant.{
  IsValid, contents, readable_bytes-length, peek_at_lem, contents-retrieve, retrieve-IsValid,
  peek_at_past, peek_at_bound, length-buffer-retrieve,
}
use mprpc_main.Rpc.Wire.{HeaderCodec, decode_u32, decode_u32-lt}
use mprpc_main.Rpc.Provider.{
  ServiceMap, Effect, Flow, fault, stop, go, ◌>>=◌, dispatch, handle_request, on_message,
  message_loop, Outcome, returned, after, faulted, out_of_fuel, stop_if, or_fault, or_shutdown,
}

>>=-eq-go {ℓ κ} :
    {A : Type ℓ} {B : Type κ} (m : Flow A) (f : A → Flow B) {b : B}
    → (m >>= f) ≡ go b
    → (a : A) × (m ≡ go a) × (f a ≡ go b)
>>=-eq-go (stop es) f h = cc
>>=-eq-go fault f h = cc
>>=-eq-go (go a) f h = (a, λ i. go a, h)

or_fault-eq-go : (o : Option Bytes) {s : Bytes} → or_fault o ≡ go s → o ≡ some s
or_fault-eq-go none h = cc
or_fault-eq-go (some a) h = cc

stop_if-false : (t : Bool) {u : Unit {0}} → stop_if t [] ≡ go u → t ≡ false
stop_if-false true h = cc
stop_if-false false h = refl

go-snd : {A B : Type 0} {a c : A} {b d : B} → ◌≡◌ {A = Flow (A × B)} (go (a, b)) (go (c, d)) → b ≡ d
go-snd h = cc

after-eq-out_of_fuel : (es : List Effect) (o : Outcome) → after es o ≡ out_of_fuel → o ≡ out_of_fuel
after-eq-out_of_fuel es (returned fs b) h = cc
after-eq-out_of_fuel es faulted h = cc
after-eq-out_of_fuel es out_of_fuel h = refl

module _ (codec : HeaderCodec) (services : ServiceMap) where
  handle_request-fault :
      (b : Buffer)
      → IsValid b
      → length b.buffer < 2 ^ 32
      → 4 ≤ length (contents b)
      → 2 ^ 32 ≤ 4 + decode_u32 (take 4 (contents b))
      → handle_request codec services b ≡ fault
  unfolding handle_request
  handle_request-fault b v small four big = rw (
    le→ltb (Buffer.readable_bytes b) 4 (omega (arith, readable_bytes-length b v)),
    peek_at_lem 0 4 v four,
    le→ltb (Buffer.readable_bytes b) (add_u32 4 (decode_u32 (take 4 (contents b))))
        (omega (arith, readable_bytes-length b v, decode_u32-lt (take 4 (contents b)))),
    peek_at_past b 4 (decode_u32 (take 4 (contents b))) (omega arith),
  )

  -- If the four bytes of header size hold a number that is within four of 2 ^ 32, and the vector
  -- is smaller than that, `4 + header_size` wraps below the four readable bytes: the check for a
  -- whole header passes, and `OnMessage` reads the header outside of the vector.
  pub on_message-faulted :
      (b : Buffer)
      → IsValid b
      → length b.buffer < 2 ^ 32
      → 4 ≤ length (contents b)
      → 2 ^ 32 ≤ 4 + decode_u32 (take 4 (contents b))
      → on_message codec services b ≡ faulted
  unfolding on_message message_loop
  on_message-faulted b v small four big = rw (handle_request-fault b v small four big, message_loop)

  -- A round that goes on leaves a valid buffer with fewer readable bytes.
  handle_request-shrinks :
      (b : Buffer) (es : List Effect) (b' : Buffer)
      → IsValid b
      → length b.buffer < 2 ^ 32
      → handle_request codec services b ≡ go (es, b')
      → IsValid b'
        × (length b'.buffer < 2 ^ 32)
        × (Buffer.readable_bytes b' < Buffer.readable_bytes b)
  unfolding handle_request
  handle_request-shrinks b es b' v small e0 =
      let (u0, p0, e1) = >>=-eq-go (stop_if (ltb readable 4) []) _ e0 in
      let (size, p1, e2) = >>=-eq-go (or_fault (Buffer.peek_at b 0 4)) _ e1 in
      let hs = decode_u32 size in
      let (u2, p2, e3) = >>=-eq-go (stop_if (ltb readable (add_u32 4 hs)) []) _ e2 in
      let (text, p3, e4) = >>=-eq-go (or_fault (Buffer.peek_at b 4 hs)) _ e3 in
      let (header, p4, e5) = >>=-eq-go (or_shutdown (codec.parse text)) _ e4 in
      let total = add_u32 (add_u32 4 hs) header.args_size in
      let (u5, p5, e6) = >>=-eq-go (stop_if (ltb readable total) []) _ e5 in
      let (args, p6, e7) = >>=-eq-go (or_fault (Buffer.peek_at b (4 + hs) header.args_size)) _ e6 in
      let (fs, p7, e8) = >>=-eq-go (dispatch codec services header args) _ e7 in
      shrunk total
        (omega (
          arith,
          peek_at_bound b 4 hs (or_fault-eq-go _ p3),
          peek_at_bound b (4 + hs) header.args_size (or_fault-eq-go _ p6),
        ))
        (stop_if-false (ltb readable 4) p0) (go-snd e8)
    where
      readable : ℕ
      readable = Buffer.readable_bytes b

      shrunk :
          (total : ℕ)
          → 4 ≤ total
          → ltb readable 4 ≡ false
          → Buffer.retrieve total b ≡ b'
          → IsValid b' × (length b'.buffer < 2 ^ 32) × (Buffer.readable_bytes b' < readable)
      shrunk total four enough e = rw (← e) (
        retrieve-IsValid total b v,
        omega (arith, length-buffer-retrieve total b),
        ground (
          arith,
          readable_bytes-length b v,
          readable_bytes-length (Buffer.retrieve total b) (retrieve-IsValid total b v),
          ap length (contents-retrieve total b v),
          length-drop total (contents b),
        ),
      )

  round-ends :
      (fuel : ℕ) (b : Buffer) (m : Flow (List Effect × Buffer))
      → handle_request codec services b ≡ m
      → ((es : List Effect) (b' : Buffer)
          → m ≡ go (es, b')
          → message_loop codec services fuel b' ≢ out_of_fuel)
      → message_loop codec services (suc fuel) b ≢ out_of_fuel
  unfolding message_loop
  round-ends fuel b (stop es) e later = rw (e, message_loop) (λ h. cc)
  round-ends fuel b fault e later = rw (e, message_loop) (λ h. cc)
  round-ends fuel b (go (es, b')) e later =
      rw (e, message_loop) (λ h. later es b' refl (after-eq-out_of_fuel es _ h))

  message_loop-ends :
      (fuel : ℕ) (b : Buffer)
      → IsValid b
      → length b.buffer < 2 ^ 32
      → Buffer.readable_bytes b < fuel
      → message_loop codec services fuel b ≢ out_of_fuel
  message_loop-ends zero b v small h = absurd (omega arith)
  message_loop-ends (suc fuel) b v small h =
      round-ends fuel b (handle_request codec services b) refl λ es b' e.
        let (v', small', fewer) = handle_request-shrinks b es b' v small e in
        message_loop-ends fuel b' v' small' (omega arith)

  -- Whatever bytes a client sends, `OnMessage` on a valid buffer of less than 2 ^ 32 bytes comes
  -- to an end within the rounds allowed: it returns or faults.
  pub on_message-ends :
      (b : Buffer)
      → IsValid b
      → length b.buffer < 2 ^ 32
      → on_message codec services b ≢ out_of_fuel
  unfolding on_message
  on_message-ends b v small =
      message_loop-ends (suc (Buffer.readable_bytes b)) b v small (omega arith)
