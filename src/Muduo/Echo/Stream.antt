-- ===== src/Muduo/Echo/Stream.antt =====
-- What the echo server sends is what it has received.
use mprpc_main.Common.{
  ℕ, ◌+◌, ◌^◌, ◌<◌, ◌≡◌, ◌≢◌, sym, ap, subst, ◌∙◌, true, some, [], ◌∷◌, ◌++◌, Bytes, length,
  append_assoc, append-nil, ◌>>=◌,
}
use mprpc_main.Muduo.Buffer.{ReadResult, got, read_capacity, retrieve_all}
use mprpc_main.Muduo.Buffer.Invariant.{
  IsValid, contents, retrieve_all_as_string_lem, retrieve_all-IsValid, contents-retrieve_all,
}
use mprpc_main.Muduo.Buffer.ReadFd.{read_fd-Received}
use mprpc_main.Muduo.Connection.{
  Connection, connected, WriteResult, broken_pipe, handle_write, send, message_callback,
}
use mprpc_main.Muduo.Connection.Stream.{stream, IsSound, send_in_loop-Delivered}
use mprpc_main.Muduo.Connection.Writing.{handle_write-Delivered}
use mprpc_main.Muduo.Connection.Lifecycle.{send_in_loop-state, handle_write-state}
use mprpc_main.Muduo.Connection.Input.{
  send-connected, handle_read-got, send_in_loop-input, handle_write-input,
}
use mprpc_main.Muduo.Echo.{on_message, if_read, serve}

-- A connection of the server between two events: everything that came in has been taken.
pub record IsServed (c : Connection) : Type 0 where
  pub open_state : c.state ≡ connected
  pub sound : IsSound c
  pub input_valid : IsValid c.input
  pub taken : contents c.input ≡ []

-- `onMessage` sends all of the input buffer.
on_message-Delivered :
    (write : Bytes → WriteResult) (bytes : Bytes) (c : Connection)
    → c.state ≡ connected
    → IsSound c
    → IsValid c.input
    → contents c.input ≡ bytes
    → write bytes ≢ broken_pipe
    → length c.output.buffer + length bytes < 2 ^ 63
    → (c' : Connection) × (on_message write c ≡ some c')
      × IsServed c'
      × (stream c' ≡ stream c ++ bytes)
unfolding on_message
on_message-Delivered write bytes c o s v e ne fits =
    let emptied = record c { input = retrieve_all c.input } in
    let (sends, live) = send-connected write bytes emptied o in
    let sound : IsSound emptied = record { valid = s.valid; bits = s.bits; awaited = s.awaited } in
    let d = send_in_loop-Delivered write bytes emptied live ne sound fits in
    let returns = sends ∙ d.returns in
    let kept = send_in_loop-input write bytes emptied {c' = d.after} d.returns in
    (
      d.after,
      ap (λ r. r >>= λ q. send true write q.0 (record c { input = q.1 }))
            (retrieve_all_as_string_lem c.input v)
          ∙ ap (λ m. send true write m emptied) e
          ∙ returns,
      record {
        open_state = (send_in_loop-state write bytes emptied {c' = d.after} d.returns).0 ∙ o;
        sound = d.sound;
        input_valid = subst IsValid (sym kept) (retrieve_all-IsValid c.input v);
        taken = ap contents kept ∙ contents-retrieve_all c.input;
      },
      d.streamed,
    )

-- What the kernel and the peer do to a connection of the server that is ready: it receives bytes,
-- or can be written to.
pub data Served (c : Connection) : Bytes → Connection → Type 0 where
  begun : Served c [] c
  received :
      {taken : Bytes} {c' : Connection}
      → Served c taken c'
      → (readv : ℕ → ReadResult) (write : Bytes → WriteResult) (x : ℕ) (xs : Bytes)
      → readv (read_capacity c'.input) ≡ got (x ∷ xs)
      → write (x ∷ xs) ≢ broken_pipe
      → length c'.input.buffer + length (x ∷ xs) < 2 ^ 63
      → length c'.output.buffer + length (x ∷ xs) < 2 ^ 63
      → (c'' : Connection) → serve readv write c' ≡ some c''
      → Served c (taken ++ (x ∷ xs)) c''
  flushed :
      {taken : Bytes} {c' : Connection}
      → Served c taken c'
      → (write : Bytes → WriteResult) (c'' : Connection) → handle_write write c' ≡ some c''
      → Served c taken c''

-- One event for reading.
serve-IsServed :
    (readv : ℕ → ReadResult) (write : Bytes → WriteResult) (x : ℕ) (xs : Bytes) (c : Connection)
    → readv (read_capacity c.input) ≡ got (x ∷ xs)
    → write (x ∷ xs) ≢ broken_pipe
    → length c.input.buffer + length (x ∷ xs) < 2 ^ 63
    → length c.output.buffer + length (x ∷ xs) < 2 ^ 63
    → IsServed c
    → (c' : Connection) × (serve readv write c ≡ some c')
      × IsServed c'
      × (stream c' ≡ stream c ++ (x ∷ xs))
unfolding serve if_read
serve-IsServed readv write x xs c e ne small fits s =
    let r = read_fd-Received readv (x ∷ xs) c.input s.input_valid e small in
    let read = record c { input = r.after; called = c.called ++ (message_callback ∷ []) } in
    let sound : IsSound read = record {
      valid = s.sound.valid;
      bits = s.sound.bits;
      awaited = s.sound.awaited;
    } in
    let (c', f, served, streamed) =
      on_message-Delivered write (x ∷ xs) read s.open_state sound r.valid
        (r.joined ∙ ap (λ b. b ++ (x ∷ xs)) s.taken) ne fits in
    (
      c',
      ap (λ m. m >>= if_read (readv (read_capacity c.input)) write)
            (handle_read-got readv x xs r.after c r.returns)
          ∙ ap (λ o. if_read o write read) e
          ∙ f,
      served,
      streamed,
    )

some-injective : {c c' : Connection} → some c ≡ some c' → c ≡ c'
some-injective e = cc

Served-IsServed :
    (c : Connection) {taken : Bytes} {c' : Connection}
    → IsServed c
    → Served c taken c'
    → IsServed c' × (stream c' ≡ stream c ++ taken)
Served-IsServed c s begun = (s, sym (append-nil (stream c)))
Served-IsServed c s (received {taken} {c'} r readv write x xs e ne small fits c'' f) =
    let (s', streamed) = Served-IsServed c s r in
    let (d, g, served, more) = serve-IsServed readv write x xs c' e ne small fits s' in
    let same : d ≡ c'' = some-injective (sym g ∙ f) in
    (
      subst IsServed same served,
      ap stream (sym same)
          ∙ more
          ∙ ap (λ b. b ++ (x ∷ xs)) streamed
          ∙ append_assoc (stream c) taken (x ∷ xs),
    )
Served-IsServed c s (flushed {taken} {c'} r write c'' f) =
    let (s', streamed) = Served-IsServed c s r in
    let d = handle_write-Delivered write c' s'.sound in
    let same : d.after ≡ c'' = some-injective (sym d.returns ∙ f) in
    let kept = handle_write-input write c' {c' = c''} f in
    (
      record {
        open_state = handle_write-state write c' {c' = c''} f ∙ s'.open_state;
        sound = subst IsSound same d.sound;
        input_valid = subst IsValid (sym kept) s'.input_valid;
        taken = ap contents kept ∙ s'.taken;
      },
      ap stream (sym same) ∙ d.streamed ∙ append-nil (stream c') ∙ streamed,
    )

-- Behind any events for reading and for writing on a connection that is connected, whose buffers
-- stay below 2 ^ 63 bytes and whose peer is there, one more event for reading does not fault; what
-- the server has then sent or keeps for sending is what it had sent or kept at first and then just
-- the bytes that it has received, in order; and nothing is left in its input buffer.
pub serve-echoes :
    (c : Connection) (taken : Bytes) (c' : Connection) (readv : ℕ → ReadResult)
    (write : Bytes → WriteResult) (x : ℕ) (xs : Bytes)
    → IsServed c
    → Served c taken c'
    → readv (read_capacity c'.input) ≡ got (x ∷ xs)
    → write (x ∷ xs) ≢ broken_pipe
    → length c'.input.buffer + length (x ∷ xs) < 2 ^ 63
    → length c'.output.buffer + length (x ∷ xs) < 2 ^ 63
    → (c'' : Connection) × (serve readv write c' ≡ some c'')
      × (stream c'' ≡ stream c ++ (taken ++ (x ∷ xs)))
      × (contents c''.input ≡ [])
serve-echoes c taken c' readv write x xs s r e ne small fits =
    let (s', streamed) = Served-IsServed c s r in
    let (c'', f, served, more) = serve-IsServed readv write x xs c' e ne small fits s' in
    (
      c'',
      f,
      more ∙ ap (λ b. b ++ (x ∷ xs)) streamed ∙ append_assoc (stream c) taken (x ∷ xs),
      served.taken,
    )
