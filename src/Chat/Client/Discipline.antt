-- ===== src/Chat/Client/Discipline.antt =====
-- What the trace of a client (chat-main/src/client/ChatClient.cpp) may be: one descriptor at a time
-- is used and closed, and one reader's thread at a time is started and joined.
pub mod Commands
pub mod Session
pub mod Menu
use mprpc_main.Common.{
  ℕ, zero, suc, ◌≤◌, ◌≡◌, ◌≢◌, refl, sym, arith, Bool, true, false, Option, none, some, List, [],
  ◌∷◌, Bytes, ◌⊎◌, inl, inr,
}
use mprpc_main.Chat.Client.Input.Consumes.{size}
use mprpc_main.Chat.Client.State.{
  Action, opened, connected, sent, received, closed, started_reader, joined_reader, Trace, Kernel,
  Client, Outcome, ended, threw, out_of_fuel, ◌>>=◌, log, connect_server, after_socket,
  after_connect, close, close_at, join_reader, join_if,
}

-- The descriptor that is open behind these actions.
abbrev pub held : Trace → Option ℕ
held [] = none
held (opened o ∷ t) = o
held (closed n ∷ t) = none
held (connected n ip port ∷ t) = held t
held (sent o msg ∷ t) = held t
held (received o room ∷ t) = held t
held (started_reader ∷ t) = held t
held (joined_reader ∷ t) = held t

-- Whether the reader's thread has been started and not joined yet.
abbrev pub running : Trace → Bool
running [] = false
running (started_reader ∷ t) = true
running (joined_reader ∷ t) = false
running (opened o ∷ t) = running t
running (closed n ∷ t) = running t
running (connected n ip port ∷ t) = running t
running (sent o msg ∷ t) = running t
running (received o room ∷ t) = running t

-- A descriptor is opened when none is open and no reader runs; only the open one is connected,
-- written to, read from and closed; a reader is started on an open one when none runs, and is
-- joined when it runs.
abbrev pub Disciplined : Trace → Type 0
Disciplined [] = Unit {0}
Disciplined (opened o ∷ t) = (held t ≡ none) × (running t ≡ false) × Disciplined t
Disciplined (closed n ∷ t) = (held t ≡ some n) × Disciplined t
Disciplined (connected n ip port ∷ t) = (held t ≡ some n) × Disciplined t
Disciplined (sent o msg ∷ t) = (held t ≡ o) × (o ≢ none) × Disciplined t
Disciplined (received o room ∷ t) = (held t ≡ o) × (o ≢ none) × Disciplined t
Disciplined (started_reader ∷ t) = (held t ≢ none) × (running t ≡ false) × Disciplined t
Disciplined (joined_reader ∷ t) = (running t ≡ true) × Disciplined t

-- The client's own account of its descriptor and its thread is right.
abbrev pub Sane : Client → Type 0
Sane w = Disciplined w.trace × (held w.trace ≡ w.fd) × (running w.trace ≡ w.reading)

abbrev pub AtMenu : Client → Type 0
AtMenu w = Sane w × (w.logged_in ≡ false) × (w.reading ≡ false)

abbrev pub InSession : Client → Type 0
InSession w = Sane w × (w.logged_in ≡ true) × (w.reading ≡ true) × (w.fd ≢ none)

-- Everything has been given back.
abbrev pub Closed : Client → Type 0
Closed w = AtMenu w × (w.fd ≡ none)

-- How a run ends that has `n` of the input left to read: in a client that satisfies `P` and has no
-- more left, with an exception, or in a loop on an input that has failed.
pub data After (n : ℕ) (P : Client → Type 0) : Outcome → Type 0 where
  settled : {w : Client} → P w → size w.input ≤ n → After n P (ended w)
  broke : After n P threw
  starved : {w : Client} → w.input.good ≡ false → Disciplined w.trace → After n P (out_of_fuel w)

pub After-bind :
    {m n : ℕ} {P Q : Client → Type 0} {r : Outcome} {f : Client → Outcome}
    → After m P r
    → ((w : Client) → P w → size w.input ≤ m → After n Q (f w))
    → After n Q (r >>= f)
After-bind (settled {w} p s) k = k w p s
After-bind broke k = broke
After-bind (starved g d) k = starved g d

pub After-mono :
    {m n : ℕ} {P Q : Client → Type 0} {r : Outcome}
    → m ≤ n
    → ((w : Client) → P w → Q w)
    → After m P r
    → After n Q r
After-mono le f (settled {w} p s) = settled (f w p) (omega arith)
After-mono le f broke = broke
After-mono le f (starved g d) = starved g d

-- Traffic on the open descriptor.
pub sent-Sane : (msg : Bytes) (w : Client) → Sane w → w.fd ≢ none → Sane (log (sent w.fd msg) w)
sent-Sane msg w (d, h, r) o = ((h, o, d), h, r)

pub received-Sane :
    (room : ℕ) (w : Client) → Sane w → w.fd ≢ none → Sane (log (received w.fd room) w)
received-Sane room w (d, h, r) o = ((h, o, d), h, r)

-- Closing what is open, and joining what runs.
close_at-Sane :
    (o : Option ℕ) (w : Client)
    → w.fd ≡ o
    → Sane w
    → Sane (close_at o w)
      × ((close_at o w).fd ≡ none)
      × ((close_at o w).logged_in ≡ w.logged_in)
      × ((close_at o w).input ≡ w.input)
unfolding close_at
close_at-Sane none w e s = (s, e, refl, refl)
close_at-Sane (some n) w e (d, h, r) = ((((cc), d), refl, r), refl, refl, refl)

join_if-Closed :
    (b : Bool) (w : Client)
    → w.reading ≡ b
    → Sane w
    → w.fd ≡ none
    → w.logged_in ≡ false
    → Closed (join_if b w) × ((join_if b w).input ≡ w.input)
unfolding join_if
join_if-Closed false w e s f l = (((s, l, e), f), refl)
join_if-Closed true w e (d, h, r) f l = ((((((cc), d), h, refl), l, refl), f), refl)

-- Leaving a session, or the program.
pub leave-Closed :
    (w : Client)
    → Sane w
    → w.logged_in ≡ false
    → Closed (join_reader (close w)) × (size (join_reader (close w)).input ≤ size w.input)
unfolding close join_reader
leave-Closed w s l =
    let (s', f, l', i) = close_at-Sane w.fd w refl s in
    let (c, i') = join_if-Closed (close w).reading (close w) refl s' f (cc) in
    (c, rw (i', i) (omega arith))

-- How connecting ends: with an open descriptor, or with none.
pub data Connects (n : ℕ) : Bool × Client → Type 0 where
  up : {w : Client} → AtMenu w → w.fd ≢ none → size w.input ≤ n → Connects n (true, w)
  down : {w : Client} → Closed w → size w.input ≤ n → Connects n (false, w)

after_connect-Connects :
    (kernel : Kernel) (n : ℕ) (b : Bool) (w : Client)
    → AtMenu w
    → w.fd ≡ some n
    → Connects (size w.input) (after_connect kernel n b w)
unfolding after_connect
after_connect-Connects kernel n true w a f = up a (λ e. cc) (omega arith)
after_connect-Connects kernel n false w ((d, h, r), l, g) f =
    down (((((cc), d), refl, r), l, g), refl) (omega arith)

after_socket-Connects :
    (kernel : Kernel) (ip : Bytes) (port : ℕ) (o : Option ℕ) (w : Client)
    → AtMenu w
    → w.fd ≡ none
    → Connects (size w.input) (after_socket kernel ip port o (log (opened o) (record w { fd = o })))
unfolding after_socket
after_socket-Connects kernel ip port none w ((d, h, r), l, g) f =
    down (((((cc), (cc), d), refl, r), l, g), refl) (omega arith)
after_socket-Connects kernel ip port (some n) w ((d, h, r), l, g) f =
    let logged = log (connected n ip port) (log (opened (some n)) (record w { fd = some n })) in
    after_connect-Connects kernel n (kernel.connect (opened (some n) ∷ w.trace) n ip port) logged
      (((refl, ((cc), (cc), d)), refl, r), l, g) refl

-- Connecting where nothing is open.
pub connect_server-Connects :
    (kernel : Kernel) (ip : Bytes) (port : ℕ) (w : Client)
    → AtMenu w
    → w.fd ≡ none
    → Connects (size w.input) (connect_server kernel ip port w)
unfolding connect_server
connect_server-Connects kernel ip port w a f =
    after_socket-Connects kernel ip port (kernel.socket w.trace) w a f
