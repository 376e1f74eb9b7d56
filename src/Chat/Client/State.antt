-- ===== src/Chat/Client/State.antt =====
-- chat-main/include/client/ChatClient.hpp: the state of a client, and its calls of the kernel,
-- which is a parameter and answers by what has happened on the client's main thread so far.
use mprpc_main.Common.{
  ℕ, Bool, true, false, Option, none, some, List, [], ◌∷◌, Bytes, take, codes, ℤ, pos,
}
use mprpc_main.Chat.Db.{c_str}
use mprpc_main.Chat.Client.Input.{Input}

-- The calls that the main thread has made. `none` is the descriptor -1; `closed` is `shutdown`
-- and `close`.
pub data Action : Type 0 where
  opened : Option ℕ → Action
  connected : ℕ → Bytes → ℕ → Action
  sent : Option ℕ → Bytes → Action
  received : Option ℕ → ℕ → Action
  closed : ℕ → Action
  started_reader joined_reader : Action

-- The last action stands first.
abbrev pub Trace : Type 0
Trace = List Action

-- `socket`, `connect`, and `write` and `read` on a descriptor: `none` and `false` are -1. `read` is
-- told how much room there is.
pub record Kernel : Type 0 where
  pub socket : Trace → Option ℕ
  pub connect : Trace → ℕ → Bytes → ℕ → Bool
  pub write : Trace → ℕ → Bytes → Bool
  pub read : Trace → ℕ → ℕ → Option Bytes

-- `reading` says whether the reader's thread is joinable. `printed` are the lines that show what
-- has come from the server.
pub record Client : Type 0 where
  pub fd : Option ℕ
  pub logged_in : Bool
  pub user_id : ℤ
  pub user_name : Bytes
  pub server_ip : Bytes
  pub server_port : ℕ
  pub reading : Bool
  pub input : Input
  pub trace : Trace
  pub printed : List Bytes

-- `ChatClient::ChatClient`.
unfoldable pub new : Input → Client
new input = record {
  fd = none;
  logged_in = false;
  user_id = pos 0;
  user_name = [];
  server_ip = codes "127.0.0.1";
  server_port = 8000;
  reading = false;
  input = input;
  trace = [];
  printed = [];
}

-- How a call ends: it returns, an exception leaves it, or it is still in a loop.
pub data Outcome : Type 0 where
  ended : Client → Outcome
  threw : Outcome
  out_of_fuel : Client → Outcome

infixl 5 ◌>>=◌
abbrev pub ◌>>=◌ : Outcome → (Client → Outcome) → Outcome
ended w >>= f = f w
threw >>= f = threw
out_of_fuel w >>= f = out_of_fuel w

-- What has to be there.
abbrev pub need {ℓ} : {A : Type ℓ} → Option A → (A → Outcome) → Outcome
need none f = threw
need (some a) f = f a

abbrev pub log : Action → Client → Client
log a w = record w { trace = a ∷ w.trace }

abbrev pub with_input : Input → Client → Client
with_input i w = record w { input = i }

module _ (kernel : Kernel) where
  unfoldable pub after_connect : ℕ → Bool → Client → Bool × Client
  after_connect n true w = (true, w)
  after_connect n false w = (false, log (closed n) (record w { fd = none }))

  unfoldable pub after_socket : Bytes → ℕ → Option ℕ → Client → Bool × Client
  unfolding after_connect
  after_socket ip port none w = (false, w)
  after_socket ip port (some n) w =
      after_connect n (kernel.connect w.trace n ip port) (log (connected n ip port) w)

  -- `ChatClient::connectServer`.
  unfoldable pub connect_server : Bytes → ℕ → Client → Bool × Client
  unfolding after_socket after_connect
  connect_server ip port w =
      let o = kernel.socket w.trace in after_socket ip port o (log (opened o) (record w { fd = o }))

  abbrev pub write_at : Option ℕ → Bytes → Trace → Bool
  write_at none msg t = false
  write_at (some n) msg t = kernel.write t n msg

  -- `write(_clientfd, …)`, and whether it did not fail.
  unfoldable pub write : Bytes → Client → Bool × Client
  write msg w = (write_at w.fd msg w.trace, log (sent w.fd msg) w)

  abbrev pub read_at : Option ℕ → ℕ → Trace → Option Bytes
  read_at none room t = none
  read_at (some n) room t = kernel.read t n room

  abbrev pub text_in : ℕ → Option Bytes → Option Bytes
  text_in room none = none
  text_in room (some s) = some (c_str (take room s))

  -- `read` into a zeroed array; `json::parse` of the array ends at its first zero byte.
  unfoldable pub read : ℕ → Client → Option Bytes × Client
  read room w = (text_in room (read_at w.fd room w.trace), log (received w.fd room) w)

-- `if (_clientfd != -1) { shutdown; close; _clientfd = -1 }`.
unfoldable pub close_at : Option ℕ → Client → Client
close_at none w = w
close_at (some n) w = log (closed n) (record w { fd = none })

unfoldable pub close : Client → Client
unfolding close_at
close w = close_at w.fd w

unfoldable pub join_if : Bool → Client → Client
join_if false w = w
join_if true w = log joined_reader (record w { reading = false })

-- `if (_readTask.joinable()) _readTask.join()`.
unfoldable pub join_reader : Client → Client
unfolding join_if
join_reader w = join_if w.reading w
