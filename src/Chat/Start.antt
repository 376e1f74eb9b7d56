-- ===== src/Chat/Start.antt =====
-- chat-main/src/server/main.cpp with the constructor and `start` of
-- chat-main/src/server/ChatServer.cpp, and chat-main/src/client/main.cpp: what the command lines
-- start. An argument list is what stands behind the program's name.
pub mod Meeting
mod Tests
use mprpc_main.Common.{ℕ, false, Option, none, some, List, [], ◌∷◌, Bytes, codes, ℤ, stoi, to_u16}
use mprpc_main.Muduo.Socket.{Network, InetAddress, inet_address}
use mprpc_main.Muduo.Acceptor.{Answers}
use mprpc_main.Muduo.Listener.{Listener, new_listener, set_thread_num, start}

-- How `main` goes: a message on how to use it, an exception of `std::stoi`, or a run.
pub data Main {ℓ} (A : Type ℓ) : Type ℓ where
  usage threw : Main A
  runs : A → Main A

-- `ChatServer::ChatServer`.
pub new_chat_server : Answers → InetAddress → Bytes → Listener
new_chat_server k listen_addr name = set_thread_num 4 (new_listener k listen_addr name false)

-- `ChatServer::start`.
pub start_chat_server : Answers → Listener → Listener
start_chat_server k server = start k server

with_port : {A : Type 0} → (ℕ → A) → Option ℤ → Main A
with_port run none = threw
with_port run (some n) = runs (run (to_u16 n))

module _ (net : Network) (k : Answers) where
  serve_on : ℕ → Listener
  unfolding new_chat_server start_chat_server
  serve_on port =
      start_chat_server k
        (new_chat_server k (inet_address net port (codes "127.0.0.1")) (codes "ChatServer"))

  -- `main` of the server, up to the loop.
  pub server_main : List Bytes → Main Listener
  unfolding serve_on with_port
  server_main [] = runs (serve_on 8000)
  server_main (argument ∷ []) = with_port serve_on (stoi argument)
  server_main (argument ∷ _ ∷ _) = usage

-- `main` of the client: the address and the port that `ChatClient::run` gets.
pub client_main : List Bytes → Main (Bytes × ℕ)
unfolding with_port
client_main [] = runs (codes "127.0.0.1", 8000)
client_main (argument ∷ []) = with_port (λ port. (codes "127.0.0.1", port)) (stoi argument)
client_main (ip ∷ argument ∷ []) = with_port (λ port. (ip, port)) (stoi argument)
client_main (_ ∷ _ ∷ _ ∷ _) = usage
