-- ===== src/Chat/Start/Meeting.antt =====
-- Where the chat client looks for the chat server.
use mprpc_main.Common.{
  ℕ, ◌≤◌, ◌≡◌, true, false, Option, none, some, List, [], ◌∷◌, Bytes, codes, length, ℤ, stoi,
  to_u16, arith,
}
use mprpc_main.Muduo.Socket.{
  Network, inet_address, bound, listened, able_read, option_set, so_keepalive, so_reuseaddr,
  so_reuseport,
}
use mprpc_main.Muduo.Acceptor.{Answers}
use mprpc_main.Muduo.Acceptor.Heedless.{calls}
use mprpc_main.Muduo.Listener.{Listener}
use mprpc_main.Muduo.Listener.Listens.{start-listens}
use mprpc_main.Chat.Start.{
  Main, threw, runs, new_chat_server, start_chat_server, with_port, serve_on, server_main,
  client_main,
}

module _ (net : Network) (k : Answers) where
  -- The server listens where the client connects, or an exception ends both.
  pub data Meet : Main Listener → Main (Bytes × ℕ) → Type 0 where
    both_threw : Meet threw threw
    met :
        (l : Listener) (ip : Bytes) (port : ℕ)
        → calls l.acceptor.events
          ≡ option_set k.socket so_keepalive true
            ∷ option_set k.socket so_reuseaddr true
            ∷ option_set k.socket so_reuseport false
            ∷ bound k.socket (inet_address net port ip)
            ∷ listened k.socket
            ∷ able_read k.socket
            ∷ []
        → Meet (runs l) (runs (ip, port))

  serve_on-met : (port : ℕ) → Meet (runs (serve_on net k port)) (runs (codes "127.0.0.1", port))
  unfolding serve_on new_chat_server start_chat_server
  serve_on-met port =
      met _ (codes "127.0.0.1") port
        (start-listens k (inet_address net port (codes "127.0.0.1")) (codes "ChatServer") false 4)

  port-met :
      (o : Option ℤ)
      → Meet (with_port (serve_on net k) o) (with_port (λ port. (codes "127.0.0.1", port)) o)
  unfolding with_port
  port-met none = both_threw
  port-met (some n) = serve_on-met (to_u16 n)

  -- The chat server and the chat client, started with the same command line of one argument at
  -- most: the client runs with the address and the port that the server's socket is bound to before
  -- it listens, whatever number the argument begins with, or an exception ends both programs.
  pub client_main-meets :
      (arguments : List Bytes)
      → length arguments ≤ 1
      → Meet (server_main net k arguments) (client_main arguments)
  unfolding server_main client_main
  client_main-meets [] h = serve_on-met 8000
  client_main-meets (argument ∷ []) h = port-met (stoi argument)
  client_main-meets (argument ∷ other ∷ rest) h = absurd (omega arith)
