-- ===== src/Chat/Start/Tests.antt =====
-- The chat server and its client with a port.
use mprpc_main.Common.{[], ◌∷◌, codes, arith}
use mprpc_main.Muduo.Acceptor.Example.{net, fine}
use mprpc_main.Chat.Start.{server_main, client_main}
use mprpc_main.Chat.Start.Meeting.{Meet, client_main-meets}

client_main-meets_example :
    Meet net fine (server_main net fine (codes "6000" ∷ [])) (client_main (codes "6000" ∷ []))
client_main-meets_example = client_main-meets net fine (codes "6000" ∷ []) (omega arith)
