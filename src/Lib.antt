-- ===== src/Lib.antt =====
-- A network library (mymuduo-main), a remote procedure call framework on it (mprpc-main) and a
-- chat server (chat-main), with the theorems about them.
--
-- The parts and how they interact. An `EventLoop` waits for events, calls the `Channel`s of the
-- descriptors that are ready, and runs the functions that other threads have queued. A
-- `TcpConnection` reads into and writes from two `Buffer`s, and a `TcpServer` gives each accepted
-- connection one of the loops of its `EventLoopThreadPool`. The `RpcProvider` cuts requests from
-- the input buffer of a connection and dispatches them to services; the `MprpcChannel` finds the
-- provider's address in ZooKeeper and sends one request. The chat server parses a message as JSON,
-- and its `ChatService` answers from the data base, and passes messages on to connections, to Redis
-- or to the table of offline messages.
--
-- The files, and the code that they model:
--   Common.antt           shared names; lists, machine integers, maps and strings of C++
--   Muduo/Buffer.antt     mymuduo-main/src/Buffer.cpp: a fault is `none`
--   Muduo/Channel.antt    mymuduo-main/src/Channel.cpp, EPollPoller.cpp, Poller.cpp
--   Muduo/Connection.antt mymuduo-main/src/TcpConnection.cpp
--   Muduo/EventLoop.antt  mymuduo-main/src/EventLoop.cpp
--   Muduo/Server.antt     mymuduo-main/src/TcpServer.cpp, EventLoopThreadPool.cpp
--   Muduo/Acceptor.antt   mymuduo-main/src/Acceptor.cpp; Listener.antt: a server with its acceptor
--   Muduo/Socket.antt     mymuduo-main/src/Socket.cpp, InetAddress.cpp
--   Muduo/Logger.antt     mymuduo-main/include/mymuduo/Logger.h, mymuduo-main/src/Logger.cpp
--   Muduo/Timestamp.antt  mymuduo-main/src/Timestamp.cpp; CurrentThread.antt: CurrentThread.cpp
--   Muduo/Thread.antt     mymuduo-main/src/Thread.cpp
--   Muduo/LoopThread.antt mymuduo-main/src/EventLoopThread.cpp
--   Muduo/Echo.antt       mymuduo-main/examples/echo_server.cpp
--   Rpc/Wire.antt         the request format of mprpc-main/src/mprpcchannel.cc
--   Rpc/Provider.antt     mprpc-main/src/rpcprovider.cc
--   Rpc/Caller.antt       mprpc-main/src/mprpcchannel.cc
--   Rpc/Config.antt       mprpc-main/src/mprpcconfig.cc
--   Rpc/Controller.antt   mprpc-main/src/mprpccontroller.cc
--   Rpc/ZkClient.antt     mprpc-main/src/zkclient.cc, and the registration in rpcprovider.cc
--   Rpc/Start.antt        mprpc-main/src/mprpcapplication.cc, the start of rpcprovider.cc, and
--                         the mains of mprpc-main/example
--   Rpc/LockQueue.antt    mprpc-main/src/include/lockqueue.h; Logger below it: logger.cc;
--                         Message: the macros of mprpc-main/src/include/logger.h
--   Rpc/UserService.antt  mprpc-main/example/callee/userservice.cc
--   Chat/Db.antt          chat-main/src/server/Db.cpp
--   Chat/Models.antt      chat-main/src/server/{User,Group}.cpp; below it, the four models
--   Chat/Redis.antt       chat-main/src/server/Redis.cpp; its observer: Chat/Service/Observer.antt
--   Chat/Start.antt       chat-main/src/server/main.cpp, ChatServer.cpp and src/client/main.cpp
--   Chat/Json.antt        the JSON library as a parameter, and what is used of it
--   Chat/Service.antt     chat-main/src/server/ChatService.cpp; Handlers below it: ChatServer.cpp
--   Chat/Client.antt      chat-main/src/client/ChatClient.cpp, in the modules below it
-- An operation is a function under the name of its C++ function, in lower case with underscores;
-- the object is its last argument, and what it returns stands beside the new object. Theorems are
-- in the modules below, and runs on concrete inputs in the modules named Tests.
--
-- Bytes are numbers, and `size_t` and `uint32_t` wrap around as written in Common/Words.antt. What
-- the kernel, MySQL, Redis, ZooKeeper, protobuf and the JSON library answer are parameters.
--
-- The loop of `OnMessage` runs on fuel, one more than the number of readable bytes: a round that
-- goes on takes four bytes at least. The other loops, but for those of the chat client, are
-- recursions on lists and numbers.
--
-- The loops of the chat client run on fuel, one more than the length of the input: each round reads
-- from the input, unless it has failed, and then the loop has no end.
--
-- Not modelled: generated protobuf code and the JSON library, which are parameters, and the choice
-- of the poller in mymuduo-main/src/DefaultPoller.cpp. Where the code logs, nothing is recorded but
-- in Muduo/Socket.antt, Muduo/Listener.antt, Muduo/Connection/Faults.antt, Muduo/EventLoop/Wakeup.antt,
-- Muduo/Echo/Main.antt and Rpc/LockQueue; the fixed prompts of the chat client are left out too.
-- Threads are interleavings of steps, or parameters. The handlers of `ChatService` run one after
-- the other: what two threads do at once to its map of connections, which has no mutex, is not
-- modelled, nor is `TcpConnection::shutdown` from another thread with the loop between its two
-- steps, nor a column of the data base that is NULL.
pub mod Common
pub mod Muduo
pub mod Rpc
pub mod Chat
