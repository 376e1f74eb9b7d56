-- ===== src/Muduo.antt =====
-- mymuduo-main: the network library under both servers.
pub mod Buffer
pub mod Channel
pub mod Connection
pub mod EventLoop
pub mod Logger
pub mod Timestamp
pub mod CurrentThread
pub mod Socket
pub mod Acceptor
pub mod Server
pub mod Listener
pub mod Echo
pub mod LoopThread
pub mod Thread
