-- ===== src/Chat.antt =====
-- chat-main: the chat server behind the network library, and the chat client.
pub mod Db
pub mod Json
pub mod Models
pub mod Redis
pub mod Service
pub mod Client
pub mod Start
