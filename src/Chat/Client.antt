-- ===== src/Chat/Client.antt =====
-- chat-main/src/client/ChatClient.cpp: the chat client, from its input to its socket.
pub mod Input
pub mod State
pub mod Display
pub mod Commands
pub mod Session
pub mod Discipline
pub mod Delivery
mod Tests
