-- ===== src/Rpc.antt =====
-- mprpc-main: remote calls over the network library.
pub mod Wire
pub mod Config
pub mod Controller
pub mod ZkClient
pub mod Caller
pub mod LockQueue
pub mod UserService
pub mod Provider
pub mod Start
