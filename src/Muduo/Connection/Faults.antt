-- ===== src/Muduo/Connection/Faults.antt =====
-- mymuduo-main/src/TcpConnection.cpp: the socket options of a new connection, and the log of
-- errors.
use mprpc_main.Common.{Bool, true, ℤ, List, ◌++◌, Bytes, codes, c_str, if◌then◌else◌}
use mprpc_main.Common.Strings.Decimal.{to_string}
use mprpc_main.Muduo.Logger
use mprpc_main.Muduo.Logger.{Logger}
use mprpc_main.Muduo.Socket
use mprpc_main.Muduo.Socket.{Event}

-- The end of the constructor, by whether `setsockopt` gave 0 each time.
pub set_options : Bool → Bool → ℤ → List Event
set_options first second sockfd =
    Socket.set_keep_alive first sockfd true ++ Socket.set_tcp_no_delay second sockfd true

-- `handleError`: whether `getsockopt` gave 0, the error that it stored, and `errno`.
pub handle_error : Bool → ℤ → ℤ → Bytes → Logger → Logger
handle_error answered stored errno name l =
    let err = if answered then stored else errno in
    Logger.log_erorr
      (codes "TcpConnection::handleError name:"
        ++ (c_str name ++ (codes " errno:" ++ to_string err)))
      l
