-- ===== src/Muduo/Echo.antt =====
-- mymuduo-main/examples/echo_server.cpp: a server that sends back what it receives.
pub mod Stream
pub mod Main
mod Tests
use mprpc_main.Common.{
  ℕ, Bool, true, false, Option, some, List, [], ◌∷◌, Bytes, ◌>>=◌, ◌&&◌, ltb, leb, if◌then◌else◌, ℤ,
  pos, negsuc, to_u16,
}
use mprpc_main.Muduo.Buffer
use mprpc_main.Muduo.Buffer.{ReadResult, got, failed}
use mprpc_main.Muduo.Connection
use mprpc_main.Muduo.Connection.{Connection, WriteResult}

-- `onMessage`, which the loop's thread calls.
pub on_message : (Bytes → WriteResult) → Connection → Option Connection
on_message write c = Buffer.retrieve_all_as_string c.input >>= λ r.
    Connection.send true write r.0 (record c { input = r.1 })

-- `handleRead` calls `onMessage` where something was read.
if_read : ReadResult → (Bytes → WriteResult) → Connection → Option Connection
unfolding on_message
if_read (failed errno) write c = some c
if_read (got []) write c = some c
if_read (got (x ∷ xs)) write c = on_message write c

-- An event for reading on a connection of the server.
pub serve : (ℕ → ReadResult) → (Bytes → WriteResult) → Connection → Option Connection
unfolding if_read
serve readv write c =
    Connection.handle_read readv c >>= if_read (readv (Buffer.read_capacity c.input)) write

in_port_range : ℤ → ℕ
in_port_range (pos parsed) = if ltb 0 parsed && leb parsed 65535 then to_u16 (pos parsed) else 8888
in_port_range (negsuc parsed) = 8888

-- The port that `main` listens on, by the arguments behind the program's name.
pub port_of : (Bytes → ℤ) → List Bytes → ℕ
unfolding in_port_range
port_of atoi [] = 8888
port_of atoi (argument ∷ arguments) = in_port_range (atoi argument)
