-- ===== src/Chat/Service/Create/Tests.antt =====
-- A chat server without Redis.
use mprpc_main.Common.{◌≡◌, refl, none, [], ◌∷◌, Bytes, codes, pos, find, int_key, arith, List}
use mprpc_main.Common.Strings.Decimal.{to_string, decimal, decimal_from}
use mprpc_main.Chat.Db
use mprpc_main.Chat.Db.{ok}
use mprpc_main.Chat.Models
use mprpc_main.Chat.Models.UserModel
use mprpc_main.Chat.Redis.{connect, connect_subscriber, good, broken}
use mprpc_main.Chat.Service.{ChatService, one_chat}
use mprpc_main.Chat.Service.Example.{one_user, digit, dumped_to, hello, to_five, ann}
use mprpc_main.Chat.Service.Create.{create, one_chat-lost}

abbrev alone : ChatService (one_user (codes "online"))
alone = (create (one_user (codes "online")) good broken []).0

abbrev queried : List Bytes
queried = codes "select * from user where id='5'" ∷ codes "set names gbk" ∷ []

one_chat-lost_example :
    one_chat (one_user (codes "online")) digit (dumped_to hello) 71 to_five alone
    ≡ ok (record alone { server = queried })
unfolding find mprpc_main.Common.bytes_eq create connect connect_subscriber Db.run_query
    Db.query_connected Db.connect Db.after_connect Db.query Db.result_of Db.sprintf Models.column
    UserModel.query UserModel.query_text UserModel.user_of decimal decimal_from to_string
one_chat-lost_example =
    one_chat-lost (one_user (codes "online")) digit (dumped_to hello) good broken 71 to_five (pos 5)
      hello alone (ann (codes "online")) queried [] refl refl refl refl refl refl refl
