-- ===== src/Chat/Service/Tests.antt =====
-- Runs of chat-main/src/server/ChatService.cpp, on a data base and a JSON library made for them.
use mprpc_main.Common.{
  ℕ, ◌-◌, ◌%◌, ◌≡◌, ◌≢◌, refl, arith, Bool, true, false, Option, none, some, List, [], ◌∷◌, ◌++◌,
  Bytes, codes, ℤ, pos, find, bytes_key, int_key, replicate,
}
use mprpc_main.Common.Strings.Decimal.{to_string, decimal, decimal_from}
use mprpc_main.Chat.Db
use mprpc_main.Chat.Db.{MySql, Run, ok, overflowed, ◌>>=◌}
use mprpc_main.Chat.Models.{User}
use mprpc_main.Chat.Json.{Value, number, text}
use mprpc_main.Chat.Service.{ChatService, one_chat, client_close_exception}
use mprpc_main.Chat.Service.Routing.{Routed, one_chat-Routed, one_chat-overflowed}
use mprpc_main.Chat.Service.Close.{occurs, client_close_exception-occurs}
use mprpc_main.Chat.Models
use mprpc_main.Chat.Models.UserModel
use mprpc_main.Chat.Models.GroupModel
use mprpc_main.Chat.Models.OfflineMsgModel.Stored.{short-Storable}
use mprpc_main.Chat.Service.Example.{
  one_user, digit, digit-GivesInts, dumped_to, hello, three_users, to_five, ann,
}
use mprpc_main.Chat.Service.Handlers.{group_chat}
use mprpc_main.Chat.Service.Handlers.Groups.{group_chat-Routed}
use mprpc_main.Chat.Service.Routing.{AllRouted}

one_chat-Routed_example :
    (w' : ChatService (one_user (codes "online"))) × (one_chat
        (one_user (codes "online"))
        digit
        (dumped_to hello)
        71
        to_five
        (three_users (codes "online"))
      ≡ ok w')
    × Routed
        (one_user (codes "online"))
        digit
        (dumped_to hello)
        (pos 5)
        hello
        (three_users (codes "online"))
        w'
unfolding find mprpc_main.Common.bytes_eq
one_chat-Routed_example =
    one_chat-Routed (one_user (codes "online")) digit (dumped_to hello) 71 to_five (pos 5) hello
      (three_users (codes "online")) refl refl (omega arith)
      (short-Storable (one_user (codes "online")) digit (pos 5) hello (omega arith)
        (unfold Db.c_str in omega arith))
      refl

client_close_exception-occurs_example :
    (w' : ChatService (one_user (codes "online"))) × (client_close_exception
        (one_user (codes "online"))
        digit
        (dumped_to hello)
        70
        (three_users (codes "online"))
      ≡ ok w')
    × (occurs 70 w'.user_conn_map ≡ occurs 70 (three_users (codes "online")).user_conn_map - 1)
unfolding find mprpc_main.Common.int_eq
client_close_exception-occurs_example =
    client_close_exception-occurs (one_user (codes "online")) digit (dumped_to hello) 70
      (three_users (codes "online")) digit-GivesInts
      (
        refl,
        omega arith,
        (λ h. cc),
        (refl, omega arith, (λ h. cc), (refl, omega arith, (λ h. cc), tt)),
      )

abbrev queried : List Bytes
queried = codes "select * from user where id='5'" ∷ codes "set names gbk" ∷ []

abbrev offline : MySql
offline = one_user (codes "offline")

abbrev long : Bytes
long = replicate 984 120

one_chat-overflowed_example :
    one_chat offline digit (dumped_to long) 71 to_five (three_users (codes "offline")) ≡ overflowed
unfolding find mprpc_main.Common.bytes_eq Db.run_query Db.query_connected Db.connect
    Db.after_connect Db.query Db.result_of Db.sprintf Models.column UserModel.query
    UserModel.query_text UserModel.user_of decimal decimal_from to_string
one_chat-overflowed_example =
    one_chat-overflowed offline digit (dumped_to long) 71 to_five (pos 5) long
      (three_users (codes "offline")) (ann (codes "offline")) queried refl refl refl refl refl
      (unfold Db.c_str in omega arith)

abbrev to_group : List (Bytes × Value)
to_group = (codes "id", number (pos 6)) ∷ (codes "groupid", number (pos 3)) ∷ []

abbrev group_queried : List Bytes
group_queried =
    codes "select userid from groupuser where groupid = 3 and userid != 6"
    ∷ codes "set names gbk"
    ∷ []

group_chat-Routed_example :
    (w' : ChatService offline) × (group_chat offline digit
        (dumped_to hello)
        71
        to_group
        (three_users (codes "offline"))
      ≡ ok w')
    × AllRouted offline digit
        (dumped_to hello)
        hello
        (pos 5 ∷ [])
        (record (three_users (codes "offline")) { server = group_queried })
        w'
unfolding find mprpc_main.Common.bytes_eq Db.run_query Db.query_connected Db.connect
    Db.after_connect Db.query Db.result_of Db.sprintf Models.column GroupModel.query_group_users
    GroupModel.ids_of decimal decimal_from to_string
group_chat-Routed_example =
    group_chat-Routed offline digit (dumped_to hello) 71 to_group (pos 6) (pos 3) hello (pos 5 ∷ [])
      (three_users (codes "offline")) group_queried refl refl refl refl
      (
        omega arith,
        short-Storable offline digit (pos 5) hello (omega arith) (unfold Db.c_str in omega arith),
        tt,
      )
      refl

abbrev right : List (Bytes × Value)
right = (codes "id", number (pos 5)) ∷ (codes "password", text (codes "pw")) ∷ []

-- Every text will do for this library.
abbrev Any : Bytes → Type 0
Any s = Unit {0}
