-- ===== src/Chat/Service/Observer/Tests.antt =====
-- Messages that come to a chat server over Redis.
use mprpc_main.Common.{
  ◌≡◌, refl, true, none, some, List, [], ◌∷◌, ◌++◌, Bytes, codes, pos, find, int_key, arith, c_str,
}
use mprpc_main.Common.Strings.Decimal.{to_string, decimal, decimal_from}
use mprpc_main.Chat.Db
use mprpc_main.Chat.Db.{ok}
use mprpc_main.Chat.Models
use mprpc_main.Chat.Models.UserModel
use mprpc_main.Chat.Redis.{other, triple, published, notified}
use mprpc_main.Chat.Service.{ChatService, user_channel, one_chat}
use mprpc_main.Chat.Service.Example.{one_user, digit, dumped_to, hello, three_users, to_five, ann}
use mprpc_main.Chat.Service.Observer.{
  observe, skipped, passed, finished, hands_on, observe-Sends, one_chat-crosses,
}

abbrev there : ChatService (one_user (codes "online"))
there = three_users (codes "online")

-- Nobody is connected.
abbrev here : ChatService (one_user (codes "online"))
here = record there { user_conn_map = [] }

observe-Sends_example :
    observe
      (one_user (codes "online"))
      digit
      (dumped_to hello)
      (other ∷ triple (codes "message") (user_channel (pos 6)) hello ∷ [])
      there
    ≡ ok (record there { sent = (71, c_str hello) ∷ [] })
unfolding find mprpc_main.Common.int_eq notified
observe-Sends_example =
    observe-Sends (one_user (codes "online")) digit (dumped_to hello)
      (other ∷ triple (codes "message") (user_channel (pos 6)) hello ∷ []) ((71, c_str hello) ∷ [])
      there (skipped refl (passed (pos 6) 71 hello (omega arith) refl finished))

abbrev queried : List Bytes
queried = codes "select * from user where id='5'" ∷ codes "set names gbk" ∷ []

one_chat-crosses_example :
    (here' : ChatService (one_user (codes "online"))) × (one_chat
        (one_user (codes "online"))
        digit
        (dumped_to hello)
        71
        to_five
        here
      ≡ ok here')
    × (here'.redis.commands ≡ published (user_channel (pos 5)) (c_str hello) ∷ [])
    × (observe
          (one_user (codes "online"))
          digit
          (dumped_to hello)
          (hands_on
            (one_user (codes "online"))
            digit
            (dumped_to hello)
            (published (user_channel (pos 5)) (c_str hello)))
          there
        ≡ ok (record there { sent = (70, c_str hello) ∷ [] }))
unfolding find mprpc_main.Common.bytes_eq mprpc_main.Common.int_eq Db.run_query Db.query_connected
    Db.connect Db.after_connect Db.query Db.result_of Db.sprintf Models.column UserModel.query
    UserModel.query_text UserModel.user_of decimal decimal_from to_string
one_chat-crosses_example =
    one_chat-crosses (one_user (codes "online")) digit (dumped_to hello) 71 70 to_five (pos 5) hello
      here there (ann (codes "online")) queried refl (omega arith) refl refl refl refl refl refl
