-- ===== src/Chat/Service/Handlers/Groups.antt =====
-- `groupChat`: who gets a message to a group.
use mprpc_main.Common.{ℕ, ◌≡◌, true, some, List, Bytes, codes, ℤ}
use mprpc_main.Chat.Db.{ok, MySql}
use mprpc_main.Chat.Models.GroupModel
use mprpc_main.Chat.Json.{JsonLibrary}
use mprpc_main.Chat.Service.{ChatService}
use mprpc_main.Chat.Service.Handlers.{group_chat, int_of}
use mprpc_main.Chat.Service.Routing.{AllRouted, AllReachable, forward_all-Routed}

module _ (mysql : MySql) (atoi : Bytes → ℤ) (lib : JsonLibrary) where
  open lib use {Json}

  -- `groupChat`, where the query for the other members of the group gives `ids`, the message can be
  -- dumped, their numbers are values of `int`, its text fits into the statement for offline
  -- messages for each of them, and the context for publishing to Redis is open: it returns, and
  -- for each of these members, in the order of the query, the message is on the member's
  -- connection, or published on just the member's channel if the member is online without a
  -- connection here, or, for one that is not online, taken by the table of offline messages,
  -- unless the data base could not be reached or refused. Besides, only the data base has changed.
  pub group_chat-Routed :
      (conn : ℕ) (js : Json) (userid groupid : ℤ) (msg : Bytes) (ids : List ℤ)
      (w : ChatService mysql) (s : mysql.Server)
      → lib.get_int (codes "id") js ≡ some userid
      → lib.get_int (codes "groupid") js ≡ some groupid
      → GroupModel.query_group_users mysql atoi userid groupid w.server ≡ ok (ids, s)
      → lib.dump js ≡ some msg
      → AllReachable mysql atoi lib msg ids
      → w.redis.publish_context ≡ true
      → (w' : ChatService mysql) × (group_chat mysql atoi lib conn js w ≡ ok w')
        × AllRouted mysql atoi lib msg ids (record w { server = s }) w'
  unfolding group_chat int_of
  group_chat-Routed conn js userid groupid msg ids w s u g q d r p =
      rw (u, g, q) (forward_all-Routed mysql atoi lib ids js msg (record w { server = s }) d r p)
