-- ===== src/Chat/Service/Create.antt =====
-- The constructor of chat-main/src/server/ChatService.cpp, and a service that has not reached
-- Redis.
mod Tests
use mprpc_main.Common.{
  ℕ, ◌≡◌, refl, ap, ◌∙◌, Bool, true, false, none, some, [], Bytes, codes, c_str, bytes_eq, ℤ,
  int_key, find, if◌then◌else◌,
}
use mprpc_main.Chat.Db.{ok, ◌>>=◌, MySql}
use mprpc_main.Chat.Models.{User}
use mprpc_main.Chat.Models.UserModel
use mprpc_main.Chat.Json.{JsonLibrary}
use mprpc_main.Chat.Redis
use mprpc_main.Chat.Redis.{Redis, Connected, good, publish}
use mprpc_main.Chat.Redis.Contexts.{connect-context}
use mprpc_main.Chat.Service.{ChatService, user_channel, online, one_chat, forward, route}

module _ (mysql : MySql) where
  -- `ChatService::ChatService`; the flag tells whether the observer has got its handler. The table
  -- of the handlers is in `getHandler`.
  pub create : Connected → Connected → mysql.Server → ChatService mysql × Bool
  create first second server =
      let r = Redis.connect first second Redis.new in
      (record { user_conn_map = []; redis = r.1; server = server; sent = [] }, r.0)

module _ (mysql : MySql) (atoi : Bytes → ℤ) (lib : JsonLibrary) where
  open lib use {Json}

  publish_closed :
      (channel msg : Bytes) (r : Redis) → r.publish_context ≡ false → publish channel msg r ≡ r
  unfolding publish
  publish_closed channel msg r e =
      ap (λ b. if b then Redis.tell (Redis.published (c_str channel) (c_str msg)) r else r) e

  -- A service whose `connect` to Redis gave false goes on without it: `oneChat` to a user that the
  -- data base says is online, but who has no connection here, returns, and the message is neither
  -- sent, nor published, nor stored; the service is as before, but for what the query left of the
  -- data base.
  pub one_chat-lost :
      (first second : Connected) (conn : ℕ) (js : Json) (toid : ℤ) (msg : Bytes)
      (w : ChatService mysql) (u : User) (s server : mysql.Server)
      → (create mysql first second server).1 ≡ false
      → w.redis ≡ (create mysql first second server).0.redis
      → lib.get_int (codes "toid") js ≡ some toid
      → UserModel.query mysql atoi toid w.server ≡ ok (u, s)
      → bytes_eq u.state online ≡ true
      → find toid w.user_conn_map ≡ none
      → lib.dump js ≡ some msg
      → one_chat mysql atoi lib conn js w ≡ ok (record w { server = s })
  unfolding one_chat forward create
  one_chat-lost first second conn js toid msg w u s server failed same t q on away d =
      rw (t, q, on, away, route, d)
        (ap (λ r. ok (record w { server = s; redis = r }))
          (publish_closed (user_channel toid) msg w.redis
            (ap (λ (r : Redis). r.publish_context) same ∙ connect-context first second ∙ failed)))
