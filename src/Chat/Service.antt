-- ===== src/Chat/Service.antt =====
-- chat-main/src/server/ChatService.cpp: the handlers of the chat server. The JSON library is a
-- parameter. `sent` is what the service has sent on connections, in order; a connection is its
-- address. The service is a value: the handlers of the server's threads and of the thread that
-- observes Redis are steps, one after the other. In the code they share the map with no mutex; what
-- two of them do to it at once is left out.
pub mod Login
pub mod Handlers
pub mod Routing
pub mod Observer
pub mod Create
pub mod Example
pub mod Close
mod Tests
use mprpc_main.Common.{
  ℕ, Bool, true, false, not, ◌&&◌, ◌==◌, Option, none, some, List, [], ◌∷◌, ◌++◌, Bytes, length,
  take, drop, codes, bytes_eq, if◌then◌else◌, ℤ, pos, negsuc, int_eq, int_key, find, insert, erase,
  stoi,
}
use mprpc_main.Common.Strings.Decimal.{to_string}
use mprpc_main.Chat.Db.{Run, ok, threw, overflowed, ◌>>=◌, or_throw, MySql}
use mprpc_main.Chat.Models.{User}
use mprpc_main.Chat.Models.UserModel
use mprpc_main.Chat.Models.OfflineMsgModel
use mprpc_main.Chat.Models.UserObject.{set_state}
use mprpc_main.Chat.Redis
use mprpc_main.Chat.Redis.{Redis}
use mprpc_main.Chat.Json.{JsonLibrary}

module _ (mysql : MySql) where
  pub record ChatService : Type 0 where
    pub user_conn_map : List (ℤ × ℕ)
    pub redis : Redis
    pub server : mysql.Server
    pub sent : List (ℕ × Bytes)

-- `"chat:user:" + std::to_string(id)`.
abbrev pub user_channel : ℤ → Bytes
user_channel id = codes "chat:user:" ++ to_string id

abbrev pub online : Bytes
online = codes "online"

module _ (mysql : MySql) (atoi : Bytes → ℤ) (lib : JsonLibrary) where
  open lib use {Json}

  -- A call of a model.
  abbrev pub call {ℓ} :
      {A : Type ℓ}
      → (mysql.Server → Run (A × mysql.Server))
      → ChatService mysql
      → Run (A × ChatService mysql)
  call f w = f w.server >>= λ r. ok (r.0, record w { server = r.1 })

  pub send : ℕ → Bytes → ChatService mysql → ChatService mysql
  send conn msg w = record w { sent = w.sent ++ ((conn, msg) ∷ []) }

  -- `conn->send(js.dump())`.
  pub send_json : ℕ → Json → ChatService mysql → Run (ChatService mysql)
  unfolding send
  send_json conn js w = or_throw (lib.dump js) >>= λ msg. ok (send conn msg w)

  store_offline : ℤ → Bytes → ChatService mysql → Run (ChatService mysql)
  store_offline toid msg w = call (OfflineMsgModel.insert mysql atoi toid msg) w >>= λ r. ok r.1

  -- By what `_userConnMap.find` found, and whether the user is online.
  route : Option ℕ → Bool → ℤ → Json → ChatService mysql → Run (ChatService mysql)
  unfolding send_json store_offline
  route (some conn) true toid js w = send_json conn js w
  route none true toid js w = or_throw (lib.dump js) >>= λ msg.
      ok (record w { redis = Redis.publish (user_channel toid) msg w.redis })
  route o false toid js w = or_throw (lib.dump js) >>= λ msg. store_offline toid msg w

  -- The body of `oneChat`, which the loop of `groupChat` repeats.
  pub forward : ℤ → Json → ChatService mysql → Run (ChatService mysql)
  unfolding route
  forward toid js w = call (UserModel.query mysql atoi toid) w >>= λ r.
      route (find toid w.user_conn_map) (bytes_eq r.0.state online) toid js r.1

  -- `ChatService::oneChat`.
  pub one_chat : ℕ → Json → ChatService mysql → Run (ChatService mysql)
  unfolding forward
  one_chat conn js w = or_throw (lib.get_int (codes "toid") js) >>= λ toid. forward toid js w

  pub forward_all : List ℤ → Json → ChatService mysql → Run (ChatService mysql)
  forward_all [] js w = ok w
  forward_all (id ∷ ids) js w = forward id js w >>= λ w'. forward_all ids js w'

  notify : Option ℕ → ℤ → Bytes → ChatService mysql → Run (ChatService mysql)
  unfolding send store_offline
  notify (some conn) userid msg w = ok (send conn msg w)
  notify none userid msg w = store_offline userid msg w

  -- `handleRedisSubscribeMessage`.
  pub handle_redis_subscribe_message : Bytes → Bytes → ChatService mysql → Run (ChatService mysql)
  unfolding notify
  handle_redis_subscribe_message channel msg w =
      if bytes_eq (take 10 channel) (codes "chat:user:")
      then (or_throw (stoi (drop 10 channel)) >>= λ userid.
          notify (find userid w.user_conn_map) userid msg w)
      else ok w

  -- The loop of `clientCloseException`: the key of the first entry of that connection, or -1.
  pub user_of_conn : ℕ → List (ℤ × ℕ) → ℤ
  user_of_conn conn [] = negsuc 0
  user_of_conn conn ((id, c) ∷ m) = if c == conn then id else user_of_conn conn m

  log_off : User → ℤ → ChatService mysql → Run (ChatService mysql)
  log_off user id w =
      if int_eq user.id (pos 0)
      then ok w
      else call (UserModel.update_state mysql atoi (set_state (codes "offline") user)) w >>= λ r.
          ok (record (r.1) { redis = Redis.unsubscribe (user_channel id) (r.1.redis) })

  -- `clientCloseException`.
  pub client_close_exception : ℕ → ChatService mysql → Run (ChatService mysql)
  unfolding user_of_conn log_off
  client_close_exception conn w =
      let id = user_of_conn conn w.user_conn_map in
      if int_eq id (negsuc 0)
      then ok w
      else call (UserModel.query mysql atoi id)
          (record w { user_conn_map = erase id w.user_conn_map })
        >>= λ r. log_off r.0 id r.1
