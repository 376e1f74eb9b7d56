-- ===== src/Chat/Service/Handlers.antt =====
-- chat-main/src/server/ChatService.cpp: the other handlers, and `getHandler`; ChatServer.cpp: what
-- the network library calls.
pub mod Groups
pub mod Dispatch
use mprpc_main.Common.{
  ℕ, zero, suc, Bool, true, false, Option, none, some, List, [], ◌∷◌, Bytes, codes, if◌then◌else◌,
  ℤ, pos, negsuc, int_key, erase,
}
use mprpc_main.Chat.Db.{Run, ok, threw, ◌>>=◌, or_throw, MySql}
use mprpc_main.Chat.Models.{User, no_user, Group}
use mprpc_main.Chat.Models.UserModel
use mprpc_main.Chat.Models.FriendModel
use mprpc_main.Chat.Models.GroupModel
use mprpc_main.Chat.Models.UserObject.{set_id, set_name, set_pwd, set_state}
use mprpc_main.Chat.Models.Objects.{set_group_desc, set_group_name, new_group}
use mprpc_main.Chat.Redis
use mprpc_main.Chat.Json.{JsonLibrary, Value, number, text}
use mprpc_main.Chat.Service.{
  ChatService, user_channel, call, send_json, one_chat, forward_all, client_close_exception,
}
use mprpc_main.Chat.Service.Login.{login}
use mprpc_main.Muduo.Buffer
use mprpc_main.Muduo.Buffer.{Buffer}

module _ (mysql : MySql) (atoi : Bytes → ℤ) (lib : JsonLibrary) where
  open lib use {Json}

  int_of : Bytes → Json → Run ℤ
  int_of key js = or_throw (lib.get_int key js)

  string_of : Bytes → Json → Run Bytes
  string_of key js = or_throw (lib.get_string key js)

  -- `ChatService::loginout`.
  pub loginout : ℕ → Json → ChatService mysql → Run (ChatService mysql)
  unfolding int_of
  loginout conn js w = int_of (codes "id") js >>= λ userid.
      call mysql atoi lib
        (UserModel.update_state mysql atoi (set_state (codes "offline") (set_id userid no_user)))
        (record w { user_conn_map = erase userid w.user_conn_map })
      >>= λ r. ok (record (r.1) { redis = Redis.unsubscribe (user_channel userid) (r.1.redis) })

  -- `ChatService::addFriend`.
  pub add_friend : ℕ → Json → ChatService mysql → Run (ChatService mysql)
  unfolding int_of
  add_friend conn js w = int_of (codes "id") js >>= λ userid.
      int_of (codes "friendid") js >>= λ friendid.
      call mysql atoi lib (FriendModel.insert mysql atoi userid friendid) w >>= λ r.
      call mysql atoi lib (FriendModel.insert mysql atoi friendid userid) r.1 >>= λ r'. ok r'.1

  join_created : Option Group → ℤ → ChatService mysql → Run (ChatService mysql)
  join_created none id w = ok w
  join_created (some group) id w =
      call mysql atoi lib (GroupModel.add_group mysql atoi id group.id (codes "creator")) w >>= λ r.
      ok r.1

  -- `ChatService::createGroup`. The number of a new `Group` is that of its constructor.
  pub create_group : ℕ → Json → ChatService mysql → Run (ChatService mysql)
  unfolding int_of string_of join_created
  create_group conn js w = int_of (codes "id") js >>= λ id.
      string_of (codes "groupname") js >>= λ groupname.
      string_of (codes "groupdesc") js >>= λ groupdesc.
      call mysql atoi lib
        (GroupModel.create_group mysql atoi
          (set_group_desc groupdesc (set_group_name groupname new_group)))
        w
      >>= λ r. join_created r.0 id r.1

  -- `ChatService::addGroup`.
  pub add_group : ℕ → Json → ChatService mysql → Run (ChatService mysql)
  unfolding int_of
  add_group conn js w = int_of (codes "id") js >>= λ id. int_of (codes "groupid") js >>= λ groupid.
      call mysql atoi lib (GroupModel.add_group mysql atoi id groupid (codes "normal")) w >>= λ r.
      ok r.1

  -- `ChatService::groupChat`.
  pub group_chat : ℕ → Json → ChatService mysql → Run (ChatService mysql)
  unfolding int_of
  group_chat conn js w = int_of (codes "id") js >>= λ userid.
      int_of (codes "groupid") js >>= λ groupid.
      call mysql atoi lib (GroupModel.query_group_users mysql atoi userid groupid) w >>= λ r.
      forward_all mysql atoi lib r.0 js r.1

  registered : ℕ → Option User → ChatService mysql → Run (ChatService mysql)
  registered conn (some user) w =
      send_json mysql atoi lib conn
        (lib.object (
          (codes "msgid", number (pos 2))
          ∷ (codes "errno", number (pos 0))
          ∷ (codes "id", number user.id)
          ∷ []))
        w
  registered conn none w =
      send_json mysql atoi lib conn
        (lib.object ((codes "msgid", number (pos 2)) ∷ (codes "errno", number (pos 1)) ∷ [])) w

  -- `ChatService::reg`.
  pub reg : ℕ → Json → ChatService mysql → Run (ChatService mysql)
  unfolding string_of registered
  reg conn js w = string_of (codes "name") js >>= λ name. string_of (codes "password") js >>= λ pwd.
      call mysql atoi lib
        (UserModel.insert mysql atoi
          (set_state (codes "offline") (set_pwd pwd (set_name name no_user))))
        w
      >>= λ r. registered conn r.0 r.1

  -- `MsgType`, less one, and `_msgHandlerMap`.
  handler_at : ℕ → ℕ → Json → ChatService mysql → Run (ChatService mysql)
  handler_at zero = login mysql atoi lib
  handler_at (suc zero) = reg
  handler_at (suc (suc zero)) = one_chat mysql atoi lib
  handler_at (suc (suc (suc zero))) = loginout
  handler_at (suc (suc (suc (suc zero)))) = add_friend
  handler_at (suc (suc (suc (suc (suc zero))))) = create_group
  handler_at (suc (suc (suc (suc (suc (suc zero)))))) = add_group
  handler_at (suc (suc (suc (suc (suc (suc (suc zero))))))) = group_chat
  handler_at _ = λ conn js w. ok w

  -- `getHandler`: another number gets a handler that only logs.
  pub get_handler : ℤ → ℕ → Json → ChatService mysql → Run (ChatService mysql)
  unfolding handler_at
  get_handler (pos (suc n)) = handler_at n
  get_handler _ = λ conn js w. ok w

  handle_text : ℕ → Option (Bytes × Buffer) → ChatService mysql → Run (ChatService mysql × Buffer)
  unfolding int_of
  handle_text conn none w = threw
  handle_text conn (some (buff, b)) w = or_throw (lib.parse buff) >>= λ js.
      int_of (codes "msgid") js >>= λ id. get_handler id conn js w >>= λ w'. ok (w', b)

  -- `ChatServer::OnMessage`: all that is readable is one text. A fault of the buffer is not told
  -- from an exception.
  pub on_message : ℕ → Buffer → ChatService mysql → Run (ChatService mysql × Buffer)
  unfolding handle_text
  on_message conn b w = handle_text conn (Buffer.retrieve_all_as_string b) w

  -- `ChatServer::OnConnection`, less its `shutdown`.
  pub on_connection : ℕ → Bool → ChatService mysql → Run (ChatService mysql)
  on_connection conn connected w =
      if connected then ok w else client_close_exception mysql atoi lib conn w
