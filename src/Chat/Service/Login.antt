-- ===== src/Chat/Service/Login.antt =====
-- chat-main/src/server/ChatService.cpp: `login`, with what its response holds.
pub mod Accepted
use mprpc_main.Common.{
  ℕ, Bool, true, false, not, Option, none, some, List, [], ◌∷◌, ◌++◌, Bytes, codes, bytes_eq,
  if◌then◌else◌, ℤ, pos, int_eq, int_key, insert,
}
use mprpc_main.Chat.Db.{Run, ok, ◌>>=◌, or_throw, MySql}
use mprpc_main.Chat.Models.{User, GroupUser, Group}
use mprpc_main.Chat.Models.UserModel
use mprpc_main.Chat.Models.OfflineMsgModel
use mprpc_main.Chat.Models.FriendModel
use mprpc_main.Chat.Models.GroupModel
use mprpc_main.Chat.Models.UserObject.{set_state}
use mprpc_main.Chat.Redis
use mprpc_main.Chat.Json.{JsonLibrary, Value, number, text, texts}
use mprpc_main.Chat.Service.{ChatService, user_channel, online, call, send_json}

module _ (mysql : MySql) (atoi : Bytes → ℤ) (lib : JsonLibrary) where
  open lib use {Json}

  -- Each object of a list is dumped to a text; the first that throws ends the handler.
  dump_all : List Json → Run (List Bytes)
  dump_all [] = ok []
  dump_all (js ∷ rest) = or_throw (lib.dump js) >>= λ t. dump_all rest >>= λ ts. ok (t ∷ ts)

  friend_objects : List User → List Json
  friend_objects [] = []
  friend_objects (u ∷ us) =
      lib.object (
        (codes "id", number u.id)
        ∷ (codes "name", text u.name)
        ∷ (codes "state", text u.state)
        ∷ [])
      ∷ friend_objects us

  member_objects : List GroupUser → List Json
  member_objects [] = []
  member_objects (u ∷ us) =
      lib.object (
        (codes "id", number u.id)
        ∷ (codes "name", text u.name)
        ∷ (codes "state", text u.state)
        ∷ (codes "role", text u.role)
        ∷ [])
      ∷ member_objects us

  group_texts : List Group → Run (List Bytes)
  unfolding dump_all member_objects
  group_texts [] = ok []
  group_texts (g ∷ gs) = dump_all (member_objects g.users) >>= λ users.
      or_throw (
        lib.dump (
          lib.object (
            (codes "id", number g.id)
            ∷ (codes "groupname", text g.groupname)
            ∷ (codes "groupdesc", text g.groupdesc)
            ∷ (codes "users", texts users)
            ∷ [])))
      >>= λ t. group_texts gs >>= λ ts. ok (t ∷ ts)

  -- A field that is set only if there is something to say.
  field_if : Bytes → List Bytes → List (Bytes × Value)
  field_if name [] = []
  field_if name (t ∷ ts) = (name, texts (t ∷ ts)) ∷ []

  -- `_offlineMsgModel.remove`, if there were messages.
  remove_if : List Bytes → ℤ → ChatService mysql → Run (ChatService mysql)
  remove_if [] id w = ok w
  remove_if (m ∷ ms) id w =
      call mysql atoi lib (OfflineMsgModel.remove mysql atoi id) w >>= λ r. ok r.1

  respond : ℕ → List (Bytes × Value) → ChatService mysql → Run (ChatService mysql)
  respond conn fields w =
      send_json mysql atoi lib conn (lib.object ((codes "msgid", number (pos 1)) ∷ fields)) w

  -- The refusals.
  refuse : ℕ → ℕ → Bytes → ChatService mysql → Run (ChatService mysql)
  unfolding respond
  refuse conn errno errmsg w =
      respond conn ((codes "errno", number (pos errno)) ∷ (codes "errmsg", text errmsg) ∷ []) w

  -- What follows the subscription.
  greet : ℕ → ℤ → User → ChatService mysql → Run (ChatService mysql)
  unfolding field_if remove_if respond friend_objects group_texts dump_all
  greet conn id user w = call mysql atoi lib (OfflineMsgModel.query mysql atoi id) w >>= λ offline.
      remove_if offline.0 id offline.1 >>= λ w1.
      call mysql atoi lib (FriendModel.query mysql atoi id) w1 >>= λ friends.
      dump_all (friend_objects friends.0) >>= λ friend_texts.
      call mysql atoi lib (GroupModel.query_groups mysql atoi id) friends.1 >>= λ groups.
      group_texts groups.0 >>= λ groups_text.
      respond conn
        ((codes "errno", number (pos 0))
          ∷ (codes "id", number user.id)
          ∷ (codes "name", text user.name)
          ∷ (field_if (codes "offlinemsg") offline.0
              ++ (field_if (codes "friends") friend_texts
                  ++ field_if (codes "groups") groups_text)))
        groups.1

  enter : ℕ → ℤ → ChatService mysql → ChatService mysql
  enter conn id w = record w {
    user_conn_map = insert id conn w.user_conn_map;
    redis = Redis.subscribe (user_channel id) w.redis;
  }

  accept : ℕ → ℤ → User → ChatService mysql → Run (ChatService mysql)
  unfolding greet enter
  accept conn id user w =
      call mysql atoi lib (UserModel.update_state mysql atoi (set_state online user)) w >>= λ r.
      greet conn id user (enter conn id r.1)

  answer : ℕ → ℤ → Bytes → User → ChatService mysql → Run (ChatService mysql)
  unfolding refuse accept
  answer conn id pwd user w =
      if int_eq user.id (pos 0)
      then refuse conn 1 (codes "user not exist") w
      else if not (bytes_eq user.pwd pwd)
      then refuse conn 2 (codes "password is error") w
      else if bytes_eq user.state online
      then refuse conn 3 (codes "this account is using") w
      else accept conn id user w

  -- `ChatService::login`.
  pub login : ℕ → Json → ChatService mysql → Run (ChatService mysql)
  unfolding answer
  login conn js w = or_throw (lib.get_int (codes "id") js) >>= λ id.
      or_throw (lib.get_string (codes "password") js) >>= λ pwd.
      call mysql atoi lib (UserModel.query mysql atoi id) w >>= λ r. answer conn id pwd r.0 r.1
