-- ===== src/Chat/Models/UserModel.antt =====
-- chat-main/src/server/UserModel.cpp.
pub mod Bounds
use mprpc_main.Common.{
  ℕ, zero, suc, Bool, true, false, Option, none, some, List, [], ◌∷◌, ◌++◌, Bytes, codes,
  if◌then◌else◌, ℤ, pos,
}
use mprpc_main.Common.Strings.Decimal.{to_string}
use mprpc_main.Chat.Db
use mprpc_main.Chat.Db.{Run, ok, ◌>>=◌, Row, MySql, c_str}
use mprpc_main.Chat.Models.{User, no_user, Group, GroupUser, column, rows_of}
use mprpc_main.Chat.Models.UserObject.{set_id, set_name, set_pwd, set_state}

module _ (mysql : MySql) (atoi : Bytes → ℤ) where
  open mysql use {Server}

  insert_text : User → Bytes
  insert_text user =
      codes "insert into user(name,password,state) values('"
      ++ (c_str user.name
          ++ (codes "','" ++ (c_str user.pwd ++ (codes "','" ++ (c_str user.state ++ codes "')")))))

  inserted : User → Bool × Server → Option User × Server
  inserted user (false, s) = (none, s)
  inserted user (true, s) = (some (record user { id = mysql.insert_id s }), s)

  -- `UserModel::insert`: the user with its number, if it returns true.
  pub insert : User → Server → Run (Option User × Server)
  unfolding insert_text inserted
  insert user s = Db.run_update mysql (insert_text user) s >>= λ r. ok (inserted user r)

  unfoldable pub query_text : ℤ → Bytes
  query_text id = codes "select * from user where id='" ++ (to_string id ++ codes "'")

  unfoldable pub user_of : List Row → User
  user_of [] = no_user
  user_of (row ∷ rows) =
      set_state (column 3 row)
        (set_pwd (column 2 row) (set_name (column 1 row) (set_id (atoi (column 0 row)) no_user)))

  -- `UserModel::query`: the first row is read only.
  unfoldable pub query : ℤ → Server → Run (User × Server)
  unfolding query_text user_of
  query id s = Db.run_query mysql (query_text id) s >>= λ r. ok (user_of (rows_of r.0), r.1)

  pub state_text : User → Bytes
  state_text user =
      codes "update user set state='"
      ++ (c_str user.state ++ (codes "' where id='" ++ (to_string user.id ++ codes "'")))

  -- `UserModel::updateState`.
  pub update_state : User → Server → Run (Bool × Server)
  unfolding state_text
  update_state user s = Db.run_update mysql (state_text user) s

  -- `UserModel::resetState`.
  pub reset_state : Server → Run (Bool × Server)
  reset_state s =
      Db.run_update mysql (codes "update user set state='offline' where state='online'") s
