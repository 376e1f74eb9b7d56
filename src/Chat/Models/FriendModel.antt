-- ===== src/Chat/Models/FriendModel.antt =====
-- chat-main/src/server/FriendModel.cpp.
use mprpc_main.Common.{Bool, List, [], ◌∷◌, ◌++◌, Bytes, codes, ℤ}
use mprpc_main.Common.Strings.Decimal.{to_string}
use mprpc_main.Chat.Db
use mprpc_main.Chat.Db.{Run, ok, ◌>>=◌, Row, MySql, c_str}
use mprpc_main.Chat.Models.{User, no_user, column, rows_of}
use mprpc_main.Chat.Models.UserObject.{set_id, set_name, set_state}

module _ (mysql : MySql) (atoi : Bytes → ℤ) where
  open mysql use {Server}

  pub insert : ℤ → ℤ → Server → Run (Bool × Server)
  insert userid friendid s =
      Db.run_update mysql
        (codes "insert into friend values("
          ++ (to_string userid ++ (codes ", " ++ (to_string friendid ++ codes ")"))))
        s

  unfoldable pub friends_of : List Row → List User
  friends_of [] = []
  friends_of (row ∷ rows) =
      set_state (column 2 row) (set_name (column 1 row) (set_id (atoi (column 0 row)) no_user))
      ∷ friends_of rows

  unfoldable pub query : ℤ → Server → Run (List User × Server)
  unfolding friends_of
  query userid s =
      Db.run_query mysql
        (codes
            "select a.id, a.name, a.state from user a inner join friend b on b.friendid = a.id where b.userid = "
          ++ to_string userid)
        s
      >>= λ r. ok (friends_of (rows_of r.0), r.1)
