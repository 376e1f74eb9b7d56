-- ===== src/Chat/Models/OfflineMsgModel.antt =====
-- chat-main/src/server/OfflineMsgModel.cpp.
pub mod Stored
use mprpc_main.Common.{
  ℕ, zero, suc, Bool, true, false, Option, none, some, List, [], ◌∷◌, ◌++◌, Bytes, codes,
  if◌then◌else◌, ℤ, pos,
}
use mprpc_main.Common.Strings.Decimal.{to_string}
use mprpc_main.Chat.Db
use mprpc_main.Chat.Db.{Run, ok, ◌>>=◌, Row, MySql, c_str}
use mprpc_main.Chat.Models.{User, no_user, Group, GroupUser, column, rows_of}

module _ (mysql : MySql) (atoi : Bytes → ℤ) where
  open mysql use {Server}

  pub insert_text : ℤ → Bytes → Bytes
  insert_text userid msg =
      codes "insert into offlinemessage values('"
      ++ (to_string userid ++ (codes "','" ++ (c_str msg ++ codes "')")))

  pub insert : ℤ → Bytes → Server → Run (Bool × Server)
  unfolding insert_text
  insert userid msg s = Db.run_update mysql (insert_text userid msg) s

  unfoldable pub remove : ℤ → Server → Run (Bool × Server)
  remove userid s =
      Db.run_update mysql (codes "delete from offlinemessage where userid=" ++ to_string userid) s

  unfoldable pub messages_of : List Row → List Bytes
  messages_of [] = []
  messages_of (row ∷ rows) = column 0 row ∷ messages_of rows

  unfoldable pub query : ℤ → Server → Run (List Bytes × Server)
  unfolding messages_of
  query userid s =
      Db.run_query mysql
        (codes "select message from offlinemessage where userid=" ++ to_string userid) s
      >>= λ r. ok (messages_of (rows_of r.0), r.1)
