-- ===== src/Chat/Models.antt =====
-- chat-main/src/server/{User,UserModel,FriendModel,OfflineMsgModel,Group,GroupModel}.cpp: the rows
-- of the data base as objects. `atoi` is of <cstdlib>, a parameter; a column that the statement
-- selects is there in each row, so `column` gives the empty text for none other. A column that is
-- NULL, of which the code would make a string from a null pointer, is left out.
pub mod UserObject
pub mod UserModel
pub mod FriendModel
pub mod OfflineMsgModel
pub mod Objects
pub mod GroupModel
pub mod Queries
use mprpc_main.Common.{
  ℕ, zero, suc, Bool, true, false, Option, none, some, List, [], ◌∷◌, ◌++◌, Bytes, codes,
  if◌then◌else◌, ℤ, pos,
}
use mprpc_main.Common.Strings.Decimal.{to_string}
use mprpc_main.Chat.Db
use mprpc_main.Chat.Db.{Run, ok, threw, overflowed, ◌>>=◌, Row, MySql, c_str}

pub record User : Type 0 where
  pub id : ℤ
  pub name : Bytes
  pub pwd : Bytes
  pub state : Bytes

-- `User()`.
abbrev pub no_user : User
no_user = record { id = pos 0; name = []; pwd = []; state = codes "offline" }

pub record GroupUser : Type 0 where
  pub id : ℤ
  pub name : Bytes
  pub state : Bytes
  pub role : Bytes

pub record Group : Type 0 where
  pub id : ℤ
  pub groupname : Bytes
  pub groupdesc : Bytes
  pub users : List GroupUser

-- `row[i]`.
unfoldable pub column : ℕ → Row → Bytes
column i [] = []
column zero (c ∷ row) = c
column (suc i) (c ∷ row) = column i row

abbrev pub rows_of : Option (List Row) → List Row
rows_of none = []
rows_of (some rows) = rows
