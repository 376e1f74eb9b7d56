-- ===== src/Chat/Models/UserObject.antt =====
-- chat-main/src/server/User.cpp: a user as an object that is filled in. `User()` is `no_user`.
use mprpc_main.Common.{Bytes, ℤ}
use mprpc_main.Chat.Models.{User}

-- `User`, with its values.
abbrev pub user_of_values : ℤ → Bytes → Bytes → Bytes → User
user_of_values id name pwd state = record { id = id; name = name; pwd = pwd; state = state }

abbrev pub set_id : ℤ → User → User
set_id id u = record u { id = id }

abbrev pub set_name : Bytes → User → User
set_name name u = record u { name = name }

abbrev pub set_pwd : Bytes → User → User
set_pwd pwd u = record u { pwd = pwd }

abbrev pub set_state : Bytes → User → User
set_state state u = record u { state = state }
