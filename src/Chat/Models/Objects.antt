-- ===== src/Chat/Models/Objects.antt =====
-- chat-main/src/server/Group.cpp: the groups and their members as objects that are filled in.
use mprpc_main.Common.{[], ◌∷◌, ◌++◌, Bytes, ℤ, pos}
use mprpc_main.Chat.Models.{Group, GroupUser}

-- `GroupUser()`.
abbrev pub new_group_user : GroupUser
new_group_user = record { id = pos 0; name = []; state = []; role = [] }

abbrev pub set_user_id : ℤ → GroupUser → GroupUser
set_user_id id u = record u { id = id }

abbrev pub set_user_name : Bytes → GroupUser → GroupUser
set_user_name name u = record u { name = name }

abbrev pub set_user_state : Bytes → GroupUser → GroupUser
set_user_state state u = record u { state = state }

abbrev pub set_user_role : Bytes → GroupUser → GroupUser
set_user_role role u = record u { role = role }

-- `Group()`, and `Group` with its values.
abbrev pub new_group : Group
new_group = record { id = pos 0; groupname = []; groupdesc = []; users = [] }

abbrev pub group_of : ℤ → Bytes → Bytes → Group
group_of id groupname groupdesc = record {
  id = id;
  groupname = groupname;
  groupdesc = groupdesc;
  users = [];
}

abbrev pub set_group_id : ℤ → Group → Group
set_group_id id g = record g { id = id }

abbrev pub set_group_name : Bytes → Group → Group
set_group_name groupname g = record g { groupname = groupname }

abbrev pub set_group_desc : Bytes → Group → Group
set_group_desc groupdesc g = record g { groupdesc = groupdesc }

-- `getUsers().push_back(user)`.
abbrev pub push_user : GroupUser → Group → Group
push_user u g = record g { users = g.users ++ (u ∷ []) }
