-- ===== src/Chat/Models/GroupModel.antt =====
-- chat-main/src/server/GroupModel.cpp.
use mprpc_main.Common.{Bool, true, false, Option, none, some, List, [], ◌∷◌, ◌++◌, Bytes, codes, ℤ}
use mprpc_main.Common.Strings.Decimal.{to_string}
use mprpc_main.Chat.Db
use mprpc_main.Chat.Db.{Run, ok, ◌>>=◌, Row, MySql, c_str}
use mprpc_main.Chat.Models.{Group, GroupUser, column, rows_of}
use mprpc_main.Chat.Models.Objects.{
  new_group_user, set_user_id, set_user_name, set_user_state, set_user_role, new_group,
  set_group_id, set_group_name, set_group_desc,
}

module _ (mysql : MySql) (atoi : Bytes → ℤ) where
  open mysql use {Server}

  created : Group → Bool × Server → Option Group × Server
  created group (false, s) = (none, s)
  created group (true, s) = (some (set_group_id (mysql.insert_id s) group), s)

  -- `GroupModel::createGroup`: the group with its number, if it returns true.
  pub create_group : Group → Server → Run (Option Group × Server)
  unfolding created
  create_group group s =
      Db.run_update mysql
        (codes "insert into allgroup(groupname,groupdesc)values('"
          ++ (c_str group.groupname ++ (codes "','" ++ (c_str group.groupdesc ++ codes "')"))))
        s
      >>= λ r. ok (created group r)

  pub add_group : ℤ → ℤ → Bytes → Server → Run (Bool × Server)
  add_group userid groupid role s =
      Db.run_update mysql
        (codes "insert into groupuser values("
          ++ (to_string groupid
              ++ (codes ", " ++ (to_string userid ++ (codes ", '" ++ (c_str role ++ codes "')"))))))
        s

  unfoldable pub members_of : List Row → List GroupUser
  members_of [] = []
  members_of (row ∷ rows) =
      set_user_role (column 3 row) (
        set_user_state (column 2 row)
          (set_user_name (column 1 row) (set_user_id (atoi (column 0 row)) new_group_user)))
      ∷ members_of rows

  -- The second statement is sent on the same connection, between two rows of the first one.
  unfoldable pub groups_of : List Row → Server → Run (List Group × Server)
  unfolding members_of
  groups_of [] s = ok ([], s)
  groups_of (row ∷ rows) s =
      Db.sprintf (
        codes
          "select a.id, a.name, a.state, b.grouprole from user a inner join groupuser b on a.id = b.userid where b.groupid = "
        ++ to_string (atoi (column 0 row)))
      >>= λ sql.
          let r = Db.query mysql sql s in
          groups_of rows r.1 >>= λ later. ok (
            record (set_group_desc (column 2 row)
                  (set_group_name (column 1 row) (set_group_id (atoi (column 0 row)) new_group))) {
                    users = members_of (rows_of r.0);
                  }
                ∷ later.0,
            later.1,
          )

  unfoldable pub query_groups : ℤ → Server → Run (List Group × Server)
  unfolding groups_of
  query_groups userid s =
      Db.run_query mysql
        (codes
            "select a.id, a.groupname, a.groupdesc from allgroup a inner join groupuser b on b.groupid = a.id where b.userid = "
          ++ to_string userid)
        s
      >>= λ r. groups_of (rows_of r.0) r.1

  unfoldable pub ids_of : List Row → List ℤ
  ids_of [] = []
  ids_of (row ∷ rows) = atoi (column 0 row) ∷ ids_of rows

  unfoldable pub query_group_users : ℤ → ℤ → Server → Run (List ℤ × Server)
  unfolding ids_of
  query_group_users userid groupid s =
      Db.run_query mysql
        (codes "select userid from groupuser where groupid = "
          ++ (to_string groupid ++ (codes " and userid != " ++ to_string userid)))
        s
      >>= λ r. ok (ids_of (rows_of r.0), r.1)
