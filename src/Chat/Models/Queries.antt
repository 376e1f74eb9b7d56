-- ===== src/Chat/Models/Queries.antt =====
-- The queries of chat-main/src/server about a user's messages, friends and groups: that they fit
-- into `sql`, and which texts their results hold.
use mprpc_main.Common.{
  ℕ, zero, suc, ◌≡◌, Bool, true, false, some, lt→ltb, Option-cases, inl, inr, ◌≤◌, ◌<◌, arith, List,
  [], ◌∷◌, ◌++◌, Bytes, length, length-append, codes, ℤ,
}
use mprpc_main.Common.Strings.Decimal.{to_string, IsInt, length-to_string}
use mprpc_main.Chat.Db
use mprpc_main.Chat.Db.{MySql, Row, Run, ok, ◌>>=◌}
use mprpc_main.Chat.Db.Statements.{
  Settles, returned, Settles-bind, Returns-Settles, run_update-Returns, sprintf-Returns,
}
use mprpc_main.Chat.Models.{User, GroupUser, Group, column, rows_of}
use mprpc_main.Chat.Models.OfflineMsgModel
use mprpc_main.Chat.Models.FriendModel
use mprpc_main.Chat.Models.GroupModel
use mprpc_main.Chat.Models.UserModel.Bounds.{GivesInts}

-- A short text and a number behind it.
numbered-short :
    (s : Bytes) (id : ℤ) → length s ≤ 1000 → IsInt id → length (s ++ to_string id) < 1024
numbered-short s id le h = omega (arith, length-append s (to_string id), length-to_string id h)

-- Every text, of a list, of rows, of users, of members and of groups.
module _ (Clean : Bytes → Type 0) where
  abbrev pub EachClean : List Bytes → Type 0
  EachClean [] = Unit {0}
  EachClean (s ∷ ss) = Clean s × EachClean ss

  abbrev pub RowsClean : List Row → Type 0
  RowsClean [] = Unit {0}
  RowsClean (row ∷ rows) = EachClean row × RowsClean rows

  abbrev pub UsersClean : List User → Type 0
  UsersClean [] = Unit {0}
  UsersClean (u ∷ us) = Clean u.name × Clean u.state × UsersClean us

  abbrev pub MembersClean : List GroupUser → Type 0
  MembersClean [] = Unit {0}
  MembersClean (u ∷ us) = Clean u.name × Clean u.state × Clean u.role × MembersClean us

  abbrev pub GroupsClean : List Group → Type 0
  GroupsClean [] = Unit {0}
  GroupsClean (g ∷ gs) =
      Clean g.groupname × Clean g.groupdesc × MembersClean g.users × GroupsClean gs

-- All texts that the data base gives are clean, and so is the empty one.
pub record GivesClean (mysql : MySql) (Clean : Bytes → Type 0) : Type 0 where
  pub empty : Clean []
  pub rows : (s : mysql.Server) (rs : List Row) → mysql.rows s ≡ some rs → RowsClean Clean rs

module _ (mysql : MySql) (atoi : Bytes → ℤ) (Clean : Bytes → Type 0)
    (gives : GivesClean mysql Clean) where
  open mysql use {Server}

  column-Clean : (i : ℕ) (row : Row) → EachClean Clean row → Clean (column i row)
  unfolding column
  column-Clean i [] h = gives.empty
  column-Clean zero (c ∷ row) h = h.0
  column-Clean (suc i) (c ∷ row) h = column-Clean i row h.1

  result_of-Clean : (r : Bool × Server) → RowsClean Clean (rows_of (Db.result_of mysql r).0)
  unfolding Db.result_of
  result_of-Clean (false, s) = tt
  result_of-Clean (true, s) = elim (Option-cases (mysql.rows s)) [
    | inl e ↦ rw e tt
    | inr (rs, e) ↦ rw e (gives.rows s rs e)
  ]

  query_connected-Clean :
      (sql : Bytes) (c : Bool × Server)
      → length sql < 1024
      → Settles ⊥ (λ r. RowsClean Clean (rows_of r.0)) (Db.query_connected mysql sql c)
  unfolding Db.query_connected Db.sprintf Db.query
  query_connected-Clean sql (false, s) h = returned tt
  query_connected-Clean sql (true, s) h =
      rw (lt→ltb (length sql) 1024 h) (returned (result_of-Clean (mysql.query sql s)))

  run_query-Clean :
      (sql : Bytes) (s : Server)
      → length sql < 1024
      → Settles ⊥ (λ r. RowsClean Clean (rows_of r.0)) (Db.run_query mysql sql s)
  unfolding Db.run_query
  run_query-Clean sql s h = query_connected-Clean sql (Db.connect mysql s) h

  messages_of-Clean :
      (rows : List Row)
      → RowsClean Clean rows
      → EachClean Clean (OfflineMsgModel.messages_of mysql atoi rows)
  unfolding OfflineMsgModel.messages_of
  messages_of-Clean [] h = tt
  messages_of-Clean (row ∷ rows) h = (column-Clean 0 row h.0, messages_of-Clean rows h.1)

  pub messages-Settles :
      (id : ℤ) (s : Server)
      → IsInt id
      → Settles ⊥ (λ r. EachClean Clean r.0) (OfflineMsgModel.query mysql atoi id s)
  unfolding OfflineMsgModel.query
  messages-Settles id s h =
      Settles-bind
        (run_query-Clean _ s (
          numbered-short (codes "select message from offlinemessage where userid=") id (omega arith)
            h))
        (λ r u. returned (messages_of-Clean (rows_of r.0) u))

  pub remove-Settles :
      (id : ℤ) (s : Server)
      → IsInt id
      → Settles ⊥ (λ _. Unit {0}) (OfflineMsgModel.remove mysql atoi id s)
  unfolding OfflineMsgModel.remove
  remove-Settles id s h = Returns-Settles (
      run_update-Returns mysql _ s
        (numbered-short (codes "delete from offlinemessage where userid=") id (omega arith) h))

  friends_of-Clean :
      (rows : List Row)
      → RowsClean Clean rows
      → UsersClean Clean (FriendModel.friends_of mysql atoi rows)
  unfolding FriendModel.friends_of
  friends_of-Clean [] h = tt
  friends_of-Clean (row ∷ rows) h =
      (column-Clean 1 row h.0, column-Clean 2 row h.0, friends_of-Clean rows h.1)

  pub friends-Settles :
      (id : ℤ) (s : Server)
      → IsInt id
      → Settles ⊥ (λ r. UsersClean Clean r.0) (FriendModel.query mysql atoi id s)
  unfolding FriendModel.query
  friends-Settles id s h =
      Settles-bind
        (run_query-Clean _ s (
          numbered-short
            (codes
              "select a.id, a.name, a.state from user a inner join friend b on b.friendid = a.id where b.userid = ")
            id (omega arith) h))
        (λ r u. returned (friends_of-Clean (rows_of r.0) u))

  members_of-Clean :
      (rows : List Row)
      → RowsClean Clean rows
      → MembersClean Clean (GroupModel.members_of mysql atoi rows)
  unfolding GroupModel.members_of
  members_of-Clean [] h = tt
  members_of-Clean (row ∷ rows) h = (
    column-Clean 1 row h.0,
    column-Clean 2 row h.0,
    column-Clean 3 row h.0,
    members_of-Clean rows h.1,
  )

  groups_of-Settles :
      (rows : List Row) (s : Server)
      → GivesInts atoi
      → RowsClean Clean rows
      → Settles ⊥ (λ r. GroupsClean Clean r.0) (GroupModel.groups_of mysql atoi rows s)
  unfolding GroupModel.groups_of Db.query
  groups_of-Settles [] s g h = returned tt
  groups_of-Settles (row ∷ rows) s g h =
      Settles-bind
        (Returns-Settles (
          sprintf-Returns _ (
            numbered-short
              (codes
                "select a.id, a.name, a.state, b.grouprole from user a inner join groupuser b on a.id = b.userid where b.groupid = ")
              (atoi (column 0 row)) (omega arith) (g _))))
        (λ sql u. Settles-bind (groups_of-Settles rows (Db.query mysql sql s).1 g h.1) (λ later v.
          returned (
            column-Clean 1 row h.0,
            column-Clean 2 row h.0,
            members_of-Clean _ (result_of-Clean (mysql.query sql s)),
            v,
          )))

  pub groups-Settles :
      (id : ℤ) (s : Server)
      → IsInt id
      → GivesInts atoi
      → Settles ⊥ (λ r. GroupsClean Clean r.0) (GroupModel.query_groups mysql atoi id s)
  unfolding GroupModel.query_groups
  groups-Settles id s h g =
      Settles-bind
        (run_query-Clean _ s (
          numbered-short
            (codes
              "select a.id, a.groupname, a.groupdesc from allgroup a inner join groupuser b on b.groupid = a.id where b.userid = ")
            id (omega arith) h))
        (λ r u. groups_of-Settles (rows_of r.0) r.1 g u)
