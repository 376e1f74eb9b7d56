-- ===== src/Chat/Models/UserModel/Bounds.antt =====
-- The statements about one user fit into `sql`.
use mprpc_main.Common.{
  ◌<◌, ◌≤◌, subst, sym, ◌≡◌, List, [], ◌∷◌, ◌++◌, Bytes, length, length-append, codes, ℤ, arith, ap,
}
use mprpc_main.Common.Strings.Decimal.{to_string, IsInt, length-to_string}
use mprpc_main.Chat.Db.{MySql, Row, c_str, ◌>>=◌, ok}
use mprpc_main.Chat.Db.Statements.{Returns, run_query-Returns, run_update-Returns}
use mprpc_main.Chat.Models.{User, column, rows_of}
use mprpc_main.Chat.Models.UserModel.{query, query_text, user_of, update_state, state_text}

-- `atoi` gives an `int`.
abbrev pub GivesInts : (Bytes → ℤ) → Type 0
GivesInts atoi = (t : Bytes) → IsInt (atoi t)

module _ (mysql : MySql) (atoi : Bytes → ℤ) where
  open mysql use {Server}

  query_text-short : (id : ℤ) → IsInt id → length (query_text mysql atoi id) < 1024
  unfolding query_text
  query_text-short id h = omega (
    arith,
    length-append (codes "select * from user where id='") (to_string id ++ codes "'"),
    length-append (to_string id) (codes "'"),
    length-to_string id h,
  )

  -- `query` of a number that is an `int` returns a user.
  pub query-Returns : (id : ℤ) (s : Server) → IsInt id → Returns (query mysql atoi id s)
  unfolding query
  query-Returns id s h =
      let r = run_query-Returns mysql (query_text mysql atoi id) s (query_text-short id h) in
      (
        (user_of mysql atoi (rows_of r.0.0), r.0.1),
        ap (λ m. m >>= λ r'. ok (user_of mysql atoi (rows_of r'.0), r'.1)) r.1,
      )

  user_of-IsInt : GivesInts atoi → (rows : List Row) → IsInt (user_of mysql atoi rows).id
  unfolding user_of
  user_of-IsInt g [] = omega arith
  user_of-IsInt g (row ∷ rows) = g (column 0 row)

  state_text-short :
      (user : User)
      → IsInt user.id
      → length (c_str user.state) ≤ 900
      → length (state_text mysql atoi user) < 1024
  unfolding state_text
  state_text-short user h le = omega (
    arith,
    length-append (codes "update user set state='")
        (c_str user.state ++ (codes "' where id='" ++ (to_string user.id ++ codes "'"))),
    length-append (c_str user.state) (codes "' where id='" ++ (to_string user.id ++ codes "'")),
    length-append (codes "' where id='") (to_string user.id ++ codes "'"),
    length-append (to_string user.id) (codes "'"),
    length-to_string user.id h,
  )

  -- So does `updateState` to a short state.
  pub update_short_state-Returns :
      (user : User) (s : Server)
      → IsInt user.id
      → length (c_str user.state) ≤ 900
      → Returns (update_state mysql atoi user s)
  unfolding update_state
  update_short_state-Returns user s h le =
      run_update-Returns mysql (state_text mysql atoi user) s (state_text-short user h le)

  pub update_state-Returns :
      (user : User) (s : Server)
      → IsInt user.id
      → user.state ≡ codes "offline"
      → Returns (update_state mysql atoi user s)
  unfolding c_str
  update_state-Returns user s h e =
      update_short_state-Returns user s h
        (subst (λ t. length (c_str t) ≤ 900) (sym e) (omega arith))

  -- The user that a query gives has an `int` for its number.
  pub query-IsInt :
      (id : ℤ) (s : Server) (h : IsInt id) → GivesInts atoi → IsInt (query-Returns id s h).0.0.id
  unfolding query-Returns user_of
  query-IsInt id s h g =
      user_of-IsInt g
        (rows_of (run_query-Returns mysql (query_text mysql atoi id) s (query_text-short id h)).0.0)
