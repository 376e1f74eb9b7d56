-- ===== src/Chat/Models/OfflineMsgModel/Stored.antt =====
-- Which messages fit into the statement that stores them.
use mprpc_main.Common.{
  ◌+◌, ◌≤◌, ◌<◌, ◌≡◌, true, ◌++◌, Bytes, length, length-append, codes, ℤ, arith,
}
use mprpc_main.Common.Strings.Decimal.{to_string, IsInt, length-to_string}
use mprpc_main.Chat.Db
use mprpc_main.Chat.Db.{MySql, c_str, overflowed}
use mprpc_main.Chat.Db.Statements.{Returns, run_update-Returns, run_update-overflowed}
use mprpc_main.Chat.Models.OfflineMsgModel.{insert, insert_text}

module _ (mysql : MySql) (atoi : Bytes → ℤ) where
  open mysql use {Server}

  abbrev pub Storable : ℤ → Bytes → Type 0
  Storable userid msg = length (insert_text mysql atoi userid msg) < 1024

  pub insert-Returns :
      (userid : ℤ) (msg : Bytes) (s : Server)
      → Storable userid msg
      → Returns (insert mysql atoi userid msg s)
  unfolding insert
  insert-Returns userid msg s h = run_update-Returns mysql (insert_text mysql atoi userid msg) s h

  length-insert_text :
      (userid : ℤ) (msg : Bytes)
      → length (insert_text mysql atoi userid msg)
        ≡ 40 + length (to_string userid) + length (c_str msg)
  unfolding insert_text
  length-insert_text userid msg = omega (
    arith,
    length-append (codes "insert into offlinemessage values('")
        (to_string userid ++ (codes "','" ++ (c_str msg ++ codes "')"))),
    length-append (to_string userid) (codes "','" ++ (c_str msg ++ codes "')")),
    length-append (codes "','") (c_str msg ++ codes "')"),
    length-append (c_str msg) (codes "')"),
  )

  -- A message of 984 bytes is too long, for any user.
  pub insert-overflowed :
      (userid : ℤ) (msg : Bytes) (s : Server)
      → (Db.connect mysql s).0 ≡ true
      → 984 ≤ length (c_str msg)
      → insert mysql atoi userid msg s ≡ overflowed
  unfolding insert
  insert-overflowed userid msg s c h =
      run_update-overflowed mysql (insert_text mysql atoi userid msg) s c
        (omega (arith, length-insert_text userid msg))

  -- A message of 972 bytes fits, for any user.
  pub short-Storable :
      (userid : ℤ) (msg : Bytes) → IsInt userid → length (c_str msg) ≤ 972 → Storable userid msg
  short-Storable userid msg h s =
      omega (arith, length-insert_text userid msg, length-to_string userid h)
