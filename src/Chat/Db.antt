-- ===== src/Chat/Db.antt =====
-- chat-main/src/server/Db.cpp, and the statements that the models print into `char sql[1024]`.
-- The MySQL client is a parameter. A `Run` ends with a value, with an exception that leaves the
-- handler, or with a `sprintf` that writes behind the end of `sql`.
pub mod Statements
unfoldable pub use mprpc_main.Common.{c_str}
use mprpc_main.Common.{
  ℕ, zero, suc, Bool, true, false, Option, none, some, List, [], ◌∷◌, ◌++◌, Bytes, length, ltb,
  codes, if◌then◌else◌, ℤ,
}

pub data Run {ℓ} (A : Type ℓ) : Type ℓ where
  ok : A → Run A
  threw : Run A
  overflowed : Run A

infixl 5 ◌>>=◌
abbrev pub ◌>>=◌ {ℓ κ} : {A : Type ℓ} {B : Type κ} → Run A → (A → Run B) → Run B
ok a >>= f = f a
threw >>= f = threw
overflowed >>= f = overflowed

-- A field that has to be there.
abbrev pub or_throw {ℓ} : {A : Type ℓ} → Option A → Run A
or_throw none = threw
or_throw (some a) = ok a

-- A result row, by columns.
abbrev pub Row : Type 0
Row = List Bytes

-- The MySQL client and its server. `query` says whether `mysql_query` returned 0; `rows` are what
-- `mysql_fetch_row` gives after `mysql_use_result` until it gives `nullptr`, and `none` is a null
-- result set. `connect` is `mysql_real_connect`.
pub record MySql : Type 1 where
  pub Server : Type 0
  pub connect : Server → Bool × Server
  pub query : Bytes → Server → Bool × Server
  pub rows : Server → Option (List Row)
  pub insert_id : Server → ℤ

-- `sprintf(sql, …)`: the text and its zero byte have 1024 bytes.
unfoldable pub sprintf : Bytes → Run Bytes
sprintf text = if ltb (length text) 1024 then ok text else overflowed

module _ (mysql : MySql) where
  open mysql use {Server}

  unfoldable pub after_connect : Bool × Server → Bool × Server
  after_connect (false, s) = (false, s)
  after_connect (true, s) = (true, (mysql.query (codes "set names gbk") s).1)

  -- `Db::connect`: the character set is asked for, whether or not it is given.
  unfoldable pub connect : Server → Bool × Server
  unfolding after_connect
  connect s = after_connect (mysql.connect s)

  -- `Db::update`.
  pub update : Bytes → Server → Bool × Server
  update sql s = mysql.query sql s

  unfoldable pub result_of : Bool × Server → Option (List Row) × Server
  result_of (false, s) = (none, s)
  result_of (true, s) = (mysql.rows s, s)

  -- `Db::query`, with the rows that its result gives.
  unfoldable pub query : Bytes → Server → Option (List Row) × Server
  unfolding result_of
  query sql s = result_of (mysql.query sql s)

  update_connected : Bytes → Bool × Server → Run (Bool × Server)
  unfolding update sprintf
  update_connected text (false, s) = ok (false, s)
  update_connected text (true, s) = sprintf text >>= λ sql. ok (update sql s)

  -- `Db db; if (db.connect()) { sprintf(…); db.update(sql) }`.
  pub run_update : Bytes → Server → Run (Bool × Server)
  unfolding update_connected connect
  run_update text s = update_connected text (connect s)

  unfoldable pub query_connected : Bytes → Bool × Server → Run (Option (List Row) × Server)
  unfolding query sprintf
  query_connected text (false, s) = ok (none, s)
  query_connected text (true, s) = sprintf text >>= λ sql. ok (query sql s)

  -- `Db db; if (db.connect()) { sprintf(…); db.query(sql) }`.
  unfoldable pub run_query : Bytes → Server → Run (Option (List Row) × Server)
  unfolding query_connected connect
  run_query text s = query_connected text (connect s)
