-- ===== src/Chat/Db/Statements.antt =====
-- When a statement is executed, and when `sprintf` writes behind `sql`.
use mprpc_main.Common.{
  ◌≤◌, ◌<◌, ◌≡◌, refl, sym, subst, Bool, true, false, none, Bytes, length, lt→ltb, le→ltb,
}
use mprpc_main.Chat.Db.{
  Run, ok, threw, ◌>>=◌, overflowed, MySql, sprintf, connect, update, query, run_update,
  update_connected, run_query, query_connected,
}

abbrev pub Returns {ℓ} : {A : Type ℓ} → Run A → Type ℓ
Returns {A = A} m = (a : A) × (m ≡ ok a)

-- A run ends with a value that satisfies `P`, or with an exception for which there is a reason; it
-- does not write behind `sql`.
pub data Settles {ℓ} {A : Type ℓ} (Reason : Type 0) (P : A → Type 0) : Run A → Type ℓ where
  returned : {a : A} → P a → Settles Reason P (ok a)
  raised : Reason → Settles Reason P threw

pub Settles-bind {ℓ κ} :
    {A : Type ℓ} {B : Type κ} {Reason : Type 0} {P : A → Type 0} {Q : B → Type 0} {m : Run A}
    {f : A → Run B}
    → Settles Reason P m
    → ((a : A) → P a → Settles Reason Q (f a))
    → Settles Reason Q (m >>= f)
Settles-bind (returned {a} p) k = k a p
Settles-bind (raised r) k = raised r

pub Returns-Settles {ℓ} :
    {A : Type ℓ} {Reason : Type 0} {m : Run A} → Returns m → Settles Reason (λ _. Unit {0}) m
Returns-Settles {A = A} {Reason = Reason} (a, e) =
    subst (Settles Reason (λ (x : A). Unit {0})) (sym e) (returned tt)

module _ (mysql : MySql) where
  open mysql use {Server}

  update_connected-Returns :
      (sql : Bytes) (c : Bool × Server) → length sql < 1024 → Returns (update_connected mysql sql c)
  unfolding update_connected sprintf
  update_connected-Returns sql (false, s) h = ((false, s), refl)
  update_connected-Returns sql (true, s) h =
      rw (lt→ltb (length sql) 1024 h) (update mysql sql s, refl)

  pub run_update-Returns :
      (sql : Bytes) (s : Server) → length sql < 1024 → Returns (run_update mysql sql s)
  unfolding run_update
  run_update-Returns sql s h = update_connected-Returns sql (connect mysql s) h

  query_connected-Returns :
      (sql : Bytes) (c : Bool × Server) → length sql < 1024 → Returns (query_connected mysql sql c)
  unfolding query_connected sprintf
  query_connected-Returns sql (false, s) h = ((none, s), refl)
  query_connected-Returns sql (true, s) h =
      rw (lt→ltb (length sql) 1024 h) (query mysql sql s, refl)

  pub run_query-Returns :
      (sql : Bytes) (s : Server) → length sql < 1024 → Returns (run_query mysql sql s)
  unfolding run_query
  run_query-Returns sql s h = query_connected-Returns sql (connect mysql s) h

  -- With a connection to the server, a text of 1024 bytes or more is written behind `sql`.
  pub run_update-overflowed :
      (sql : Bytes) (s : Server)
      → (connect mysql s).0 ≡ true
      → 1024 ≤ length sql
      → run_update mysql sql s ≡ overflowed
  unfolding run_update
  run_update-overflowed sql s e h = connected (connect mysql s) e
    where
      connected : (c : Bool × Server) → c.0 ≡ true → update_connected mysql sql c ≡ overflowed
      connected (false, s') f = cc
      connected (true, s') f = unfold update_connected sprintf in rw (le→ltb (length sql) 1024 h)

pub sprintf-Returns : (text : Bytes) → length text < 1024 → Returns (sprintf text)
unfolding sprintf
sprintf-Returns text h = rw (lt→ltb (length text) 1024 h) (text, refl)
