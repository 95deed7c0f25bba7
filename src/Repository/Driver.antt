-- ===== src/Repository/Driver.antt =====
-- What repository.go relies on in pgx and PostgreSQL: the driver is a parameter, and its laws are
-- the documented behaviour of transactions, INSERT and SELECT. One transaction is looked at by
-- itself: a law speaks of the tables as the transaction or the query finds them.
use gorder.Prelude.{ℕ, String, ◌≡◌, ◌≤◌, List, [], In, map, take}
use mathlib.Core.List.{Perm, Pairwise}
use gorder.Prelude.Result.{Result, ok, err, Status, done, failed}
use gorder.Repository.Tables.{Tables, Statement, apply, OrderRow, UserRow, uid_of}

-- `pgx.ErrNoRows`, and every other error by its text.
pub data DbError : Type 0 where
  no_rows : DbError
  other : String → DbError

pub record Driver : Type 1 where
  pub Db : Type 0
  pub Tx : Type 0
  -- the committed tables, and the tables as a transaction sees them
  pub tables : Db → Tables
  pub pending : Tx → Tables
  pub ping : Db → Status DbError
  pub begin : Db → Result DbError Tx
  pub exec : Statement → Tx → Tx × Status DbError
  pub commit : Tx → Db → Db × Status DbError
  pub rollback : Tx → Db → Db × Status DbError
  -- `INSERT INTO users` outside a transaction
  pub exec_user : UserRow → Db → Db × Status DbError
  -- `pool.Query`: the rows, and what `rows.Err()` says after them
  pub query : {A : Type 0} → (Tables → List A) → Db → Result DbError (List A × Status DbError)
  -- `ORDER BY date_created DESC LIMIT $1`
  pub query_recent : ℕ → Db → Result DbError (List String × Status DbError)
  -- `pool.QueryRow(…).Scan`
  pub query_row : {A : Type 0} → (Tables → List A) → Db → Result DbError A

-- A new transaction sees the committed tables, an INSERT that succeeds is seen by it with its UIDs in
-- the form that they were given in, a COMMIT that succeeds publishes it, and a ROLLBACK publishes
-- nothing. Nor does a COMMIT that fails: this is so where the server has answered it, so the laws leave
-- out a connection that is lost during the COMMIT.
pub record DriverLaws (d : Driver) : Type 1 where
  pub begin_lem : (db : d.Db) (tx : d.Tx) → d.begin db ≡ ok tx → d.pending tx ≡ d.tables db
  pub exec_lem :
      (s : Statement) (tx : d.Tx)
      → (d.exec s tx).1 ≡ done
      → d.pending (d.exec s tx).0 ≡ apply s (d.pending tx)
  pub commit_lem :
      (tx : d.Tx) (db : d.Db)
      → (d.commit tx db).1 ≡ done
      → d.tables (d.commit tx db).0 ≡ d.pending tx
  pub commit_failed :
      (tx : d.Tx) (db : d.Db) (e : DbError)
      → (d.commit tx db).1 ≡ failed e
      → d.tables (d.commit tx db).0 ≡ d.tables db
  pub rollback_lem : (tx : d.Tx) (db : d.Db) → d.tables (d.rollback tx db).0 ≡ d.tables db
  -- An INSERT into the users changes no other table.
  pub exec_user_lem :
      (user : UserRow) (db : d.Db)
      → d.tables (d.exec_user user db).0
        ≡ record (d.tables db) { users = (d.tables (d.exec_user user db).0).users }
  -- The rows of a query come in any order.
  pub query_lem :
      {A : Type 0} (q : Tables → List A) (db : d.Db) (rows : List A)
      → d.query q db ≡ ok (rows, done)
      → Perm rows (q (d.tables db))
  pub query_row_lem :
      {A : Type 0} (q : Tables → List A) (db : d.Db) (row : A)
      → d.query_row q db ≡ ok row
      → In row (q (d.tables db))
  pub query_row_none :
      {A : Type 0} (q : Tables → List A) (db : d.Db)
      → d.query_row q db ≡ err no_rows
      → q (d.tables db) ≡ []
  -- The newest orders come first, and at most as many as are asked for.
  pub query_recent_lem :
      (n : ℕ) (db : d.Db) (uids : List String)
      → d.query_recent n db ≡ ok (uids, done)
      → (rows : List OrderRow) × Perm rows ((d.tables db).orders)
        × Pairwise (λ o p. p.date_created ≤ o.date_created) rows
        × (uids ≡ take n (map uid_of rows))
