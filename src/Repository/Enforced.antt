-- ===== src/Repository/Enforced.antt =====
-- `AddOrder` over a database that enforces the keys of migrations/. `AddOrderIfNotExists` asks first
-- and begins its transaction then, so an order may come in between; the keys are what is left.
use gorder.Prelude.{String, [], ◌≡◌, refl, sym, subst, inl, inr}
use gorder.Prelude.Result.{Result-cases, Status, done, failed, Status-cases}
use gorder.Models.{Order}
use gorder.Repository.Driver.{Driver, DriverLaws}
use gorder.Repository.Errors.{RepoError}
use gorder.Repository.Insert.{order_row, insert, inserts, end_tx, add_order}
use gorder.Repository.Atomic.{statements, Outcome, add_order_atomic}
use gorder.Repository.Keys.{MeetsKeys}
use gorder.Repository.Tables.{Tables, Statement, insert_order, apply_all, orders_with}
use gorder.Repository.Unique.{IsConsistent, Insertion, add_order-IsConsistent}

-- A statement that succeeds has met the keys.
pub record EnforcesKeys (d : Driver) : Type 0 where
  pub exec_meets : (s : Statement) (tx : d.Tx) → (d.exec s tx).1 ≡ done → MeetsKeys s (d.pending tx)

module _ (d : Driver) (laws : DriverLaws d) (keys : EnforcesKeys d) where
  insert-first :
      (context : String) (s : Statement) (f : d.Tx → d.Tx × Status RepoError) (tx : d.Tx)
      → (insert d context s f tx).1 ≡ done
      → (d.exec s tx).1 ≡ done
  unfolding insert
  insert-first context s f tx ran = elim (Status-cases (d.exec s tx).1) [
    | inl e ↦ e
    | inr (x, e) ↦ let refused : failed _ ≡ done = rw (insert, e) at ran in absurd cc
  ]

  end_tx-done_first :
      (r : d.Tx × Status RepoError) (db : d.Db) → (end_tx d r db).1 ≡ done → r.1 ≡ done
  unfolding end_tx
  end_tx-done_first (tx, done) db ran = refl
  end_tx-done_first (tx, failed e) db ran = absurd cc

  add_order-new :
      (o : Order) (db : d.Db)
      → (add_order d o db).1 ≡ done
      → orders_with o.order_uid (d.tables db).orders ≡ []
  unfolding add_order inserts
  add_order-new o db ran = elim (Result-cases (d.begin db)) [
    | inr (e, p) ↦ let refused : failed _ ≡ done = rw (add_order, p) at ran in absurd cc
    | inl (tx, p) ↦
        let ended_ok : (end_tx d (inserts d o tx) db).1 ≡ done = rw (add_order, p) at ran in
        let first_ok =
          insert-first _ (insert_order (order_row o)) _ tx
            (end_tx-done_first (inserts d o tx) db ended_ok) in
        subst (λ (t : Tables). orders_with o.order_uid t.orders ≡ []) (laws.begin_lem db tx p)
          (keys.exec_meets (insert_order (order_row o)) tx first_ok)
  ]

  -- Over a database that refuses a row against the keys of migrations/, and from consistent tables:
  -- `AddOrder` of any order, one that is there included, leaves consistent tables. Where it reports
  -- success no row had the UID and the order has been added, and where it fails nothing has changed.
  pub add_order_enforced :
      (o : Order) (db : d.Db)
      → IsConsistent (d.tables db)
      → IsConsistent (d.tables (add_order d o db).0)
        × Insertion (add_order d o db).1 o (d.tables db) (d.tables (add_order d o db).0)
  add_order_enforced o db consistent = elim (Status-cases (add_order d o db).1) [
    | inl e ↦ add_order-IsConsistent d laws o db consistent (add_order-new o db e)
    | inr (x, e) ↦
        let same : d.tables (add_order d o db).0 ≡ d.tables db =
          subst
            (λ s.
              Outcome s (d.tables db) (apply_all (statements o) (d.tables db))
                (d.tables (add_order d o db).0))
            e (add_order_atomic d laws o db) in
        (subst IsConsistent (sym same) consistent, rw e same)
  ]
