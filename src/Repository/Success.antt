-- ===== src/Repository/Success.antt =====
-- `AddOrder` and `AddOrderIfNotExists` where the database does not fail.
use gorder.Prelude.{String, List, [], ◌∷◌, ◌≡◌, refl, sym, subst, All, Bool, true, false, In, arith}
use gorder.Prelude.Result.{ok, Status, done}
use gorder.Models.{Order, Item}
use gorder.Repository.Driver.{Driver, DriverLaws}
use gorder.Repository.Errors.{RepoError}
use gorder.Repository.Insert.{
  delivery_row, payment_row, insert, insert_items, inserts, end_tx, add_order, order_exists,
  add_order_if_not_exists,
}
use gorder.Repository.Atomic.{item_statements, statements}
use gorder.Repository.Keys.{IsAccepted, AreAccepted, statements-AreAccepted}
use gorder.Repository.RoundTrip.{added, tables-add_order}
use gorder.Repository.Tables.{Statement, insert_delivery, insert_payment, exists_query, orders_with}
use gorder.Repository.Unique.{IsConsistent}
use gorder.Repository.Widths.{FitsColumns}

-- A transaction in which every statement has succeeded so far.
pub data Intact (d : Driver) : d.Tx → Type 0 where
  begun : (db : d.Db) (tx : d.Tx) → d.begin db ≡ ok tx → Intact d tx
  executed :
      (s : Statement) (tx : d.Tx) → Intact d tx → (d.exec s tx).1 ≡ done → Intact d (d.exec s tx).0

-- Transactions begin, statements that the tables accept succeed, a transaction commits unless a
-- statement of it has failed, and a query with one row is answered.
pub record IsUp (d : Driver) : Type 0 where
  pub begins : (db : d.Db) → (tx : d.Tx) × (d.begin db ≡ ok tx)
  pub executes :
      (s : Statement) (tx : d.Tx)
      → Intact d tx
      → IsAccepted s (d.pending tx)
      → (d.exec s tx).1 ≡ done
  pub commits : (tx : d.Tx) (db : d.Db) → Intact d tx → (d.commit tx db).1 ≡ done
  pub looks_up :
      (uid : String) (db : d.Db) → (b : Bool) × (d.query_row (exists_query uid) db ≡ ok b)

module _ (d : Driver) (laws : DriverLaws d) (up : IsUp d) where
  abbrev Succeeds : List Statement → (d.Tx → d.Tx × Status RepoError) → Type 0
  Succeeds ss f =
      (tx : d.Tx)
      → Intact d tx
      → AreAccepted ss (d.pending tx)
      → ((f tx).1 ≡ done) × Intact d (f tx).0

  insert-Succeeds :
      (context : String) (s : Statement) (ss : List Statement) (f : d.Tx → d.Tx × Status RepoError)
      → Succeeds ss f
      → Succeeds (s ∷ ss) (insert d context s f)
  unfolding insert
  insert-Succeeds context s ss f h tx intact (accepted, others) =
      let ran = up.executes s tx intact accepted in
      rw (insert, ran)
        (h (d.exec s tx).0 (executed s tx intact ran)
          (subst (AreAccepted ss) (sym (laws.exec_lem s tx ran)) others))

  insert_items-Succeeds :
      (uid : String) (items : List Item)
      → Succeeds (item_statements uid items) (insert_items d uid items (λ tx. (tx, done)))
  unfolding insert_items item_statements
  insert_items-Succeeds uid [] = λ tx intact _. (refl, intact)
  insert_items-Succeeds uid (item ∷ items) =
      insert-Succeeds "failed to insert item" _ _ _ (insert_items-Succeeds uid items)

  inserts-Succeeds : (order : Order) → Succeeds (statements order) (inserts d order)
  unfolding inserts statements
  inserts-Succeeds order =
      let items = item_statements order.order_uid order.items in
      let paid = insert_payment (payment_row order.order_uid order.payment) ∷ items in
      let delivered = insert_delivery (delivery_row order.order_uid order.delivery) ∷ paid in
      insert-Succeeds _ _ delivered _ (
        insert-Succeeds _ _ paid _
          (insert-Succeeds _ _ items _ (insert_items-Succeeds order.order_uid order.items)))

  end_tx-done :
      (r : d.Tx × Status RepoError) (db : d.Db)
      → (r.1 ≡ done) × Intact d r.0
      → (end_tx d r db).1 ≡ done
  unfolding end_tx
  end_tx-done r db (e, intact) = rw (end_tx, e, up.commits r.0 db intact)

  -- `AddOrder` of an order whose rows the tables accept reports success and has written the order
  -- with all of its parts.
  pub add_order-done :
      (order : Order) (db : d.Db)
      → AreAccepted (statements order) (d.tables db)
      → ((add_order d order db).1 ≡ done)
        × (d.tables (add_order d order db).0 ≡ added order (d.tables db))
  unfolding add_order
  add_order-done order db accepted =
      let (tx, started) = up.begins db in
      let seen =
        subst (AreAccepted (statements order)) (sym (laws.begin_lem db tx started)) accepted in
      let finished : (add_order d order db).1 ≡ done =
        rw (add_order, started)
          (end_tx-done (inserts d order tx) db
            (inserts-Succeeds order tx (begun db tx started) seen)) in
      (finished, tables-add_order d laws order db finished)

  new_not_exists :
      (uid : String) (db : d.Db)
      → orders_with uid (d.tables db).orders ≡ []
      → order_exists d uid db ≡ ok false
  unfolding order_exists exists_query
  new_not_exists uid db none_there = go (up.looks_up uid db)
    where
      go :
          ((b : Bool) × (d.query_row (exists_query uid) db ≡ ok b))
          → order_exists d uid db ≡ ok false
      go (false, answered) = rw (order_exists, answered)
      go (true, answered) =
          let i : In true (exists_query uid (d.tables db)) =
            laws.query_row_lem (exists_query uid) db true answered in
          let j : In true (false ∷ []) = rw (none_there, exists_query) at i in ground arith

  -- With a database that is up, under the column types and the keys of migrations/:
  -- `AddOrderIfNotExists` of an order that fits its columns, with a UID that no order has, from
  -- consistent tables, reports success and has written the order with all of its parts.
  pub add_order_if_not_exists-done :
      (order : Order) (db : d.Db)
      → All FitsColumns (statements order)
      → IsConsistent (d.tables db)
      → orders_with order.order_uid (d.tables db).orders ≡ []
      → ((add_order_if_not_exists d order db).1 ≡ done)
        × (d.tables (add_order_if_not_exists d order db).0 ≡ added order (d.tables db))
  unfolding add_order_if_not_exists
  add_order_if_not_exists-done order db fits consistent new =
      rw (add_order_if_not_exists, new_not_exists order.order_uid db new)
        (add_order-done order db
          (statements-AreAccepted order (d.tables db) fits (consistent.owned order.order_uid new)))
