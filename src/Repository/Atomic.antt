-- ===== src/Repository/Atomic.antt =====
-- `AddOrder` of repository.go, and what it leaves in the tables.
use gorder.Prelude.{String, List, [], ◌∷◌, ◌≡◌, refl, ◌∙◌, ap}
use gorder.Prelude.Result.{Result, ok, err, Status, done, failed}
use gorder.Models.{Order, Item}
use gorder.Repository.Driver.{Driver, DriverLaws, DbError}
use gorder.Repository.Errors.{RepoError}
use gorder.Repository.Insert.{
  order_row, delivery_row, payment_row, item_row, insert, insert_items, inserts, end_tx, add_order,
}
use gorder.Repository.Tables.{
  Tables, Statement, insert_order, insert_delivery, insert_payment, insert_item, apply, apply_all,
}

-- the rows of the items, in order
unfoldable pub item_statements : String → List Item → List Statement
item_statements uid [] = []
item_statements uid (item ∷ items) = insert_item (item_row uid item) ∷ item_statements uid items

unfoldable pub statements : Order → List Statement
statements order =
    insert_order (order_row order)
    ∷ insert_delivery (delivery_row order.order_uid order.delivery)
    ∷ insert_payment (payment_row order.order_uid order.payment)
    ∷ item_statements order.order_uid order.items

-- The tables after the call, by its result.
abbrev pub Outcome : Status RepoError → Tables → Tables → Tables → Type 0
Outcome done before written after = after ≡ written
Outcome (failed e) before written after = after ≡ before

module _ (d : Driver) (laws : DriverLaws d) where
  -- Where all statements of a part of the transaction succeed, it has executed `ss`.
  abbrev Performs : List Statement → (d.Tx → d.Tx × Status RepoError) → Type 0
  Performs ss f = (tx : d.Tx) → (f tx).1 ≡ done → d.pending (f tx).0 ≡ apply_all ss (d.pending tx)

  Performs-insert :
      (context : String) (s : Statement) (ss : List Statement) (f : d.Tx → d.Tx × Status RepoError)
      → Performs ss f
      → Performs (s ∷ ss) (insert d context s f)
  unfolding insert apply_all
  Performs-insert context s ss f h tx = go (d.exec s tx).1 refl
    where
      go :
          (status : Status DbError)
          → (d.exec s tx).1 ≡ status
          → (insert d context s f tx).1 ≡ done
          → d.pending (insert d context s f tx).0 ≡ apply_all ss (apply s (d.pending tx))
      go done e =
          rw (insert, e) (λ ran. h (d.exec s tx).0 ran ∙ ap (apply_all ss) (laws.exec_lem s tx e))
      go (failed x) e = rw (insert, e) (λ ran. cc)

  Performs-insert_items :
      (uid : String) (items : List Item)
      → Performs (item_statements uid items) (insert_items d uid items (λ tx. (tx, done)))
  unfolding insert_items item_statements apply_all
  Performs-insert_items uid [] = λ tx _. refl
  Performs-insert_items uid (item ∷ items) =
      Performs-insert "failed to insert item" (insert_item (item_row uid item))
        (item_statements uid items) (insert_items d uid items (λ tx. (tx, done)))
        (Performs-insert_items uid items)

  Performs-inserts : (order : Order) → Performs (statements order) (inserts d order)
  unfolding inserts statements
  Performs-inserts order = Performs-insert _ _ _ _ (
      Performs-insert _ _ _ _
        (Performs-insert _ _ _ _ (Performs-insert_items order.order_uid order.items)))

  end_tx-Outcome :
      (db : d.Db) (written : Tables) (r : d.Tx × Status RepoError)
      → (r.1 ≡ done → d.pending r.0 ≡ written)
      → Outcome (end_tx d r db).1 (d.tables db) written (d.tables (end_tx d r db).0)
  unfolding end_tx
  end_tx-Outcome db written (tx, failed e) _ = laws.rollback_lem tx db
  end_tx-Outcome db written (tx, done) h = go (d.commit tx db).1 refl
    where
      go :
          (status : Status DbError)
          → (d.commit tx db).1 ≡ status
          → Outcome
              (end_tx d (tx, done) db).1
              (d.tables db)
              written
              (d.tables (end_tx d (tx, done) db).0)
      go done e = rw (end_tx, e) (laws.commit_lem tx db e ∙ h refl)
      go (failed x) e =
          rw (end_tx, e) (laws.rollback_lem tx (d.commit tx db).0 ∙ laws.commit_failed tx db x e)

  -- `AddOrder` that reports success has written the order, its delivery, its payment and all of its
  -- items, in this order and nothing else; one that reports an error, wherever it arose, has left
  -- the tables as they were (an error of the COMMIT being the server's answer to it, and no connection
  -- that was lost while it ran).
  pub add_order_atomic :
      (order : Order) (db : d.Db)
      → Outcome
          (add_order d order db).1
          (d.tables db)
          (apply_all (statements order) (d.tables db))
          (d.tables (add_order d order db).0)
  unfolding add_order
  add_order_atomic order db = go (d.begin db) refl
    where
      go :
          (r : Result DbError d.Tx)
          → d.begin db ≡ r
          → Outcome
              (add_order d order db).1
              (d.tables db)
              (apply_all (statements order) (d.tables db))
              (d.tables (add_order d order db).0)
      go (err e) p = rw (add_order, p) refl
      go (ok tx) p =
          rw (add_order, p)
            (end_tx-Outcome db (apply_all (statements order) (d.tables db)) (inserts d order tx)
              (λ ran.
                Performs-inserts order tx ran
                ∙ ap (apply_all (statements order)) (laws.begin_lem db tx p)))
