-- ===== src/Repository/Unique.antt =====
-- `AddOrderIfNotExists` of repository.go and the keys of the schema.
use gorder.Prelude.{
  String, List, [], ◌∷◌, ◌++◌, Bool, true, false, ◌≡◌, ◌≢◌, refl, sym, ◌∙◌, arith, In, NotIn,
  Distinct, subst,
}
use gorder.Prelude.Result.{Result, ok, err, Status, done, failed}
use gorder.Models.{Order, Item}
use gorder.Repository.Driver.{Driver, DriverLaws, DbError}
use gorder.Repository.Errors.{RepoError}
use gorder.Repository.Insert.{
  order_row, delivery_row, payment_row, add_order, order_exists, add_order_if_not_exists,
}
use gorder.Repository.Atomic.{statements, Outcome, add_order_atomic}
use gorder.Repository.RoundTrip.{IsFresh, added, statements-added, item_rows}
use gorder.Repository.Tables.{
  Tables, OrderRow, apply_all, where_eq, where_eq-append, orders_with, items_with, exists_query,
}

abbrev pub uids : List OrderRow → List String
uids [] = []
uids (o ∷ os) = o.order_uid ∷ uids os

-- The keys of the schema: no UID twice among the orders, and no part without its order.
pub record IsConsistent (t : Tables) : Type 0 where
  pub distinct : Distinct (uids t.orders)
  pub owned : (uid : String) → orders_with uid t.orders ≡ [] → IsFresh uid t

NotIn-uids : (uid : String) (os : List OrderRow) → orders_with uid os ≡ [] → NotIn uid (uids os)
unfolding where_eq
NotIn-uids uid [] _ = tt
NotIn-uids uid (o ∷ os) e = ground (arith, NotIn-uids uid os)

Distinct-uids :
    (os : List OrderRow) (o : OrderRow)
    → Distinct (uids os)
    → NotIn o.order_uid (uids os)
    → Distinct (uids (os ++ o ∷ []))
Distinct-uids [] o _ _ = (tt, tt)
Distinct-uids (x ∷ os) o (out, d) (n, n') = (later os out, Distinct-uids os o d n')
  where
    later :
        (xs : List OrderRow) → NotIn x.order_uid (uids xs) → NotIn x.order_uid (uids (xs ++ o ∷ []))
    later [] _ = ((λ e. n (sym e)), tt)
    later (y ∷ xs) (m, ms) = (m, later xs ms)

-- A table gains rows of another UID only.
module _ {A : Type 0} (column : A → String) (uid : String) where
  where_eq_others :
      (rows new : List A)
      → where_eq column uid rows ≡ []
      → where_eq column uid new ≡ []
      → where_eq column uid (rows ++ new) ≡ []
  where_eq_others rows new e f = rw (where_eq-append column uid rows new, e) f

  where_eq_other : (row : A) → column row ≢ uid → where_eq column uid (row ∷ []) ≡ []
  unfolding where_eq
  where_eq_other row n = ground arith

  where_eq_before :
      (rows : List A) (row : A)
      → where_eq column uid (rows ++ row ∷ []) ≡ []
      → (where_eq column uid rows ≡ []) × (column row ≢ uid)
  unfolding where_eq
  where_eq_before [] row e = (refl, ground arith)
  where_eq_before (x ∷ rows) row e = ground (arith, where_eq_before rows row)

item_rows_other :
    (uid other : String) (items : List Item)
    → uid ≢ other
    → items_with other (item_rows uid items) ≡ []
unfolding where_eq
item_rows_other uid other [] _ = refl
item_rows_other uid other (i ∷ is) n = ground (arith, item_rows_other uid other is)

added-IsConsistent :
    (o : Order) (t : Tables)
    → IsConsistent t
    → orders_with o.order_uid t.orders ≡ []
    → IsConsistent (added o t)
added-IsConsistent o t h new = record {
  distinct = Distinct-uids t.orders (order_row o) h.distinct (NotIn-uids o.order_uid t.orders new);
  owned = λ uid e.
      let (none_before, other) = where_eq_before (λ r. r.order_uid) uid t.orders (order_row o) e in
      let fresh = h.owned uid none_before in
      record {
        no_order = e;
        no_delivery =
            where_eq_others (λ r. r.order_uid) uid t.delivery
              (delivery_row o.order_uid o.delivery ∷ []) fresh.no_delivery
              (where_eq_other (λ r. r.order_uid) uid (delivery_row o.order_uid o.delivery) other);
        no_payment =
            where_eq_others (λ r. r.order_uid) uid t.payment
              (payment_row o.order_uid o.payment ∷ []) fresh.no_payment
              (where_eq_other (λ r. r.order_uid) uid (payment_row o.order_uid o.payment) other);
        no_item =
            where_eq_others (λ r. r.order_uid) uid t.item (item_rows o.order_uid o.items)
              fresh.no_item (item_rows_other o.order_uid uid o.items other);
      };
}

-- What `OrderExists` says is true of the table.
exists_false :
    (uid : String) (t : Tables) → In false (exists_query uid t) → orders_with uid t.orders ≡ []
unfolding exists_query
exists_false uid t i = go (orders_with uid t.orders) refl
  where
    go : (rows : List OrderRow) → orders_with uid t.orders ≡ rows → rows ≡ []
    go [] e = refl
    go (r ∷ rs) e = let j : In false (true ∷ []) = rw (e, exists_query) at i in ground arith

-- The tables after a call for the order, by its result.
abbrev pub Insertion : Status RepoError → Order → Tables → Tables → Type 0
Insertion done o before after = IsFresh o.order_uid before × (after ≡ added o before)
Insertion (failed e) o before after = after ≡ before

module _ (d : Driver) (laws : DriverLaws d) where
  pub order_exists_false :
      (uid : String) (db : d.Db)
      → order_exists d uid db ≡ ok false
      → orders_with uid (d.tables db).orders ≡ []
  unfolding order_exists
  order_exists_false uid db e = go (d.query_row (exists_query uid) db) refl
    where
      go :
          (r : Result DbError Bool)
          → d.query_row (exists_query uid) db ≡ r
          → orders_with uid (d.tables db).orders ≡ []
      go (ok true) p = absurd (ground arith)
      go (ok false) p =
          exists_false uid (d.tables db) (laws.query_row_lem (exists_query uid) db false p)
      go (err x) p = absurd (ground arith)

  -- `AddOrder` for a UID that no order has.
  pub add_order-IsConsistent :
      (o : Order) (db : d.Db)
      → IsConsistent (d.tables db)
      → orders_with o.order_uid (d.tables db).orders ≡ []
      → IsConsistent (d.tables (add_order d o db).0)
        × Insertion (add_order d o db).1 o (d.tables db) (d.tables (add_order d o db).0)
  add_order-IsConsistent o db h new = go (add_order d o db).1 (add_order_atomic d laws o db)
    where
      go :
          (s : Status RepoError)
          → Outcome s
              (d.tables db)
              (apply_all (statements o) (d.tables db))
              (d.tables (add_order d o db).0)
          → IsConsistent (d.tables (add_order d o db).0)
            × Insertion s o (d.tables db) (d.tables (add_order d o db).0)
      go done e =
          let same = e ∙ statements-added o (d.tables db) in
          (
            subst IsConsistent (sym same) (added-IsConsistent o (d.tables db) h new),
            (h.owned o.order_uid new, same),
          )
      go (failed x) e = (subst IsConsistent (sym e) h, e)

  -- `AddOrderIfNotExists` that reports success has added the order under a UID that no row had, one
  -- that reports an error has left the tables alone, and both keep the tables consistent: no UID
  -- twice among the orders, no part without its order.
  pub add_order_if_not_exists-IsConsistent :
      (o : Order) (db : d.Db)
      → IsConsistent (d.tables db)
      → IsConsistent (d.tables (add_order_if_not_exists d o db).0)
        × Insertion
            (add_order_if_not_exists d o db).1
            o
            (d.tables db)
            (d.tables (add_order_if_not_exists d o db).0)
  unfolding add_order_if_not_exists
  add_order_if_not_exists-IsConsistent o db h = go (order_exists d o.order_uid db) refl
    where
      go :
          (r : Result RepoError Bool)
          → order_exists d o.order_uid db ≡ r
          → IsConsistent (d.tables (add_order_if_not_exists d o db).0)
            × Insertion
                (add_order_if_not_exists d o db).1
                o
                (d.tables db)
                (d.tables (add_order_if_not_exists d o db).0)
      go (err x) p = rw (add_order_if_not_exists, p) (h, refl)
      go (ok true) p = rw (add_order_if_not_exists, p) (h, refl)
      go (ok false) p =
          rw (add_order_if_not_exists, p)
            (add_order-IsConsistent o db h (order_exists_false o.order_uid db p))
