-- ===== src/Repository/RoundTrip.antt =====
-- What `GetOrderByUID` reads back of an order that `AddOrder` wrote.
use gorder.Prelude.{
  String, List, [], ◌∷◌, ◌++◌, map, some, ◌≡◌, refl, sym, ◌∙◌, ap, arith, In, append_assoc,
  append-nil, inl, inr, subst, ◌≢◌,
}
use mathlib.Core.List.{Perm}
use mathlib.Core.List.Perm
use gorder.Prelude.Result.{ok, err, done}
use gorder.Models.{Order, Item}
use gorder.Repository.Driver.{Driver, DriverLaws, no_rows}
use gorder.Repository.Insert.{order_row, delivery_row, payment_row, item_row, add_order}
use gorder.Repository.Select.{scanned_item, scan_row, read_items, get_order_by_uid}
use gorder.Repository.Atomic.{statements, item_statements, Outcome, add_order_atomic}
use gorder.Repository.Tables.{
  Tables, apply, apply_all, JoinRow, ItemRow, where_eq, where_eq-append, orders_with,
  deliveries_with, payments_with, items_with, order_query, items_query, left_join, join_deliveries,
  join_payments,
}

-- No row of any table belongs to the UID.
pub record IsFresh (uid : String) (t : Tables) : Type 0 where
  pub no_order : orders_with uid t.orders ≡ []
  pub no_delivery : deliveries_with uid t.delivery ≡ []
  pub no_payment : payments_with uid t.payment ≡ []
  pub no_item : items_with uid t.item ≡ []

abbrev pub item_rows : String → List Item → List ItemRow
item_rows uid [] = []
item_rows uid (i ∷ is) = item_row uid i ∷ item_rows uid is

abbrev pub with_items : Tables → List ItemRow → Tables
with_items t rows = record t { item = rows }

items_added :
    (uid : String) (items : List Item) (t : Tables)
    → apply_all (item_statements uid items) t ≡ with_items t (t.item ++ item_rows uid items)
unfolding item_statements apply_all apply
items_added uid [] t = ap (with_items t) (sym (append-nil t.item))
items_added uid (i ∷ is) t =
    items_added uid is (with_items t (t.item ++ item_row uid i ∷ []))
    ∙ ap (with_items t) (append_assoc t.item (item_row uid i ∷ []) (item_rows uid is))

-- the tables after the statements of `AddOrder`
abbrev pub added : Order → Tables → Tables
added o t = record t {
  orders = t.orders ++ order_row o ∷ [];
  delivery = t.delivery ++ delivery_row o.order_uid o.delivery ∷ [];
  payment = t.payment ++ payment_row o.order_uid o.payment ∷ [];
  item = t.item ++ item_rows o.order_uid o.items;
}

pub statements-added : (o : Order) (t : Tables) → apply_all (statements o) t ≡ added o t
unfolding statements apply_all apply
statements-added o t = items_added o.order_uid o.items (record t {
  orders = t.orders ++ order_row o ∷ [];
  delivery = t.delivery ++ delivery_row o.order_uid o.delivery ∷ [];
  payment = t.payment ++ payment_row o.order_uid o.payment ∷ [];
})

where_eq_one :
    {A : Type 0} (column : A → String) (row : A)
    → where_eq column (column row) (row ∷ []) ≡ row ∷ []
unfolding where_eq
where_eq_one column row = ground arith

pub where_eq_new :
    {A : Type 0} (column : A → String) (row : A) (rows : List A)
    → where_eq column (column row) rows ≡ []
    → where_eq column (column row) (rows ++ row ∷ []) ≡ row ∷ []
where_eq_new column row rows e =
    where_eq-append column (column row) rows (row ∷ [])
    ∙ ap (λ xs. xs ++ where_eq column (column row) (row ∷ [])) e
    ∙ where_eq_one column row

items_with-item_rows :
    (uid : String) (items : List Item) → items_with uid (item_rows uid items) ≡ item_rows uid items
unfolding where_eq
items_with-item_rows uid [] = refl
items_with-item_rows uid (i ∷ is) = ground (arith, items_with-item_rows uid is)

-- the one row of the join
abbrev pub joined : Order → JoinRow
joined o = record {
  order = order_row o;
  delivery = some (delivery_row o.order_uid o.delivery);
  payment = some (payment_row o.order_uid o.payment);
}

pub order_query-added :
    (o : Order) (t : Tables)
    → IsFresh o.order_uid t
    → order_query o.order_uid (added o t) ≡ joined o ∷ []
unfolding order_query left_join join_deliveries join_payments
order_query-added o t fresh =
    let orders : orders_with o.order_uid (added o t).orders ≡ order_row o ∷ [] =
      where_eq_new (λ r. r.order_uid) (order_row o) t.orders fresh.no_order in
    let deliveries =
      where_eq_new (λ r. r.order_uid) (delivery_row o.order_uid o.delivery) t.delivery
        fresh.no_delivery in
    let payments =
      where_eq_new (λ r. r.order_uid) (payment_row o.order_uid o.payment) t.payment
        fresh.no_payment in
    rw (orders, deliveries, payments)

pub items_query-added :
    (o : Order) (t : Tables)
    → IsFresh o.order_uid t
    → items_query o.order_uid (added o t) ≡ item_rows o.order_uid o.items
unfolding items_query
items_query-added o t fresh =
    where_eq-append (λ (i : ItemRow). i.order_uid) o.order_uid t.item
      (item_rows o.order_uid o.items)
    ∙ ap (λ xs. xs ++ items_with o.order_uid (item_rows o.order_uid o.items)) fresh.no_item
    ∙ items_with-item_rows o.order_uid o.items

-- An order as `GetOrderByUID` gives it back: the UIDs inside the parts, and the items' own numbers,
-- are not read.
abbrev pub stored_item : Item → Item
stored_item i = record i { id = 0; order_uid = "" }

abbrev pub stored : Order → List Item → Order
stored o items = record o {
  delivery = record (o.delivery) { order_uid = "" };
  payment = record (o.payment) { order_uid = "" };
  items = items;
}

stored_items :
    (uid : String) (items : List Item)
    → map scanned_item (item_rows uid items) ≡ map stored_item items
unfolding scanned_item
stored_items uid [] = refl
stored_items uid (i ∷ is) = ap (◌∷◌ (stored_item i)) (stored_items uid is)

module _ (d : Driver) (laws : DriverLaws d) where
  pub tables-add_order :
      (o : Order) (db : d.Db)
      → (add_order d o db).1 ≡ done
      → d.tables (add_order d o db).0 ≡ added o (d.tables db)
  tables-add_order o db added_ok =
      subst
        (λ s.
          Outcome s (d.tables db) (apply_all (statements o) (d.tables db))
            (d.tables (add_order d o db).0))
        added_ok (add_order_atomic d laws o db)
      ∙ statements-added o (d.tables db)

  -- After an `AddOrder` that reports success for a UID that no row had, and with a database that
  -- answers the two queries, `GetOrderByUID` returns the order: every column as it was given, the
  -- items in some order.
  pub get_order_by_uid-add_order :
      (o : Order) (db : d.Db)
      → IsFresh o.order_uid (d.tables db)
      → (add_order d o db).1 ≡ done
      → (row : JoinRow) (rows : List ItemRow)
      → d.query_row (order_query o.order_uid) (add_order d o db).0 ≡ ok row
      → d.query (items_query o.order_uid) (add_order d o db).0 ≡ ok (rows, done)
      → (items : List Item) × Perm items (map stored_item o.items)
        × (get_order_by_uid d o.order_uid (add_order d o db).0 ≡ ok (stored o items))
  unfolding get_order_by_uid read_items scan_row
  get_order_by_uid-add_order o db fresh added_ok row rows found listed =
      let db' = (add_order d o db).0 in
      let tables = tables-add_order o db added_ok in
      let one : In row (joined o ∷ []) =
        subst (λ t. In row t)
          (ap (order_query o.order_uid) tables ∙ order_query-added o (d.tables db) fresh)
          (laws.query_row_lem (order_query o.order_uid) db' row found) in
      let same : row ≡ joined o = elim one [ inl e ↦ e | inr f ↦ absurd f ] in
      let order : Perm rows (item_rows o.order_uid o.items) =
        subst (λ xs. Perm rows xs)
          (ap (items_query o.order_uid) tables ∙ items_query-added o (d.tables db) fresh)
          (laws.query_lem (items_query o.order_uid) db' rows listed) in
      (
        map scanned_item rows,
        subst (λ xs. Perm (map scanned_item rows) xs) (stored_items o.order_uid o.items)
            (Perm.map scanned_item order),
        rw (found, listed, same),
      )

  -- After an `AddOrder` that reports success for a UID that no row had, the query of `GetOrderByUID`
  -- for this UID never reports that there is no row.
  pub get_order_by_uid-found :
      (o : Order) (db : d.Db)
      → IsFresh o.order_uid (d.tables db)
      → (add_order d o db).1 ≡ done
      → d.query_row (order_query o.order_uid) (add_order d o db).0 ≢ err no_rows
  get_order_by_uid-found o db fresh added_ok missing =
      let none_left = laws.query_row_none (order_query o.order_uid) (add_order d o db).0 missing in
      let one =
        ap (order_query o.order_uid) (tables-add_order o db added_ok)
        ∙ order_query-added o (d.tables db) fresh in
      cc
