-- ===== src/Repository/Ownership.antt =====
-- The rows that the reading methods of repository.go may return an order of, and their owners.
use gorder.Prelude.{
  String, List, [], ◌∷◌, Option, ◌≡◌, refl, sym, ◌∙◌, ap, arith, In, In-append, inl, inr,
  Option-cases,
}
use gorder.Prelude.Result.{Result, ok, err, ◌>>=◌}
use gorder.Models.{Order, Item}
use gorder.Repository.Driver.{Driver, DriverLaws, DbError}
use gorder.Repository.Select.{
  scanned_order, scan_row, read_items, get_order_by_uid, get_order_by_uid_and_user, wrap_row,
}
use gorder.Repository.Tables.{
  Tables, OrderRow, JoinRow, In-where_eq, left_join, join_deliveries, join_payments, order_query,
  order_user_query, DeliveryRow, PaymentRow,
}

In-join_payments :
    (row : JoinRow) (o : OrderRow) (p : Option DeliveryRow) (ps : List (Option PaymentRow))
    → In row (join_payments o p ps)
    → row.order ≡ o
unfolding join_payments
In-join_payments row o p [] i = absurd i
In-join_payments row o p (q ∷ qs) (inl e) = ap (λ (r : JoinRow). r.order) e
In-join_payments row o p (q ∷ qs) (inr i) = In-join_payments row o p qs i

In-join_deliveries :
    (row : JoinRow) (o : OrderRow) (ds : List (Option DeliveryRow)) (ps : List (Option PaymentRow))
    → In row (join_deliveries o ds ps)
    → row.order ≡ o
unfolding join_deliveries
In-join_deliveries row o [] ps i = absurd i
In-join_deliveries row o (p ∷ ds) ps i = elim (In-append row (join_payments o p ps) _ i) [
  | inl j ↦ In-join_payments row o p ps j
  | inr j ↦ In-join_deliveries row o ds ps j
]

-- A joined row carries one of the orders.
In-left_join :
    (row : JoinRow) (t : Tables) (os : List OrderRow) → In row (left_join t os) → In row.order os
unfolding left_join
In-left_join row t [] i = absurd i
In-left_join row t (o ∷ os) i = elim (In-append row _ (left_join t os) i) [
  | inl j ↦ inl (In-join_deliveries row o _ _ j)
  | inr j ↦ inr (In-left_join row t os j)
]

-- A row that a scan accepts gives an order with the columns of that row.
scan_row_columns :
    (row : JoinRow) (f : List Item → Order)
    → scan_row row ≡ ok f
    → (items : List Item)
    → ((f items).order_uid ≡ row.order.order_uid) × ((f items).customer_id ≡ row.order.customer_id)
unfolding scan_row
scan_row_columns row f e items = elim (Option-cases row.delivery) [
  | inl missing ↦ absurd (ground arith)
  | inr (d, held) ↦ elim (Option-cases row.payment) [
    | inl missing ↦ absurd (ground arith)
    | inr (p, held') ↦
        let same : scanned_order row.order d p ≡ f = ground arith in
        (
          ap (λ (g : List Item → Order). (g items).order_uid) (sym same),
          ap (λ (g : List Item → Order). (g items).customer_id) (sym same),
        )
  ]
]

-- An order row of the tables with this UID and this customer.
pub record IsStored (t : Tables) (uid customer : String) : Type 0 where
  pub row : OrderRow
  pub listed : In row t.orders
  pub uid_lem : row.order_uid ≡ uid
  pub customer_lem : row.customer_id ≡ customer

ok_inj {ℓ κ} : {E : Type κ} {A : Type ℓ} {a b : A} → ◌≡◌ {A = Result E A} (ok a) (ok b) → a ≡ b
ok_inj e = cc

>>=-eq-ok {ℓ κ μ} :
    {E : Type κ} {A : Type ℓ} {B : Type μ} (first : Result E A) (next : A → Result E B) (end : B)
    → (first >>= next) ≡ ok end
    → (mid : A) × (first ≡ ok mid) × (next mid ≡ ok end)
>>=-eq-ok (err x) next end reached = cc
>>=-eq-ok (ok mid) next end reached = (mid, refl, reached)

wrap_row-eq-ok {ℓ} :
    {A : Type ℓ} (context : String) (m : Result DbError A) (a : A)
    → wrap_row context m ≡ ok a
    → m ≡ ok a
wrap_row-eq-ok context (ok b) a e = ap ok (ok_inj e)
wrap_row-eq-ok context (err x) a e = cc

module _ (d : Driver) (laws : DriverLaws d) where
  -- The parts of a successful read of one order.
  read_one :
      (q : Tables → List JoinRow) (uid : String) (db : d.Db) (o : Order)
      → (do
        order ← wrap_row "failed to find order" (d.query_row q db >>= scan_row)
        items ← read_items d uid db
        ok (order items))
        ≡ ok o
      → (row : JoinRow) × In row (q (d.tables db))
        × (row.order.order_uid ≡ o.order_uid)
        × (row.order.customer_id ≡ o.customer_id)
  read_one q uid db o e =
      let (f, found, rest) = >>=-eq-ok _ _ o e in
      let (items, _, whole) = >>=-eq-ok (read_items d uid db) (λ xs. ok (f xs)) o rest in
      let (row, answered, scanned) =
        >>=-eq-ok (d.query_row q db) scan_row f (wrap_row-eq-ok _ _ f found) in
      let (same_uid, same_customer) = scan_row_columns row f scanned items in
      let order : f items ≡ o = ok_inj {a = f items} whole in
      (
        row,
        laws.query_row_lem q db row answered,
        sym same_uid ∙ ap (λ (x : Order). x.order_uid) order,
        sym same_customer ∙ ap (λ (x : Order). x.customer_id) order,
      )

  -- An order that `GetOrderByUIDAndUser` returns belongs to the user, has the UID that was asked
  -- for, and comes from a row of the orders table with that UID and that customer.
  pub get_order_by_uid_and_user-IsStored :
      (uid user : String) (db : d.Db) (o : Order)
      → get_order_by_uid_and_user d uid user db ≡ ok o
      → (o.customer_id ≡ user) × (o.order_uid ≡ uid) × IsStored (d.tables db) uid user
  unfolding get_order_by_uid_and_user order_user_query
  get_order_by_uid_and_user-IsStored uid user db o e =
      let (row, listed, same_uid, same_customer) =
        read_one (order_user_query uid user) uid db o e in
      let i = In-left_join row (d.tables db) _ listed in
      let (j, owned) = In-where_eq (λ r. r.customer_id) user row.order _ i in
      let (k, named) = In-where_eq (λ r. r.order_uid) uid row.order (d.tables db).orders j in
      (
        sym same_customer ∙ owned,
        sym same_uid ∙ named,
        record { row = row.order; listed = k; uid_lem = named; customer_lem = owned },
      )

  -- An order that `GetOrderByUID` returns has the UID that was asked for, and comes from a row of
  -- the orders table with that UID and the order's customer.
  pub get_order_by_uid-IsStored :
      (uid : String) (db : d.Db) (o : Order)
      → get_order_by_uid d uid db ≡ ok o
      → (o.order_uid ≡ uid) × IsStored (d.tables db) uid o.customer_id
  unfolding get_order_by_uid order_query
  get_order_by_uid-IsStored uid db o e =
      let (row, listed, same_uid, same_customer) = read_one (order_query uid) uid db o e in
      let i = In-left_join row (d.tables db) _ listed in
      let (k, named) = In-where_eq (λ r. r.order_uid) uid row.order (d.tables db).orders i in
      (
        sym same_uid ∙ named,
        record { row = row.order; listed = k; uid_lem = named; customer_lem = same_customer },
      )
