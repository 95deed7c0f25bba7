-- ===== src/Repository/Keys.antt =====
-- The keys of migrations/: what PRIMARY KEY and REFERENCES ask of the tables that a row is inserted
-- into, and that the statements of `AddOrder` meet them.
use gorder.Prelude.{String, List, [], ◌∷◌, ◌++◌, ◌≡◌, ◌≢◌, All}
use gorder.Models.{Order, Item}
use gorder.Repository.Atomic.{item_statements, statements}
use gorder.Repository.Insert.{order_row, item_row}
use gorder.Repository.RoundTrip.{IsFresh, where_eq_new}
use gorder.Repository.Tables.{
  Tables, OrderRow, Statement, insert_order, insert_delivery, insert_payment, insert_item, apply,
  orders_with, deliveries_with, payments_with,
}
use gorder.Repository.Widths.{FitsColumns}

abbrev pub MeetsKeys : Statement → Tables → Type 0
MeetsKeys (insert_order row) t = orders_with row.order_uid t.orders ≡ []
MeetsKeys (insert_delivery row) t =
    (orders_with row.order_uid t.orders ≢ []) × (deliveries_with row.order_uid t.delivery ≡ [])
MeetsKeys (insert_payment row) t =
    (orders_with row.order_uid t.orders ≢ []) × (payments_with row.order_uid t.payment ≡ [])
MeetsKeys (insert_item row) t = orders_with row.order_uid t.orders ≢ []

-- The row fits its columns and meets the keys.
abbrev pub IsAccepted : Statement → Tables → Type 0
IsAccepted s t = FitsColumns s × MeetsKeys s t

-- Each statement is accepted by the tables that those before it leave.
abbrev pub AreAccepted : List Statement → Tables → Type 0
AreAccepted [] t = Unit
AreAccepted (s ∷ ss) t = IsAccepted s t × AreAccepted ss (apply s t)

items-AreAccepted :
    (uid : String) (items : List Item) (t : Tables)
    → All FitsColumns (item_statements uid items)
    → orders_with uid t.orders ≢ []
    → AreAccepted (item_statements uid items) t
unfolding item_statements apply
items-AreAccepted uid [] t _ _ = tt
items-AreAccepted uid (i ∷ is) t (fits, others) there =
    ((fits, there), items-AreAccepted uid is (apply (insert_item (item_row uid i)) t) others there)

-- The statements for an order that fits the columns, with a UID that no row has.
pub statements-AreAccepted :
    (o : Order) (t : Tables)
    → All FitsColumns (statements o)
    → IsFresh o.order_uid t
    → AreAccepted (statements o) t
unfolding statements apply
statements-AreAccepted o t (order, (delivery, (payment, items))) fresh =
    let one : orders_with o.order_uid (t.orders ++ order_row o ∷ []) ≡ order_row o ∷ [] =
      where_eq_new (λ (r : OrderRow). r.order_uid) (order_row o) t.orders fresh.no_order in
    let there : orders_with o.order_uid (t.orders ++ order_row o ∷ []) ≢ [] = λ e. cc in
    (
      (order, fresh.no_order),
      (
        (delivery, (there, fresh.no_delivery)),
        ((payment, (there, fresh.no_payment)), items-AreAccepted o.order_uid o.items _ items there),
      ),
    )
