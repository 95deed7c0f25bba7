-- ===== src/Repository/Select.antt =====
-- The reading methods of repository.go.
use gorder.Prelude.{ℕ, String, List, map, none, some}
use gorder.Prelude.Result.{Result, ok, err, ◌>>=◌, Status, done, failed}
use gorder.Models.{Order, Delivery, Payment, Item, User}
use gorder.Repository.Driver.{Driver, DbError, no_rows, other}
use gorder.Repository.Errors.{RepoError, wrapped}
use gorder.Repository.Tables.{
  OrderRow, DeliveryRow, PaymentRow, ItemRow, JoinRow, order_query, order_user_query, items_query,
  uids_query, user_uids_query, user_query,
}

-- The fields that `Scan` fills; the UIDs inside the parts stay empty.
abbrev pub scanned_delivery : DeliveryRow → Delivery
scanned_delivery d = record {
  order_uid = "";
  name = d.name;
  phone = d.phone;
  zip = d.zip;
  city = d.city;
  address = d.address;
  region = d.region;
  email = d.email;
}

abbrev pub scanned_payment : PaymentRow → Payment
scanned_payment p = record {
  order_uid = "";
  transaction = p.transaction;
  request_id = p.request_id;
  currency = p.currency;
  provider = p.provider;
  amount = p.amount;
  payment_dt = p.payment_dt;
  bank = p.bank;
  delivery_cost = p.delivery_cost;
  goods_total = p.goods_total;
  custom_fee = p.custom_fee;
}

unfoldable pub scanned_item : ItemRow → Item
scanned_item i = record {
  id = 0;
  order_uid = "";
  chrt_id = i.chrt_id;
  track_number = i.track_number;
  price = i.price;
  rid = i.rid;
  name = i.name;
  sale = i.sale;
  size = i.size;
  total_price = i.total_price;
  nm_id = i.nm_id;
  brand = i.brand;
  status = i.status;
}

abbrev pub scanned_order : OrderRow → DeliveryRow → PaymentRow → List Item → Order
scanned_order o d p items = record {
  order_uid = o.order_uid;
  track_number = o.track_number;
  entry = o.entry;
  locale = o.locale;
  internal_signature = o.internal_signature;
  customer_id = o.customer_id;
  delivery_service = o.delivery_service;
  shard_key = o.shard_key;
  smid = o.smid;
  date_created = o.date_created;
  oof_shard = o.oof_shard;
  delivery = scanned_delivery d;
  payment = scanned_payment p;
  items = items;
}

-- A NULL does not go into a Go string: pgx answers with an error.
unfoldable pub scan_row : JoinRow → Result DbError (List Item → Order)
scan_row row = elim row.delivery [
  | none ↦ err (other "cannot scan NULL into *string")
  | some d ↦ elim row.payment [
    | none ↦ err (other "cannot scan NULL into *string")
    | some p ↦ ok (scanned_order row.order d p)
  ]
]

-- a first error of the query, else one that ended its rows
abbrev pub all_rows :
    {A : Type 0}
    → String
    → String
    → Result DbError (List A × Status DbError)
    → Result RepoError (List A)
all_rows first last (err e) = err (wrapped first e)
all_rows first last (ok (rows, done)) = ok rows
all_rows first last (ok (rows, failed e)) = err (wrapped last e)

-- The text of the error tells a missing row from a failure.
abbrev pub row_error : String → DbError → RepoError
row_error missing no_rows = wrapped missing no_rows
row_error missing (other e) = wrapped "failed to query database" (other e)

abbrev pub wrap_row {ℓ} : {A : Type ℓ} → String → Result DbError A → Result RepoError A
wrap_row missing (ok a) = ok a
wrap_row missing (err e) = err (row_error missing e)

module _ (d : Driver) where
  unfoldable pub read_items : String → d.Db → Result RepoError (List Item)
  read_items uid db = do
    rows ← all_rows "failed to query items" "failed to iterate items" (d.query (items_query uid) db)
    ok (map scanned_item rows)

  unfoldable pub get_order_by_uid : String → d.Db → Result RepoError Order
  get_order_by_uid uid db = do
    order ← wrap_row "failed to find order" (d.query_row (order_query uid) db >>= scan_row)
    items ← read_items uid db
    ok (order items)

  unfoldable pub get_order_by_uid_and_user : String → String → d.Db → Result RepoError Order
  get_order_by_uid_and_user uid user db = do
    order ←
        wrap_row "failed to find order" (d.query_row (order_user_query uid user) db >>= scan_row)
    items ← read_items uid db
    ok (order items)

  unfoldable pub get_all_orders_uid : d.Db → Result RepoError (List String)
  get_all_orders_uid db =
      all_rows "failed to query orders" "failed to iterate order_uid" (d.query uids_query db)

  unfoldable pub get_all_orders_uid_by_user : String → d.Db → Result RepoError (List String)
  get_all_orders_uid_by_user user db =
      all_rows "failed to query orders" "failed to iterate order_uid"
        (d.query (user_uids_query user) db)

  unfoldable pub get_recent_orders_uid : ℕ → d.Db → Result RepoError (List String)
  get_recent_orders_uid limit db =
      all_rows "failed to query recent orders" "failed to iterate order_uid"
        (d.query_recent limit db)

  unfoldable pub get_user : String → d.Db → Result RepoError User
  get_user username db = wrap_row "failed to find user" (do
    (id, row) ← d.query_row (user_query username) db
    ok (record {
      id = id;
      username = row.username;
      password_hash = row.password_hash;
      role = row.role;
    }))
