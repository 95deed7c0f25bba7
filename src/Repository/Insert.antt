-- ===== src/Repository/Insert.antt =====
-- `AddOrder`, `OrderExists`, `AddOrderIfNotExists` and `CreateUser` of repository.go.
use gorder.Prelude.{String, List, [], ◌∷◌, Bool, true, false}
use gorder.Prelude.Result.{Result, ok, err, Status, done, failed}
use gorder.Models.{Order, Delivery, Payment, Item, User}
use gorder.Repository.Driver.{Driver}
use gorder.Repository.Errors.{RepoError, wrapped, already_exists}
use gorder.Repository.Tables.{
  OrderRow, DeliveryRow, PaymentRow, ItemRow, UserRow, Statement, insert_order, insert_delivery,
  insert_payment, insert_item, exists_query,
}

-- the arguments of the four INSERT statements
abbrev pub order_row : Order → OrderRow
order_row order = record {
  order_uid = order.order_uid;
  track_number = order.track_number;
  entry = order.entry;
  locale = order.locale;
  internal_signature = order.internal_signature;
  customer_id = order.customer_id;
  delivery_service = order.delivery_service;
  shard_key = order.shard_key;
  smid = order.smid;
  date_created = order.date_created;
  oof_shard = order.oof_shard;
}

abbrev pub delivery_row : String → Delivery → DeliveryRow
delivery_row uid d = record {
  order_uid = uid;
  name = d.name;
  phone = d.phone;
  zip = d.zip;
  city = d.city;
  address = d.address;
  region = d.region;
  email = d.email;
}

abbrev pub payment_row : String → Payment → PaymentRow
payment_row uid p = record {
  order_uid = uid;
  transaction = p.transaction;
  request_id = p.request_id;
  currency = p.currency;
  provider = p.provider;
  amount = p.amount;
  payment_dt = p.payment_dt;
  bank = p.bank;
  delivery_cost = p.delivery_cost;
  goods_total = p.goods_total;
  custom_fee = p.custom_fee;
}

abbrev pub item_row : String → Item → ItemRow
item_row uid i = record {
  order_uid = uid;
  chrt_id = i.chrt_id;
  track_number = i.track_number;
  price = i.price;
  rid = i.rid;
  name = i.name;
  sale = i.sale;
  size = i.size;
  total_price = i.total_price;
  nm_id = i.nm_id;
  brand = i.brand;
  status = i.status;
}

module _ (d : Driver) where
  -- One `tx.Exec`; the next statement runs only if this one succeeds.
  unfoldable pub insert :
      String → Statement → (d.Tx → d.Tx × Status RepoError) → d.Tx → d.Tx × Status RepoError
  insert context s next tx =
      let (tx', status) = d.exec s tx in
      elim status [ done ↦ next tx' | failed e ↦ (tx', failed (wrapped context e)) ]

  -- the loop over `order.Items`
  unfoldable pub insert_items :
      String → List Item → (d.Tx → d.Tx × Status RepoError) → d.Tx → d.Tx × Status RepoError
  insert_items uid [] next = next
  insert_items uid (item ∷ items) next =
      insert "failed to insert item" (insert_item (item_row uid item)) (insert_items uid items next)

  unfoldable pub inserts : Order → d.Tx → d.Tx × Status RepoError
  inserts order = insert "failed to insert order" (insert_order (order_row order)) (
      insert "failed to insert delivery"
        (insert_delivery (delivery_row order.order_uid order.delivery))
        (insert "failed to insert payment"
          (insert_payment (payment_row order.order_uid order.payment))
          (insert_items order.order_uid order.items (λ tx. (tx, done)))))

  -- The deferred function: an error on the way, the COMMIT's too, rolls back.
  unfoldable pub end_tx : d.Tx × Status RepoError → d.Db → d.Db × Status RepoError
  end_tx (tx, failed e) db = ((d.rollback tx db).0, failed e)
  end_tx (tx, done) db =
      let (db', status) = d.commit tx db in
      elim status [
        | done ↦ (db', done)
        | failed e ↦ ((d.rollback tx db').0, failed (wrapped "failed to commit transaction" e))
      ]

  unfoldable pub add_order : Order → d.Db → d.Db × Status RepoError
  add_order order db = elim (d.begin db) [
    | err e ↦ (db, failed (wrapped "failed to begin transaction" e))
    | ok tx ↦ end_tx (inserts order tx) db
  ]

  unfoldable pub order_exists : String → d.Db → Result RepoError Bool
  order_exists uid db = elim (d.query_row (exists_query uid) db) [
    | err e ↦ err (wrapped "failed to check order existence" e)
    | ok exists ↦ ok exists
  ]

  unfoldable pub add_order_if_not_exists : Order → d.Db → d.Db × Status RepoError
  add_order_if_not_exists order db = elim (order_exists order.order_uid db) [
    | err e ↦ (db, failed e)
    | ok true ↦ (db, failed (already_exists order.order_uid))
    | ok false ↦ add_order order db
  ]

  unfoldable pub create_user : User → d.Db → d.Db × Status RepoError
  create_user user db =
      let row : UserRow = record {
        username = user.username;
        password_hash = user.password_hash;
        role = user.role;
      } in
      let (db', status) = d.exec_user row db in
      elim status [
        | done ↦ (db', done)
        | failed e ↦ (db', failed (wrapped "failed to insert user" e))
      ]
