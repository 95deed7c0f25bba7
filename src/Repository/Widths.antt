-- ===== src/Repository/Widths.antt =====
-- The widths of the columns of migrations/000001_create_tables.up.sql: a VARCHAR(n) holds n
-- characters, an INTEGER is below 2 ^ 31 and a BIGINT below 2 ^ 63; the text of a UUID has 36
-- characters.
use Prim.Native.String.{count}
use gorder.Prelude.{ℕ, ◌≤◌, ◌<◌, ◌^◌, ◌≡◌}
use gorder.Repository.Tables.{
  OrderRow, DeliveryRow, PaymentRow, ItemRow, Statement, insert_order, insert_delivery,
  insert_payment, insert_item,
}

abbrev pub integer_end : ℕ
integer_end = 2 ^ 31

abbrev pub bigint_end : ℕ
bigint_end = 2 ^ 63

pub record FitsOrders (row : OrderRow) : Type 0 where
  pub order_uid : count row.order_uid ≡ 36
  pub track_number : count row.track_number ≤ 50
  pub entry : count row.entry ≤ 10
  pub locale : count row.locale ≤ 2
  pub internal_signature : count row.internal_signature ≤ 100
  pub customer_id : count row.customer_id ≤ 50
  pub delivery_service : count row.delivery_service ≤ 50
  pub shard_key : count row.shard_key ≤ 10
  pub smid : row.smid < integer_end
  pub oof_shard : count row.oof_shard ≤ 10

pub record FitsDelivery (row : DeliveryRow) : Type 0 where
  pub order_uid : count row.order_uid ≡ 36
  pub name : count row.name ≤ 100
  pub phone : count row.phone ≤ 16
  pub zip : count row.zip ≤ 10
  pub city : count row.city ≤ 100
  pub address : count row.address ≤ 100
  pub region : count row.region ≤ 100
  pub email : count row.email ≤ 100

pub record FitsPayment (row : PaymentRow) : Type 0 where
  pub order_uid : count row.order_uid ≡ 36
  pub transaction : count row.transaction ≤ 100
  pub request_id : count row.request_id ≤ 100
  pub currency : count row.currency ≤ 3
  pub provider : count row.provider ≤ 50
  pub amount : row.amount < integer_end
  pub payment_dt : row.payment_dt < bigint_end
  pub bank : count row.bank ≤ 20
  pub delivery_cost : row.delivery_cost < integer_end
  pub goods_total : row.goods_total < integer_end
  pub custom_fee : row.custom_fee < integer_end

pub record FitsItem (row : ItemRow) : Type 0 where
  pub order_uid : count row.order_uid ≡ 36
  pub chrt_id : row.chrt_id < integer_end
  pub track_number : count row.track_number ≤ 50
  pub price : row.price < integer_end
  pub rid : count row.rid ≤ 50
  pub name : count row.name ≤ 50
  pub sale : row.sale < integer_end
  pub size : count row.size ≤ 10
  pub total_price : row.total_price < integer_end
  pub nm_id : row.nm_id < integer_end
  pub brand : count row.brand ≤ 50
  pub status : row.status < integer_end

abbrev pub FitsColumns : Statement → Type 0
FitsColumns (insert_order row) = FitsOrders row
FitsColumns (insert_delivery row) = FitsDelivery row
FitsColumns (insert_payment row) = FitsPayment row
FitsColumns (insert_item row) = FitsItem row
