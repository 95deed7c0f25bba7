-- ===== src/Models.antt =====
-- internal/models/models.go: orders, their parts, and users. A Go `uint` or `int` is a native
-- number here; the JSON decoder and the database keep the values in range. `time.Time` is the
-- number of microseconds since an epoch, the precision that PostgreSQL keeps.
pub mod Validation
use gorder.Prelude.{ℕ, String, List}

pub record Delivery : Type 0 where
  pub order_uid : String
  pub name : String
  pub phone : String
  pub zip : String
  pub city : String
  pub address : String
  pub region : String
  pub email : String

pub record Payment : Type 0 where
  pub order_uid : String
  pub transaction : String
  pub request_id : String
  pub currency : String
  pub provider : String
  pub amount : ℕ
  pub payment_dt : ℕ
  pub bank : String
  pub delivery_cost : ℕ
  pub goods_total : ℕ
  pub custom_fee : ℕ

pub record Item : Type 0 where
  pub id : ℕ
  pub order_uid : String
  pub chrt_id : ℕ
  pub track_number : String
  pub price : ℕ
  pub rid : String
  pub name : String
  pub sale : ℕ
  pub size : String
  pub total_price : ℕ
  pub nm_id : ℕ
  pub brand : String
  pub status : ℕ

pub record Order : Type 0 where
  pub order_uid : String
  pub track_number : String
  pub entry : String
  pub locale : String
  pub internal_signature : String
  pub customer_id : String
  pub delivery_service : String
  pub shard_key : String
  pub smid : ℕ
  pub date_created : ℕ
  pub oof_shard : String
  pub delivery : Delivery
  pub payment : Payment
  pub items : List Item

pub record User : Type 0 where
  pub id : ℕ
  pub username : String
  pub password_hash : String
  pub role : String
