-- ===== src/Emulator/Forms.antt =====
-- The forms of the fields that cmd/emulator/emulator.go draws, and of the order they make up.
use Prim.Native.String
use gorder.Prelude.{ℕ, ◌<◌, ◌≤◌, ◌≡◌, String, All, length, Each, IsAlphanum}
use gorder.Prelude.Decimal.{IsNumeral}
use gorder.Models.{Order, Delivery, Payment, Item}
use gorder.Emulator.{Moment, customer, sub64}

-- `n` characters of the charset
pub record IsCode (n : ℕ) (s : String) : Type 0 where
  pub chars : Each IsAlphanum s
  pub count_lem : String.count s ≡ n

-- "+7" and from one to nine digits
pub record IsPhone (s : String) : Type 0 where
  pub number : String
  pub number_lem : IsNumeral 2 10 number
  pub phone_lem : s ≡ String.◌++◌ "+" number

-- ten characters, "@", five characters, ".com"
pub record IsEmail (s : String) : Type 0 where
  pub name : String
  pub host : String
  pub name_lem : IsCode 10 name
  pub host_lem : IsCode 5 host
  pub email_lem : s ≡ String.◌++◌ name (String.◌++◌ "@" (String.◌++◌ host ".com"))

-- a numeral of one to `h` digits
abbrev pub IsShort : ℕ → String → Type 0
IsShort h = IsNumeral 1 h

pub record IsDelivery (d : Delivery) : Type 0 where
  pub name : IsCode 100 d.name
  pub phone : IsPhone d.phone
  pub zip : IsShort 5 d.zip
  pub city : IsCode 20 d.city
  pub address : IsCode 20 d.address
  pub region : IsCode 20 d.region
  pub email : IsEmail d.email

pub record IsPayment (uid : String) (now : Moment) (p : Payment) : Type 0 where
  pub transaction : p.transaction ≡ uid
  pub request_id : IsCode 10 p.request_id
  pub currency : p.currency ≡ "USD"
  pub provider : p.provider ≡ "WBPAY"
  pub amount : (10 ≤ p.amount) × (p.amount < 100010)
  pub payment_dt : (ago : ℕ) × (ago < 1000000) × (p.payment_dt ≡ sub64 now.unix ago)
  pub bank : IsCode 15 p.bank
  pub delivery_cost : p.delivery_cost < 1000
  pub goods_total : p.goods_total < 500
  pub custom_fee : p.custom_fee < 100

pub record IsItem (i : Item) : Type 0 where
  pub chrt_id : (1 ≤ i.chrt_id) × (i.chrt_id < 100001)
  pub track_number : IsCode 10 i.track_number
  pub price : i.price < 100000
  pub rid : IsCode 20 i.rid
  pub name : IsCode 15 i.name
  pub sale : i.sale < 99
  pub size : IsShort 1 i.size
  pub total_price : i.total_price < 100000
  pub nm_id : (1 ≤ i.nm_id) × (i.nm_id < 100001)
  pub brand : IsCode 12 i.brand
  pub status : i.status < 999

pub record IsGenerated (uid : String) (now : Moment) (o : Order) : Type 0 where
  pub order_uid : o.order_uid ≡ uid
  pub track_number : IsCode 10 o.track_number
  pub entry : IsCode 4 o.entry
  pub locale : o.locale ≡ "ru"
  pub internal_signature : IsCode 10 o.internal_signature
  pub customer_id : (who : ℕ) × (o.customer_id ≡ customer who)
  pub delivery_service : IsCode 7 o.delivery_service
  pub shard_key : IsShort 1 o.shard_key
  pub smid : (1 ≤ o.smid) × (o.smid < 101)
  pub date_created : o.date_created ≡ now.micros
  pub oof_shard : IsShort 1 o.oof_shard
  pub delivery : IsDelivery o.delivery
  pub payment : IsPayment uid now o.payment
  pub items : All IsItem o.items
  pub items_count : (1 ≤ length o.items) × (length o.items ≤ 5)
