-- ===== src/Emulator/Parts.antt =====
-- The delivery, the payment and the items of a generated order against their tags.
use Prim.Native.String
use gorder.Prelude.{◌&◌, ◌^◌, ◌<◌, ◌≤◌, ◌≡◌, ◌↔◌, String, true, All, arith}
use gorder.Models.{Delivery, Payment, Item}
use gorder.Models.Validation.{
  Validator, ValidatorLaws, uuid4, string, delivery_fields, payment_fields, item_fields,
}
use gorder.Emulator.{Moment}
use gorder.Emulator.Forms.{IsDelivery, IsPayment, IsItem}
use gorder.Emulator.Fields.{
  Passes, set_text, code, prose, numeral, positive, phone_iff, email_lem, literal, any_number,
  uuid_code, optional_prose,
}

-- The clock is set: later than the zero time, and its date is a number of 63 bits.
pub record IsClockSet (now : Moment) : Type 0 where
  pub micros : 1 ≤ now.micros
  pub late : 1000000 ≤ now.unix
  pub early : now.unix < 2 ^ 63

module _ (v : Validator) (laws : ValidatorLaws v) where
  pub delivery_iff :
      (d : Delivery)
      → IsDelivery d
      → All (Passes v laws) (delivery_fields d) ↔ (8 ≤ String.count d.phone)
  delivery_iff d h = (
    λ (_, (phone, _)). (phone_iff v laws d.phone h.phone).0 phone,
    λ long.
        prose v laws 100 100 d.name h.name (omega arith) (omega arith)
        & (phone_iff v laws d.phone h.phone).1 long
        & set_text v laws 10 d.zip (omega (arith, h.zip.low_lem)) (omega (arith, h.zip.high_lem))
        & prose v laws 20 100 d.city h.city (omega arith) (omega arith)
        & prose v laws 20 100 d.address h.address (omega arith) (omega arith)
        & prose v laws 20 100 d.region h.region (omega arith) (omega arith)
        & email_lem v laws d.email h.email
        & tt,
  )

  pub payment_passes :
      (uid : String) (now : Moment) (p : Payment)
      → v.holds uuid4 (string uid) ≡ true
      → IsClockSet now
      → IsPayment uid now p
      → All (Passes v laws) (payment_fields p)
  payment_passes uid now p u clock h =
      let (ago, recent, date) = h.payment_dt in
      let dated : 1 ≤ p.payment_dt = omega (arith, clock.late, clock.early) in
      uuid_code v laws p.transaction uid u h.transaction
      & optional_prose v laws 10 50 p.request_id h.request_id (omega arith) (omega arith)
      & literal v laws 3 p.currency "USD" h.currency (omega arith) (omega arith)
      & literal v laws 50 p.provider "WBPAY" h.provider (omega arith) (omega arith)
      & positive v laws p.amount (omega (arith, h.amount))
      & ground (arith, laws.required_number p.payment_dt)
      & code v laws 15 20 p.bank h.bank (omega arith) (omega arith)
      & any_number v laws p.delivery_cost
      & any_number v laws p.goods_total
      & any_number v laws p.custom_fee
      & tt

  pub item_iff : (i : Item) → IsItem i → All (Passes v laws) (item_fields i) ↔ (1 ≤ i.price)
  item_iff i h = (
    λ (_, (_, (price, _))). ground (arith, laws.required_number i.price),
    λ priced.
        positive v laws i.chrt_id h.chrt_id.0
        & code v laws 10 50 i.track_number h.track_number (omega arith) (omega arith)
        & positive v laws i.price priced
        & code v laws 20 50 i.rid h.rid (omega arith) (omega arith)
        & prose v laws 15 50 i.name h.name (omega arith) (omega arith)
        & any_number v laws i.sale
        & numeral v laws 1 10 i.size h.size (omega arith)
        & any_number v laws i.total_price
        & positive v laws i.nm_id h.nm_id.0
        & prose v laws 12 50 i.brand h.brand (omega arith) (omega arith)
        & ground (arith, laws.gte_number 0 i.status, laws.max_number 999 i.status, h.status)
        & tt,
  )
