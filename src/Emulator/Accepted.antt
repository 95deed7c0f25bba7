-- ===== src/Emulator/Accepted.antt =====
-- Which of the generated orders the validator of internal/models/models.go accepts, and that those
-- fit the tables.
use Prim.Native.String
use text.Mathlib.TextLemmas.{length-append}
use gorder.Prelude.{
  ◌&◌, ◌≤◌, ◌≡◌, ◌↔◌, String, List, [], ◌∷◌, ◌++◌, true, All, All-append, append-All, length, arith,
  sym, subst,
}
use gorder.Prelude.Result.{done}
use gorder.Models.{Order, Item}
use gorder.Models.Validation.{
  Validator, ValidatorLaws, Field, passes, required, dive, min, max, uuid4, alphanum, string, slice,
  structure, delivery_fields, payment_fields, item_fields, items_fields, order_fields,
}
use gorder.Repository.Atomic.{statements}
use gorder.Repository.Widths.{FitsColumns}
use gorder.Repository.Columns.{IsSmall, IsSmallItem, validated-FitsColumns}
use gorder.Emulator.{Rand, RandLaws, Moment, generate_random_order}
use gorder.Emulator.Forms.{IsEmail, IsItem, IsGenerated}
use gorder.Emulator.Shapes.{generate_random_order-IsGenerated}
use gorder.Emulator.Parts.{IsClockSet, delivery_iff, payment_passes, item_iff}
use gorder.Emulator.Fields.{
  Passes, code, numeral, positive, literal, customer_code, uuid_code, optional_code,
}

-- What keeps a generated order from being accepted is a short phone number or a price of 0.
pub record IsSendable (o : Order) : Type 0 where
  pub phone : 8 ≤ String.count o.delivery.phone
  pub prices : All (λ (i : Item). 1 ≤ i.price) o.items

module _ (v : Validator) (laws : ValidatorLaws v) where
  items_iff :
      (items : List Item)
      → All IsItem items
      → All (Passes v laws) (items_fields items) ↔ All (λ (i : Item). 1 ≤ i.price) items
  items_iff [] _ = (λ _. tt, λ _. tt)
  items_iff (i ∷ items) (h, hs) = (
    λ passed.
        let (own, others) =
          All-append (Passes v laws) (item_fields i) (items_fields items) passed in
        ((item_iff v laws i h).0 own, (items_iff items hs).0 others),
    λ (priced, others).
        append-All (Passes v laws) (item_fields i) (items_fields items)
          ((item_iff v laws i h).1 priced) ((items_iff items hs).1 others),
  )

  -- the fields of the order itself, before those that the nested structs and items add
  own_passes :
      (uid : String) (now : Moment) (o : Order)
      → v.holds uuid4 (string uid) ≡ true
      → IsClockSet now
      → IsGenerated uid now o
      → All (Passes v laws) (
          (structure, required ∷ []) ∷ delivery_fields o.delivery
          ++ (structure, required ∷ []) ∷ payment_fields o.payment
          ++ (slice (length o.items), required ∷ min 1 ∷ dive ∷ []) ∷ items_fields o.items)
      → All (Passes v laws) (order_fields o)
  own_passes uid now o u clock h nested =
      let (who, chosen) = h.customer_id in
      let dated : 1 ≤ o.date_created = omega (arith, clock.micros, h.date_created) in
      uuid_code v laws o.order_uid uid u h.order_uid
      & code v laws 10 50 o.track_number h.track_number (omega arith) (omega arith)
      & code v laws 4 10 o.entry h.entry (omega arith) (omega arith)
      & literal v laws 2 o.locale "ru" h.locale (omega arith) (omega arith)
      & optional_code v laws 10 100 o.internal_signature h.internal_signature (omega arith)
          (omega arith)
      & subst (λ x. Passes v laws (string x, required ∷ alphanum ∷ max 50 ∷ [])) (sym chosen)
          (customer_code v laws who)
      & code v laws 7 50 o.delivery_service h.delivery_service (omega arith) (omega arith)
      & numeral v laws 1 10 o.shard_key h.shard_key (omega arith)
      & positive v laws o.smid h.smid.0
      & ground (arith, laws.required_time o.date_created)
      & numeral v laws 1 10 o.oof_shard h.oof_shard (omega arith)
      & nested

  order_iff :
      (uid : String) (now : Moment) (o : Order)
      → v.holds uuid4 (string uid) ≡ true
      → IsClockSet now
      → IsGenerated uid now o
      → All (Passes v laws) (order_fields o) ↔ IsSendable o
  order_iff uid now o u clock h =
      let last : List Field =
        (slice (length o.items), required ∷ min 1 ∷ dive ∷ []) ∷ items_fields o.items in
      let paid : List Field = (structure, required ∷ []) ∷ payment_fields o.payment ++ last in
      (
        λ (_, (_, (_, (_, (_, (_, (_, (_, (_, (_, (_, (_, nested)))))))))))).
            let (delivery, (_, rest)) =
              All-append (Passes v laws) (delivery_fields o.delivery) paid nested in
            let (_, (_, items)) = All-append (Passes v laws) (payment_fields o.payment) last rest in
            record {
              phone = (delivery_iff v laws o.delivery h.delivery).0 delivery;
              prices = (items_iff o.items h.items).0 items;
            },
        λ sendable.
            let items : All (Passes v laws) last = (
              ground (
                arith,
                laws.required_slice (length o.items) h.items_count.0,
                laws.min_slice 1 (length o.items),
                laws.dive_slice (length o.items),
                h.items_count,
              ),
              (items_iff o.items h.items).1 sendable.prices,
            ) in
            let struct : Passes v laws (structure, required ∷ []) =
              ground (arith, laws.required_structure) in
            let nested =
              append-All (Passes v laws) (delivery_fields o.delivery) paid
                ((delivery_iff v laws o.delivery h.delivery).1 sendable.phone)
                (
                  struct,
                  append-All (Passes v laws) (payment_fields o.payment) last
                      (payment_passes v laws uid now o.payment u clock h.payment) items,
                ) in
            own_passes uid now o u clock h (struct, nested),
      )

short_email : (s : String) → IsEmail s → String.count s ≤ 100
short_email s h =
    let tail = String.◌++◌ h.host ".com" in
    subst (λ x. String.count x ≤ 100) (sym h.email_lem)
      (omega (
        arith,
        length-append h.name (String.◌++◌ "@" tail),
        length-append "@" tail,
        length-append h.host ".com",
        h.name_lem.count_lem,
        h.host_lem.count_lem,
      ))

items-IsSmallItem : (items : List Item) → All IsItem items → All IsSmallItem items
items-IsSmallItem [] _ = tt
items-IsSmallItem (i ∷ items) (h, hs) = (
  record {
    chrt_id = omega (arith, h.chrt_id);
    price = omega (arith, h.price);
    sale = omega (arith, h.sale);
    total_price = omega (arith, h.total_price);
    nm_id = omega (arith, h.nm_id);
  },
  items-IsSmallItem items hs,
)

IsGenerated-IsSmall :
    (uid : String) (now : Moment) (o : Order) → IsClockSet now → IsGenerated uid now o → IsSmall o
IsGenerated-IsSmall uid now o clock h =
    let p = h.payment in
    let (ago, recent, date) = p.payment_dt in
    record {
      smid = omega (arith, h.smid);
      email = short_email o.delivery.email h.delivery.email;
      amount = omega (arith, p.amount);
      payment_dt = omega (arith, clock.late, clock.early);
      delivery_cost = omega (arith, p.delivery_cost);
      goods_total = omega (arith, p.goods_total);
      custom_fee = omega (arith, p.custom_fee);
      items = items-IsSmallItem o.items h.items;
    }

module _ (rand : Rand) (draws : RandLaws rand) (v : Validator) (laws : ValidatorLaws v)
    (uuids : (seed : rand.Seed) → v.holds uuid4 (string (rand.new_uuid seed).0) ≡ true) where
  -- The validator accepts a generated order exactly where its phone number has at least eight
  -- characters and no item is priced 0, and the rows of such an order fit the columns of the tables.
  -- The clock is set, and `uuid.New` gives texts that pass as a UUID of version 4.
  pub generate_random_order-IsSendable_iff :
      (now : Moment) (seed : rand.Seed)
      → IsClockSet now
      → let o = (generate_random_order rand now seed).0 in
        ((v.struct (order_fields o) ≡ done) ↔ IsSendable o)
        × (IsSendable o → All FitsColumns (statements o))
  generate_random_order-IsSendable_iff now seed clock =
      let uid = (rand.new_uuid seed).0 in
      let o = (generate_random_order rand now seed).0 in
      let h = generate_random_order-IsGenerated rand draws now seed in
      let (passed, sent) = order_iff v laws uid now o (uuids seed) clock h in
      let (accepted, passes) = laws.struct_iff (order_fields o) in
      (
        (λ e. passed (accepted e), λ s. passes (sent s)),
        λ s.
            validated-FitsColumns v laws o (passes (sent s))
              (IsGenerated-IsSmall uid now o clock h),
      )
