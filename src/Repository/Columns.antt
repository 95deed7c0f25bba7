-- ===== src/Repository/Columns.antt =====
-- What the tags of internal/models/models.go say of the rows that `AddOrder` inserts, against the
-- widths of the columns.
use Prim.Native.String.{count}
use gorder.Prelude.{
  ◌&◌, ℕ, ◌≤◌, ◌<◌, ◌≡◌, String, List, [], ◌∷◌, ◌++◌, true, length, All-append, inl, inr, refl, All,
  arith,
}
use gorder.Prelude.Result.{done}
use gorder.Models.{Order, Item}
use gorder.Models.Validation.{
  required, max, min, dive, gte, uuid4, alphanum, e164, omitempty, Field, string, number, slice,
  structure, Validator, ValidatorLaws, passes, passes-count, item_fields, items_fields,
  delivery_fields, payment_fields, order_fields,
}
use gorder.Repository.Insert.{order_row, delivery_row, payment_row, item_row}
use gorder.Repository.Atomic.{item_statements, statements}
use gorder.Repository.Widths.{
  integer_end, bigint_end, FitsOrders, FitsDelivery, FitsPayment, FitsItem, FitsColumns,
}

-- What no tag says: the numbers are in the range of their columns, and the e-mail address is short.
pub record IsSmallItem (i : Item) : Type 0 where
  pub chrt_id : i.chrt_id < integer_end
  pub price : i.price < integer_end
  pub sale : i.sale < integer_end
  pub total_price : i.total_price < integer_end
  pub nm_id : i.nm_id < integer_end

pub record IsSmall (o : Order) : Type 0 where
  pub smid : o.smid < integer_end
  pub email : count o.delivery.email ≤ 100
  pub amount : o.payment.amount < integer_end
  pub payment_dt : o.payment.payment_dt < bigint_end
  pub delivery_cost : o.payment.delivery_cost < integer_end
  pub goods_total : o.payment.goods_total < integer_end
  pub custom_fee : o.payment.custom_fee < integer_end
  pub items : All IsSmallItem o.items

module _ (v : Validator) (laws : ValidatorLaws v) where
  abbrev Passes : Field → Type 0
  Passes (value, tags) = passes v.holds tags value ≡ true

  set_text :
      (n : ℕ) (s : String) → passes v.holds (required ∷ max n ∷ []) (string s) ≡ true → count s ≤ n
  set_text n s = passes-count v laws (required ∷ max n ∷ []) s n (inr (inl refl))

  set_code :
      (n : ℕ) (s : String)
      → passes v.holds (required ∷ alphanum ∷ max n ∷ []) (string s) ≡ true
      → count s ≤ n
  set_code n s = passes-count v laws (required ∷ alphanum ∷ max n ∷ []) s n (inr (inr (inl refl)))

  set_uuid : (s : String) → passes v.holds (required ∷ uuid4 ∷ []) (string s) ≡ true → count s ≡ 36
  set_uuid s h = ground (arith, laws.uuid4_count s)

  set_phone : (s : String) → passes v.holds (required ∷ e164 ∷ []) (string s) ≡ true → count s ≤ 16
  set_phone s h = ground (arith, laws.e164_count s)

  small_status : (n : ℕ) → passes v.holds (gte 0 ∷ max 999 ∷ []) (number n) ≡ true → n < integer_end
  small_status n h = ground (arith, laws.max_number 999 n)

  item-FitsItem :
      (uid : String) (i : Item)
      → count uid ≡ 36
      → IsSmallItem i
      → All Passes (item_fields i)
      → FitsItem (item_row uid i)
  item-FitsItem uid i u small
        (_ & track_number & _ & rid & name & _ & size & _ & _ & brand & status & _) =
      record {
        order_uid = u;
        chrt_id = small.chrt_id;
        track_number = set_code 50 i.track_number track_number;
        price = small.price;
        rid = set_code 50 i.rid rid;
        name = set_text 50 i.name name;
        sale = small.sale;
        size = set_code 10 i.size size;
        total_price = small.total_price;
        nm_id = small.nm_id;
        brand = set_text 50 i.brand brand;
        status = small_status i.status status;
      }

  items-FitsColumns :
      (uid : String) (items : List Item)
      → count uid ≡ 36
      → All IsSmallItem items
      → All Passes (items_fields items)
      → All FitsColumns (item_statements uid items)
  unfolding item_statements
  items-FitsColumns uid [] u _ _ = tt
  items-FitsColumns uid (i ∷ items) u (small, smalls) h =
      let (own, others) = All-append Passes (item_fields i) (items_fields items) h in
      (item-FitsItem uid i u small own, items-FitsColumns uid items u smalls others)

  payment-FitsPayment :
      (o : Order)
      → count o.order_uid ≡ 36
      → IsSmall o
      → All Passes (payment_fields o.payment)
      → FitsPayment (payment_row o.order_uid o.payment)
  payment-FitsPayment o u small
        (transaction & request_id & currency & provider & _ & _ & bank & _) =
      let p = o.payment in
      let short : count p.transaction ≡ 36 = set_uuid p.transaction transaction in
      let request : count p.request_id ≤ 50 =
        passes-count v laws (omitempty ∷ max 50 ∷ []) p.request_id 50 (inr (inl refl)) request_id in
      record {
        order_uid = u;
        transaction = omega (arith, short);
        request_id = omega (arith, request);
        currency = set_text 3 p.currency currency;
        provider = set_text 50 p.provider provider;
        amount = small.amount;
        payment_dt = small.payment_dt;
        bank = set_code 20 p.bank bank;
        delivery_cost = small.delivery_cost;
        goods_total = small.goods_total;
        custom_fee = small.custom_fee;
      }

  delivery-FitsDelivery :
      (o : Order)
      → count o.order_uid ≡ 36
      → IsSmall o
      → All Passes (delivery_fields o.delivery)
      → FitsDelivery (delivery_row o.order_uid o.delivery)
  delivery-FitsDelivery o u small (name & phone & zip & city & address & region & _) =
      let d = o.delivery in
      record {
        order_uid = u;
        name = set_text 100 d.name name;
        phone = set_phone d.phone phone;
        zip = set_text 10 d.zip zip;
        city = set_text 100 d.city city;
        address = set_text 100 d.address address;
        region = set_text 100 d.region region;
        email = small.email;
      }

  passed-FitsColumns :
      (o : Order) → IsSmall o → All Passes (order_fields o) → All FitsColumns (statements o)
  unfolding statements
  passed-FitsColumns o small
        (uid & track_number & entry & locale & signature & customer & service & shard & _ & _ & oof
          & _ & nested) =
      let last : List Field =
        (slice (length o.items), required ∷ min 1 ∷ dive ∷ []) ∷ items_fields o.items in
      let (delivery, (_, nested')) =
        All-append Passes (delivery_fields o.delivery)
          ((structure, required ∷ []) ∷ payment_fields o.payment ++ last) nested in
      let (payment, (_, items)) = All-append Passes (payment_fields o.payment) last nested' in
      let u = set_uuid o.order_uid uid in
      let row : FitsOrders (order_row o) = record {
        order_uid = u;
        track_number = set_code 50 o.track_number track_number;
        entry = set_code 10 o.entry entry;
        locale = set_text 2 o.locale locale;
        internal_signature =
            passes-count v laws (omitempty ∷ alphanum ∷ max 100 ∷ []) o.internal_signature 100
              (inr (inr (inl refl))) signature;
        customer_id = set_code 50 o.customer_id customer;
        delivery_service = set_code 50 o.delivery_service service;
        shard_key = set_code 10 o.shard_key shard;
        smid = small.smid;
        oof_shard = set_code 10 o.oof_shard oof;
      } in
      row
      & delivery-FitsDelivery o u small delivery
      & payment-FitsPayment o u small payment
      & items-FitsColumns o.order_uid o.items u small.items items

  -- An order that passes the validator, with an e-mail address of at most 100 characters and numbers
  -- in the range of their columns, fits the tables: each text of the rows that `AddOrder` inserts is
  -- within the width of its column, and each number within its range.
  pub validated-FitsColumns :
      (o : Order) → v.struct (order_fields o) ≡ done → IsSmall o → All FitsColumns (statements o)
  validated-FitsColumns o h small =
      passed-FitsColumns o small ((laws.struct_iff (order_fields o)).0 h)
