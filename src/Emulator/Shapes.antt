-- ===== src/Emulator/Shapes.antt =====
-- What the generated orders look like, field by field.
use Prim.Native.String
use text.Mathlib.TextLemmas.{append_assoc, length-append, length-cons}
use gorder.Prelude.{
  ℕ, zero, suc, ◌+◌, ◌<◌, ◌≤◌, ◌≡◌, refl, inl, String, All, length, arith, char_at, char_at-Each,
  append-Each, ap, Each, IsDigit, IsAlphanum,
}
use gorder.Prelude.Decimal.{pow10, itoa, itoa-IsNumeral}
use gorder.Emulator.{
  Rand, RandLaws, Moment, charset, generate_random_string, random_numeral, generate_random_phone,
  generate_random_email, random_delivery, random_payment, random_item, random_items,
  generate_random_order,
}
use gorder.Emulator.Forms.{
  IsCode, IsPhone, IsEmail, IsShort, IsDelivery, IsPayment, IsItem, IsGenerated,
}

charset-IsAlphanum : Each IsAlphanum charset
charset-IsAlphanum = ground arith

module _ (rand : Rand) (laws : RandLaws rand) where
  drawn_plus : (n k : ℕ) (seed : rand.Seed) → 1 ≤ n → (rand.int_n n seed).0 + k < n + k
  drawn_plus n k seed p = omega (arith, laws.int_n_lem n seed p)

  drawn : (n : ℕ) (seed : rand.Seed) → 1 ≤ n → (rand.int_n n seed).0 < n
  drawn n seed p = laws.int_n_lem n seed p

  generate_random_string-IsCode :
      (n : ℕ) (seed : rand.Seed) → IsCode n (generate_random_string rand n seed).0
  unfolding generate_random_string
  generate_random_string-IsCode zero seed = record { chars = tt; count_lem = refl }
  generate_random_string-IsCode (suc n) seed =
      let (i, seed') = rand.int_n 62 seed in
      let rest = generate_random_string-IsCode n seed' in
      let chosen : IsAlphanum (char_at charset i) =
        char_at-Each IsAlphanum charset i charset-IsAlphanum (drawn 62 seed (omega arith)) in
      record {
        chars = (chosen, rest.chars);
        count_lem = omega (
          arith,
          length-cons (char_at charset i) (generate_random_string rand n seed').0,
          rest.count_lem,
        );
      }

  random_numeral-IsShort :
      (n k h : ℕ) (seed : rand.Seed)
      → 1 ≤ n
      → n + k ≤ pow10 (suc h)
      → IsShort (suc h) (random_numeral rand n k seed).0
  unfolding random_numeral
  random_numeral-IsShort n k h seed p q =
      itoa-IsNumeral ((rand.int_n n seed).0 + k) 0 h (inl refl)
        (omega (arith, drawn_plus n k seed p))

  generate_random_phone-IsPhone : (seed : rand.Seed) → IsPhone (generate_random_phone rand seed).0
  unfolding generate_random_phone
  generate_random_phone-IsPhone seed =
      let (i, _) = rand.int_n 1000000000 seed in
      let digits = itoa-IsNumeral i 0 8 (inl refl) (drawn 1000000000 seed (omega arith)) in
      record {
        number = String.◌++◌ "7" (itoa i);
        number_lem = record {
          digits = append-Each IsDigit "7" (itoa i) (ground arith) digits.digits;
          low_lem = omega (arith, length-append "7" (itoa i), digits.low_lem);
          high_lem = omega (arith, length-append "7" (itoa i), digits.high_lem);
        };
        phone_lem = append_assoc "+" "7" (itoa i);
      }

  generate_random_email-IsEmail : (seed : rand.Seed) → IsEmail (generate_random_email rand seed).0
  unfolding generate_random_email
  generate_random_email-IsEmail seed = record {
    name = (generate_random_string rand 10 seed).0;
    host = (generate_random_string rand 5 (generate_random_string rand 10 seed).1).0;
    name_lem = generate_random_string-IsCode 10 _;
    host_lem = generate_random_string-IsCode 5 _;
    email_lem = refl;
  }

  random_delivery-IsDelivery :
      (uid : String) (seed : rand.Seed) → IsDelivery (random_delivery rand uid seed).0
  unfolding random_delivery
  random_delivery-IsDelivery uid seed = record {
    name = generate_random_string-IsCode 100 _;
    phone = generate_random_phone-IsPhone _;
    zip = random_numeral-IsShort 100000 0 4 _ (omega arith) (omega arith);
    city = generate_random_string-IsCode 20 _;
    address = generate_random_string-IsCode 20 _;
    region = generate_random_string-IsCode 20 _;
    email = generate_random_email-IsEmail _;
  }

  random_payment-IsPayment :
      (uid : String) (now : Moment) (seed : rand.Seed)
      → IsPayment uid now (random_payment rand uid now seed).0
  unfolding random_payment
  random_payment-IsPayment uid now seed = record {
    transaction = refl;
    request_id = generate_random_string-IsCode 10 _;
    currency = refl;
    provider = refl;
    amount = (omega arith, drawn_plus 100000 10 _ (omega arith));
    payment_dt = (_, drawn 1000000 _ (omega arith), refl);
    bank = generate_random_string-IsCode 15 _;
    delivery_cost = drawn 1000 _ (omega arith);
    goods_total = drawn 500 _ (omega arith);
    custom_fee = drawn 100 _ (omega arith);
  }

  random_item-IsItem : (uid : String) (seed : rand.Seed) → IsItem (random_item rand uid seed).0
  unfolding random_item
  random_item-IsItem uid seed = record {
    chrt_id = (omega arith, drawn_plus 100000 1 _ (omega arith));
    track_number = generate_random_string-IsCode 10 _;
    price = drawn 100000 _ (omega arith);
    rid = generate_random_string-IsCode 20 _;
    name = generate_random_string-IsCode 15 _;
    sale = drawn 99 _ (omega arith);
    size = random_numeral-IsShort 5 1 0 _ (omega arith) (omega arith);
    total_price = drawn 100000 _ (omega arith);
    nm_id = (omega arith, drawn_plus 100000 1 _ (omega arith));
    brand = generate_random_string-IsCode 12 _;
    status = drawn 999 _ (omega arith);
  }

  random_items-IsItem :
      (uid : String) (n : ℕ) (seed : rand.Seed)
      → All IsItem (random_items rand uid n seed).0 × (length (random_items rand uid n seed).0 ≡ n)
  unfolding random_items
  random_items-IsItem uid zero seed = (tt, refl)
  random_items-IsItem uid (suc n) seed =
      let (items, counted) = random_items-IsItem uid n (random_item rand uid seed).1 in
      ((random_item-IsItem uid seed, items), ap suc counted)

  count-items :
      (uid : String) (more : ℕ) (seed : rand.Seed)
      → more < 5
      → (1 ≤ length (random_items rand uid (more + 1) seed).0)
        × (length (random_items rand uid (more + 1) seed).0 ≤ 5)
  count-items uid more seed l =
      let counted = (random_items-IsItem uid (more + 1) seed).1 in
      (omega (arith, counted), omega (arith, counted))

  -- Each field of a generated order is as `IsGenerated` says, under the UID that is drawn.
  pub generate_random_order-IsGenerated :
      (now : Moment) (seed : rand.Seed)
      → IsGenerated (rand.new_uuid seed).0 now (generate_random_order rand now seed).0
  unfolding generate_random_order
  generate_random_order-IsGenerated now seed = record {
    order_uid = refl;
    track_number = generate_random_string-IsCode 10 _;
    entry = generate_random_string-IsCode 4 _;
    locale = refl;
    internal_signature = generate_random_string-IsCode 10 _;
    customer_id = (_, refl);
    delivery_service = generate_random_string-IsCode 7 _;
    shard_key = random_numeral-IsShort 10 0 0 _ (omega arith) (omega arith);
    smid = (omega arith, drawn_plus 100 1 _ (omega arith));
    date_created = refl;
    oof_shard = random_numeral-IsShort 10 0 0 _ (omega arith) (omega arith);
    delivery = random_delivery-IsDelivery _ _;
    payment = random_payment-IsPayment _ now _;
    items = (random_items-IsItem _ _ _).0;
    items_count = count-items _ _ _ (drawn 5 _ (omega arith));
  }
