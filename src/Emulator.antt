-- ===== src/Emulator.antt =====
-- cmd/emulator/emulator.go: the random orders. math/rand and the UUID generator are a parameter that
-- passes its state on; the calls are made in the order of the source.
pub mod Forms
pub mod Shapes
pub mod Fields
pub mod Parts
pub mod Accepted
pub mod Run
pub mod Received
use Prim.Native.String
use gorder.Prelude.{ℕ, zero, suc, ◌+◌, ◌-◌, ◌%◌, ◌^◌, ◌<◌, ◌≤◌, String, List, [], ◌∷◌, char_at}
use gorder.Prelude.Decimal.{itoa}
use gorder.Models.{Order, Delivery, Payment, Item}

-- `IntN`, `UintN` and `Uint64N` give a number below their argument, `uuid.New` a text.
pub record Rand : Type 1 where
  pub Seed : Type 0
  pub int_n : ℕ → Seed → ℕ × Seed
  pub new_uuid : Seed → String × Seed

pub record RandLaws (rand : Rand) : Type 0 where
  pub int_n_lem : (n : ℕ) (seed : rand.Seed) → 1 ≤ n → (rand.int_n n seed).0 < n

-- `time.Now()`: the microseconds of the model's times, and `Unix()` in seconds
pub record Moment : Type 0 where
  pub micros : ℕ
  pub unix : ℕ

abbrev pub u64 : ℕ → ℕ
u64 n = n % 2 ^ 64

-- `uint64` a - b
abbrev pub sub64 : ℕ → ℕ → ℕ
sub64 a b = u64 (u64 a + 2 ^ 64 - u64 b)

abbrev pub charset : String
charset = "abcdefghijklmnopqrstuvwxyzABCDEFGHIJKLMNOPQRSTUVWXYZ0123456789"

-- `[]string{"admin", "alice", "bob"}[i]`
abbrev pub customer : ℕ → String
customer zero = "admin"
customer (suc zero) = "alice"
customer (suc (suc _)) = "bob"

-- a computation that passes a state on
abbrev pub State : Type 0 → Type 0 → Type 0
State S A = S → A × S

abbrev pub pure : {S A : Type 0} → A → State S A
pure a s = (a, s)

infixl 5 ◌>>=◌
abbrev pub ◌>>=◌ : {S A B : Type 0} → State S A → (A → State S B) → State S B
(m >>= f) s = let (a, s') = m s in f a s'

module _ (rand : Rand) where
  abbrev pub Random : Type 0 → Type 0
  Random A = State rand.Seed A

  unfoldable pub generate_random_string : ℕ → Random String
  generate_random_string zero = pure ""
  generate_random_string (suc n) = do
    i ← rand.int_n (String.len charset)
    rest ← generate_random_string n
    pure (String.◌∷◌ (char_at charset i) rest)

  -- `fmt.Sprintf("%d", …)` of a number below `n`, to which `k` is added
  unfoldable pub random_numeral : ℕ → ℕ → Random String
  random_numeral n k = do i ← rand.int_n n; pure (itoa (i + k))

  unfoldable pub generate_random_phone : Random String
  generate_random_phone = do i ← rand.int_n 1000000000; pure (String.◌++◌ "+7" (itoa i))

  unfoldable pub generate_random_email : Random String
  generate_random_email = do
    name ← generate_random_string 10
    host ← generate_random_string 5
    pure (String.◌++◌ name (String.◌++◌ "@" (String.◌++◌ host ".com")))

  unfoldable pub random_delivery : String → Random Delivery
  random_delivery uid = do
    name ← generate_random_string 100
    phone ← generate_random_phone
    zip ← random_numeral 100000 0
    city ← generate_random_string 20
    address ← generate_random_string 20
    region ← generate_random_string 20
    email ← generate_random_email
    pure (record {
      order_uid = uid;
      name = name;
      phone = phone;
      zip = zip;
      city = city;
      address = address;
      region = region;
      email = email;
    })

  unfoldable pub random_payment : String → Moment → Random Payment
  random_payment uid now = do
    request_id ← generate_random_string 10
    amount ← rand.int_n 100000
    ago ← rand.int_n 1000000
    bank ← generate_random_string 15
    delivery_cost ← rand.int_n 1000
    goods_total ← rand.int_n 500
    custom_fee ← rand.int_n 100
    pure (record {
      order_uid = uid;
      transaction = uid;
      request_id = request_id;
      currency = "USD";
      provider = "WBPAY";
      amount = amount + 10;
      payment_dt = sub64 now.unix ago;
      bank = bank;
      delivery_cost = delivery_cost;
      goods_total = goods_total;
      custom_fee = custom_fee;
    })

  unfoldable pub random_item : String → Random Item
  random_item uid = do
    chrt_id ← rand.int_n 100000
    track_number ← generate_random_string 10
    price ← rand.int_n 100000
    rid ← generate_random_string 20
    name ← generate_random_string 15
    sale ← rand.int_n 99
    size ← random_numeral 5 1
    total_price ← rand.int_n 100000
    nm_id ← rand.int_n 100000
    brand ← generate_random_string 12
    status ← rand.int_n 999
    pure (record {
      id = 0;
      order_uid = uid;
      chrt_id = chrt_id + 1;
      track_number = track_number;
      price = price;
      rid = rid;
      name = name;
      sale = sale;
      size = size;
      total_price = total_price;
      nm_id = nm_id + 1;
      brand = brand;
      status = status;
    })

  -- the loop that appends the items
  unfoldable pub random_items : String → ℕ → Random (List Item)
  random_items uid zero = pure []
  random_items uid (suc n) = do
    item ← random_item uid
    items ← random_items uid n
    pure (item ∷ items)

  unfoldable pub generate_random_order : Moment → Random Order
  generate_random_order now = do
    uid ← rand.new_uuid
    delivery ← random_delivery uid
    payment ← random_payment uid now
    more ← rand.int_n 5
    items ← random_items uid (more + 1)
    track_number ← generate_random_string 10
    entry ← generate_random_string 4
    internal_signature ← generate_random_string 10
    who ← rand.int_n 3
    delivery_service ← generate_random_string 7
    shard_key ← random_numeral 10 0
    smid ← rand.int_n 100
    oof_shard ← random_numeral 10 0
    pure (record {
      order_uid = uid;
      track_number = track_number;
      entry = entry;
      locale = "ru";
      internal_signature = internal_signature;
      customer_id = customer who;
      delivery_service = delivery_service;
      shard_key = shard_key;
      smid = smid + 1;
      date_created = now.micros;
      oof_shard = oof_shard;
      delivery = delivery;
      payment = payment;
      items = items;
    })
