-- ===== src/Emulator/Received.antt =====
-- From cmd/emulator/emulator.go to internal/consumer/consumer.go: which of the random orders the
-- consumer takes.
use gorder.Prelude.{
  suc, true, ◌≡◌, refl, ap, ◌∙◌, sym, ◌↔◌, String, List, [], ◌∷◌, ◌++◌, map, length, arith, inl,
  inr,
}
use gorder.Prelude.Result.{Result, ok, Status-cases, done}
use gorder.Models.{Order, Item}
use gorder.Models.Validation.{
  Validator, ValidatorLaws, uuid4, string, items_fields, order_fields, item_fields,
}
use gorder.Consumer.{Codec, process_message}
use gorder.Emulator.{Rand, RandLaws, Moment, generate_random_order}
use gorder.Emulator.Parts.{IsClockSet}
use gorder.Emulator.Accepted.{IsSendable, generate_random_order-IsSendable_iff}

-- the fields with the tag `json:"-"` are not sent
abbrev pub published_item : Item → Item
published_item i = record i { id = 0; order_uid = "" }

abbrev pub published : Order → Order
published o = record o {
  delivery = record o.delivery { order_uid = "" };
  payment = record o.payment { order_uid = "" };
  items = map published_item o.items;
}

-- `json.Unmarshal` gives back what `json.Marshal` has written.
pub record JsonLaws (marshal : Order → Result String String)
    (unmarshal : String → Result String Order) : Type 0 where
  pub marshal_lem :
      (o : Order) (value : String) → marshal o ≡ ok value → unmarshal value ≡ ok (published o)

items_fields-map :
    (items : List Item) → items_fields (map published_item items) ≡ items_fields items
items_fields-map [] = refl
items_fields-map (i ∷ items) = ap (λ rest. item_fields i ++ rest) (items_fields-map items)

length-map : (items : List Item) → length (map published_item items) ≡ length items
length-map [] = refl
length-map (i ∷ items) = ap suc (length-map items)

order_fields-published : (o : Order) → order_fields (published o) ≡ order_fields o
order_fields-published o = rw (items_fields-map, length-map) refl

-- the consumer's decoder and validator
abbrev pub codec_of : (String → Result String Order) → Validator → Codec
codec_of unmarshal v = record { unmarshal = unmarshal; validate = λ o. v.struct (order_fields o) }

process_message_iff :
    (unmarshal : String → Result String Order) (v : Validator) (value : String) (o : Order)
    → unmarshal value ≡ ok o
    → (process_message (codec_of unmarshal v) value ≡ ok o) ↔ (v.struct (order_fields o) ≡ done)
process_message_iff unmarshal v value o e = elim (Status-cases (v.struct (order_fields o))) [
  | inl p ↦ (λ _. p, λ _. rw (e, p) refl)
  | inr (x, p) ↦ (λ taken. absurd (ground arith), λ d. absurd (ground arith))
]

module _ (rand : Rand) (draws : RandLaws rand) (v : Validator) (laws : ValidatorLaws v)
    (uuids : (seed : rand.Seed) → v.holds uuid4 (string (rand.new_uuid seed).0) ≡ true)
    (marshal : Order → Result String String) (unmarshal : String → Result String Order)
    (json : JsonLaws marshal unmarshal) where
  -- The consumer takes the message of a random order exactly where the phone number has at least
  -- eight characters and no item is priced 0; it then has the order as it was sent. The clock is set,
  -- and `uuid.New` gives texts that pass as a UUID of version 4.
  pub process_message-IsSendable_iff :
      (now : Moment) (seed : rand.Seed) (value : String)
      → IsClockSet now
      → marshal (generate_random_order rand now seed).0 ≡ ok value
      → (process_message (codec_of unmarshal v) value
          ≡ ok (published (generate_random_order rand now seed).0))
        ↔ IsSendable (generate_random_order rand now seed).0
  process_message-IsSendable_iff now seed value clock sent =
      let o = (generate_random_order rand now seed).0 in
      let decoded = json.marshal_lem o value sent in
      let (accepted, passes) =
        (generate_random_order-IsSendable_iff rand draws v laws uuids now seed clock).0 in
      let same : v.struct (order_fields (published o)) ≡ v.struct (order_fields o) =
        ap v.struct (order_fields-published o) in
      let (valid, taken) = process_message_iff unmarshal v value (published o) decoded in
      (λ t. accepted (sym same ∙ valid t), λ s. taken (same ∙ passes s))
