-- ===== src/Tests/Emulator.antt =====
-- The emulator with the highest numbers drawn every time.
use gorder.Prelude.{
  ℕ, ◌-◌, ◌≤◌, ◌≡◌, ◌↔◌, refl, sym, ap, String, List, [], ◌∷◌, ◌++◌, All, length, arith,
  string_discrete, if_pos, ite,
}
use native.Mathlib.Decide.{ℕ_discrete}
use gorder.Prelude.Result.{Result, ok, err, done}
use gorder.Models.{Order}
use gorder.Models.Validation.{order_fields}
use gorder.Repository.Atomic.{statements}
use gorder.Repository.Widths.{FitsColumns}
use gorder.Consumer.{process_message}
use gorder.Emulator.{Rand, RandLaws, Moment, generate_random_order}
use gorder.Emulator.Parts.{IsClockSet}
use gorder.Emulator.Accepted.{IsSendable, generate_random_order-IsSendable_iff}
use gorder.Emulator.Received.{published, JsonLaws, codec_of, process_message-IsSendable_iff}
use gorder.Emulator.Run.{
  Message, Kafka, run, write_all, messages_of, random_orders, file_orders, run-write_all,
}
use gorder.Tests.Validator.{plain_validator, plain_validator_laws, valid_order}

abbrev uuid : String
uuid = "b563feb7-b2b8-4b6a-9f5d-1c2e3f4a5b6c"

-- The greatest number that may be drawn; the state does not matter.
abbrev highest : Rand
highest = record { Seed = ℕ; int_n = λ n seed. (n - 1, seed); new_uuid = λ seed. (uuid, seed) }

highest_laws : RandLaws highest
highest_laws = record { int_n_lem = λ n seed p. omega arith }

abbrev now : Moment
now = record { micros = 1; unix = 1700000000 }

now-IsClockSet : IsClockSet now
now-IsClockSet = ground arith

abbrev generated : Order
generated = (generate_random_order highest now 0).0

generate_random_order-IsSendable_iff_example :
    ((plain_validator.struct (order_fields generated) ≡ done) ↔ IsSendable generated)
    × (IsSendable generated → All FitsColumns (statements generated))
generate_random_order-IsSendable_iff_example =
    generate_random_order-IsSendable_iff highest highest_laws plain_validator plain_validator_laws
      (λ seed. refl) now 0 now-IsClockSet

order_discrete : Discrete Order
order_discrete = hlevel (string_discrete, ℕ_discrete)

-- The generated order is the only one with a text.
abbrev marshal_one : Order → Result String String
marshal_one o = ite (order_discrete o generated) (ok "generated") (err "unsupported value")

abbrev unmarshal_one : String → Result String Order
unmarshal_one value = ok (published generated)

marshal_one_laws : JsonLaws marshal_one unmarshal_one
marshal_one_laws = record {
  marshal_lem = λ o value e. elim (order_discrete o generated) [
    | yes p ↦ ap (λ x. ok (published x)) (sym p)
    | no p ↦ absurd (ground arith)
  ];
}

marshalled : marshal_one generated ≡ ok "generated"
marshalled =
    if_pos (order_discrete generated generated) refl (ok "generated") (err "unsupported value")

process_message-IsSendable_iff_example :
    (process_message (codec_of unmarshal_one plain_validator) "generated"
      ≡ ok (published generated))
    ↔ IsSendable generated
process_message-IsSendable_iff_example =
    process_message-IsSendable_iff highest highest_laws plain_validator plain_validator_laws
      (λ seed. refl) marshal_one unmarshal_one marshal_one_laws now 0 "generated" now-IsClockSet
      marshalled

-- A writer that keeps what it has written.
abbrev recorder : Kafka
recorder = record {
  Writer = List Message;
  new_writer = λ brokers topic. [];
  write_messages = λ message w. (w ++ message ∷ [], done);
  close = λ w. (w, done);
}

abbrev uid_of_order : Order → Result String String
uid_of_order o = ok o.order_uid

abbrev load_valid : String → Result String Order
load_valid path = ok valid_order

abbrev planned : List Message
planned =
    messages_of recorder uid_of_order
      (random_orders highest (λ _. now) 10 0 ++ file_orders load_valid 1 5)

run-write_all_example :
    let sent = write_all recorder uid_of_order planned [] in
    (run recorder uid_of_order highest (λ _. now) load_valid "" 0
      ≡ ((recorder.close sent.0).0, sent.1))
    × (length planned ≤ 15)
run-write_all_example = run-write_all recorder uid_of_order highest (λ _. now) load_valid "" 0
