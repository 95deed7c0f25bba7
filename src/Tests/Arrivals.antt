-- ===== src/Tests/Arrivals.antt =====
-- An order that arrives twice while alice asks for another one.
use gorder.Prelude.{String, ◌≡◌, refl, List, [], ◌∷◌, All, arith, if◌then◌else◌, str_eq}
use gorder.Prelude.Result.{Result, ok, err, done}
use gorder.Repository.Atomic.{statements}
use gorder.Repository.Columns.{validated-FitsColumns}
use gorder.Repository.Tables.{Tables}
use gorder.Repository.Widths.{FitsColumns}
use gorder.Handler.Orders.{App}
use gorder.Consumer.{ReadError, Codec}
use gorder.Concurrent.{Pool, ended, idle, run}
use gorder.Concurrent.Messages.{taken}
use gorder.Concurrent.Safety.{started}
use gorder.Concurrent.Stored.{IsThere, run-stores}
use gorder.Tests.Concurrent.{requests, rounds, empty_app-IsSound}
use gorder.Tests.Samples.{memory, memory_laws, plain_jwt, plain_bcrypt}
use gorder.Tests.Storage.{memory-IsUp, valid_order-IsSmall, empty_app}
use gorder.Tests.Validator.{plain_validator, plain_validator_laws, valid_order}

abbrev valid_codec : Codec
valid_codec = record {
  unmarshal = λ msg. if str_eq msg "order" then ok valid_order else err "unexpected end of input";
  validate = λ _. done;
}

abbrev twice : List (Result ReadError String)
twice = ok "order" ∷ ok "{" ∷ ok "order" ∷ []

valid_order-fits : All FitsColumns (statements valid_order)
valid_order-fits =
    validated-FitsColumns plain_validator plain_validator_laws valid_order refl valid_order-IsSmall

twice-fits : All (λ o. All FitsColumns (statements o)) (taken valid_codec twice)
unfolding taken
twice-fits = (valid_order-fits, (valid_order-fits, tt))

abbrev arrived : Pool (App Tables)
arrived = run (rounds 12) (
    started memory memory_laws 2 plain_jwt plain_bcrypt "secret" valid_codec twice requests
      empty_app)

run-stores_example :
    (arrived.consumer ≡ ended idle)
    × All (λ o. IsThere o.order_uid arrived.state.db) (taken valid_codec twice)
run-stores_example =
    run-stores memory memory_laws memory-IsUp 2 plain_jwt plain_bcrypt "secret" valid_codec twice
      requests empty_app (rounds 12) twice-fits empty_app-IsSound (omega arith)
