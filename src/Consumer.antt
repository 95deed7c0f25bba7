-- ===== src/Consumer.antt =====
-- internal/consumer/consumer.go. kafka-go's reader, encoding/json and the validator are parameters:
-- the reader is the list of what its `ReadMessage` calls return. The consumer shares the cache, its
-- metrics and the storage with the handlers (internal/app/app.go).
pub mod Received
pub mod Coherence
pub mod Health
use gorder.Prelude.{
  suc, String, Option, none, some, List, [], ◌∷◌, Bool, true, false, if◌then◌else◌, ◌>>=◌,
}
use gorder.Prelude.Result.{Result, ok, err, Status, done, failed}
use gorder.Models.{Order}
use gorder.Metrics.{Metrics}
use gorder.Cache.{Cache, set, count}
use gorder.Repository.Interface.{Interface}
use gorder.Handler.Orders.{App}

pub data ReadError : Type 0 where
  canceled : ReadError
  deadline_exceeded : ReadError
  read_failed : String → ReadError

-- `json.Unmarshal` into an empty order, and the validator's `Struct`
pub record Codec : Type 0 where
  pub unmarshal : String → Result String Order
  pub validate : Order → Status String

abbrev pub process_message : Codec → String → Result String Order
process_message v msg = elim (v.unmarshal msg) [
  | err e ↦ err e
  | ok order ↦ elim (v.validate order) [ failed e ↦ err e | done ↦ ok order ]
]

-- `errors.Is` with the two errors of a context that has ended
abbrev pub is_stop : ReadError → Bool
is_stop canceled = true
is_stop deadline_exceeded = true
is_stop (read_failed _) = false

abbrev pub processed_one : Metrics → Metrics
processed_one m = record m { orders_processed = suc m.orders_processed }

-- How the loop stands after some reads: it has returned, or it waits for the next message.
pub data Progress (S : Type 0) : Type 0 where
  stopped : S → Progress S
  waiting : S → Progress S

module _ {Db : Type 0} (r : Interface Db) (v : Codec) where
  -- `AddOrderIfNotExists`, and on success `Set` and the counter; `none` is a nil pointer met
  unfoldable pub save : Order → App Db → Option (App Db)
  save order s =
      let (db, status) = r.add_order_if_not_exists order s.db in
      elim status [
        | failed _ ↦ some (record s { db = db })
        | done ↦ do
          cache ← set (some order) s.cache
          some (record { db = db; cache = count processed_one cache })
      ]

  -- the body of the loop for one message
  unfoldable pub handle_message : String → App Db → Option (App Db)
  handle_message msg s = elim (process_message v msg) [ err _ ↦ some s | ok order ↦ save order s ]

  -- the loop
  unfoldable pub consume : List (Result ReadError String) → App Db → Option (Progress (App Db))
  consume [] s = some (waiting s)
  consume (err e ∷ reads) s =
      let rest = consume reads s in if is_stop e then some (stopped s) else rest
  consume (ok msg ∷ reads) s = do s' ← handle_message msg s; consume reads s'
