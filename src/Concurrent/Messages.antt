-- ===== src/Concurrent/Messages.antt =====
-- The thread of the consumer: the loop of internal/consumer/consumer.go, cut at its accesses to the
-- repository, the cache and the counter. `AddOrderIfNotExists` is two steps, the question whether the
-- order is there and the transaction that adds it.
use gorder.Prelude.{String, Option, none, some, List, [], ◌∷◌, true, false, if◌then◌else◌}
use gorder.Prelude.Result.{Result, ok, err, Status, done, failed}
use gorder.Models.{Order}
use gorder.Cache.{count}
use gorder.Repository.Driver.{Driver}
use gorder.Repository.Errors.{RepoError}
use gorder.Repository.Insert.{order_exists, add_order}
use gorder.Handler.Orders.{App}
use gorder.Consumer.{
  ReadError, canceled, deadline_exceeded, read_failed, Codec, process_message, is_stop,
  processed_one, Progress, stopped, waiting,
}
use gorder.Concurrent.{Thread, ended, atomic, acts, Ending, crashed, returned, idle}
use gorder.Concurrent.Requests.{kept}

-- What a run of the thread tells of the loop.
abbrev pub told : {S : Type 0} → S → Ending → Option (Progress S)
told s crashed = none
told s returned = some (stopped s)
told s idle = some (waiting s)

-- How the loop is meant to end on these reads: at the first error of an ended context, or waiting for
-- more.
abbrev pub ending_of : List (Result ReadError String) → Ending
ending_of [] = idle
ending_of (err canceled ∷ reads) = returned
ending_of (err deadline_exceeded ∷ reads) = returned
ending_of (err (read_failed _) ∷ reads) = ending_of reads
ending_of (ok _ ∷ reads) = ending_of reads

-- The orders that are meant to be taken: those of the messages up to there that can be unmarshalled and
-- are valid.
unfoldable pub taken : Codec → List (Result ReadError String) → List Order
taken v [] = []
taken v (err canceled ∷ reads) = []
taken v (err deadline_exceeded ∷ reads) = []
taken v (err (read_failed _) ∷ reads) = taken v reads
taken v (ok msg ∷ reads) =
    let rest = taken v reads in
    elim (v.unmarshal msg) [
      | err _ ↦ rest
      | ok o ↦ elim (v.validate o) [ failed _ ↦ rest | done ↦ o ∷ rest ]
    ]

module _ (d : Driver) where
  unfoldable pub adding : Order → App d.Db → App d.Db × Status RepoError
  adding o s = let (db, status) = add_order d o s.db in (record s { db = db }, status)

  abbrev pub counting : App d.Db → App d.Db
  counting s = record s { cache = count processed_one s.cache }

  -- an order that has been added is put into the cache and counted
  abbrev pub kept_order : Order → Thread (App d.Db) Ending → Thread (App d.Db) Ending
  kept_order o rest =
      atomic (kept o) (λ stored. if stored then acts counting (λ _. rest) else ended crashed)

  -- an order that is not there yet
  abbrev pub added_order : Order → Thread (App d.Db) Ending → Thread (App d.Db) Ending
  added_order o rest =
      atomic (adding o) (λ status. elim status [ failed _ ↦ rest | done ↦ kept_order o rest ])

  -- an order that has been taken, and the rest of the loop
  unfoldable pub saving : Order → Thread (App d.Db) Ending → Thread (App d.Db) Ending
  saving o rest =
      atomic (λ s. (s, order_exists d o.order_uid s.db))
        (λ exists. elim exists [ err _ ↦ rest | ok true ↦ rest | ok false ↦ added_order o rest ])

  unfoldable pub consuming_thread :
      Codec → List (Result ReadError String) → Thread (App d.Db) Ending
  consuming_thread v [] = ended idle
  consuming_thread v (err e ∷ reads) =
      let rest = consuming_thread v reads in if is_stop e then ended returned else rest
  consuming_thread v (ok msg ∷ reads) =
      let rest = consuming_thread v reads in
      elim (process_message v msg) [ err _ ↦ rest | ok o ↦ saving o rest ]
