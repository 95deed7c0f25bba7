-- ===== src/Concurrent/Whole.antt =====
-- The thread of the consumer against the loop of internal/consumer/consumer.go, and both kinds of
-- threads together.
use gorder.Prelude.{
  ◌>>=◌, ap, String, ◌≡◌, refl, Option, none, some, List, [], ◌∷◌, true, false, Bool-cases,
  Option-cases, inl, inr,
}
use gorder.Prelude.Result.{Result, ok, err, Status, done, failed, Result-cases}
use gorder.Models.{Order}
use gorder.Cache.{count, set}
use gorder.Middleware.Jwt.{Jwt}
use gorder.Repository.Driver.{Driver}
use gorder.Repository.Errors.{already_exists, RepoError}
use gorder.Repository.Insert.{order_exists, add_order, add_order_if_not_exists}
use gorder.Repository.Interface.{repository}
use gorder.Handler.Orders.{App}
use gorder.Handler.Session.{Bcrypt}
use gorder.Consumer.{
  processed_one, ReadError, Codec, process_message, is_stop, Progress, save, handle_message,
  consume,
}
use gorder.Concurrent.{Thread, alone, outcome, Ending}
use gorder.Concurrent.Requests.{Request, thread_of, handled}
use gorder.Concurrent.Messages.{told, saving, adding, added_order, consuming_thread}
use gorder.Concurrent.Alone.{kept-set, handled-Does}

module _ (d : Driver) where
  pub adding-add :
      (o : Order) (s : App d.Db) (x : d.Db × Status RepoError)
      → add_order d o s.db ≡ x
      → adding d o s ≡ (record s { db = x.0 }, x.1)
  unfolding adding
  adding-add o s x e = ap (λ (y : d.Db × Status RepoError). (record s { db = y.0 }, y.1)) e

module _ (d : Driver) (v : Codec) where
  -- `save` by what `AddOrderIfNotExists` has returned
  save_lem :
      (o : Order) (s : App d.Db) (x : d.Db × Status RepoError)
      → add_order_if_not_exists d o s.db ≡ x
      → save (repository d) v o s ≡ elim x.1 [
        | failed _ ↦ some (record s { db = x.0 })
        | done ↦
            set (some o) s.cache >>= λ c. some (record { db = x.0; cache = count processed_one c })
      ]
  unfolding save
  save_lem o s x e =
      ap
        (λ (y : d.Db × Status RepoError). elim y.1 as (λ _. Option (App d.Db)) [
          | failed _ ↦ some (record s { db = y.0 })
          | done ↦ set (some o) s.cache >>= λ c.
              some (record { db = y.0; cache = count processed_one c })
        ])
        e

  saving-Does :
      (o : Order) (rest : Thread (App d.Db) Ending) (k : App d.Db → Option (Progress (App d.Db)))
      → ((s : App d.Db) → alone told rest s ≡ k s)
      → (s : App d.Db) → alone told (saving d o rest) s ≡ (save (repository d) v o s >>= k)
  unfolding alone saving add_order_if_not_exists
  saving-Does o rest k h s = elim (Result-cases (order_exists d o.order_uid s.db)) [
    | inr (e, p) ↦
        rw (alone, saving, p, save_lem o s (s.db, failed e) (rw (add_order_if_not_exists, p) refl))
          (h s)
    | inl (true, p) ↦
        rw
          (
            alone,
            saving,
            p,
            save_lem o s (s.db, failed (already_exists o.order_uid))
                (rw (add_order_if_not_exists, p) refl),
          )
          (h s)
    | inl (false, p) ↦
        rw (alone, saving, p) (go p (add_order d o s.db).0 (add_order d o s.db).1 refl)
  ]
    where
      go :
          order_exists d o.order_uid s.db ≡ ok false
          → (db : d.Db) (status : Status RepoError) → add_order d o s.db ≡ (db, status)
          → alone told (added_order d o rest) s ≡ (save (repository d) v o s >>= k)
      go p db (failed e) q =
          rw
            (
              alone,
              adding-add d o s (db, failed e) q,
              save_lem o s (db, failed e) (rw (add_order_if_not_exists, p) q),
            )
            (h (record s { db = db }))
      go p db done q =
          let saved = save_lem o s (db, done) (rw (add_order_if_not_exists, p) q) in
          elim (Option-cases (set (some o) s.cache)) [
            | inl e ↦
                rw
                  (
                    alone,
                    adding-add d o s (db, done) q,
                    kept-set (repository d) o (record s { db = db }) none e,
                    saved,
                    e,
                  )
                  refl
            | inr (c, e) ↦
                rw
                  (
                    alone,
                    adding-add d o s (db, done) q,
                    kept-set (repository d) o (record s { db = db }) (some c) e,
                    saved,
                    e,
                  )
                  (h (record { db = db; cache = count processed_one c }))
          ]

  consuming-Does :
      (reads : List (Result ReadError String)) (s : App d.Db)
      → alone told (consuming_thread d v reads) s ≡ consume (repository d) v reads s
  unfolding alone consuming_thread consume handle_message
  consuming-Does [] s = refl
  consuming-Does (err e ∷ reads) s = elim (Bool-cases (is_stop e)) [
    | inl p ↦ rw (consuming_thread, consume, p) refl
    | inr p ↦ rw (consuming_thread, consume, p) (consuming-Does reads s)
  ]
  consuming-Does (ok msg ∷ reads) s = elim (Result-cases (process_message v msg)) [
    | inr (e, p) ↦ rw (consuming_thread, consume, handle_message, p) (consuming-Does reads s)
    | inl (o, p) ↦
        rw (consuming_thread, consume, handle_message, p)
          (saving-Does o (consuming_thread d v reads) (consume (repository d) v reads)
            (consuming-Does reads) s)
  ]

module _ (d : Driver) (v : Codec) (j : Jwt) (b : Bcrypt) (secret : String) where
  -- With nobody else about, the thread of each request changes the state and writes what its handler
  -- does, a panic included, and the consumer's thread does what `Consume` does, whatever is read.
  alone_lem :
      ((q : Request (repository d) j b secret) (s : App d.Db)
        → alone outcome (thread_of (repository d) j b secret q) s
          ≡ handled (repository d) j b secret q s)
      × ((reads : List (Result ReadError String)) (s : App d.Db)
          → alone told (consuming_thread d v reads) s ≡ consume (repository d) v reads s)
  alone_lem = (handled-Does (repository d) j b secret, consuming-Does d v)
