-- ===== src/Consumer/Received.antt =====
-- What `Consume` leaves in the storage, in the cache and in the counter: a description that knows
-- of no pointers.
use gorder.Prelude.{
  ℕ, suc, String, ◌≡◌, refl, ap, some, List, [], ◌∷◌, if◌then◌else◌, Bool-cases, inl, inr, subst,
}
use gorder.Prelude.Result.{Result, ok, err, Status, done, failed, Result-cases, Status-cases}
use gorder.Models.{Order}
use gorder.Cache.{count}
use gorder.Cache.Lru.{put}
use gorder.Cache.Read.{Refines-count}
use gorder.Cache.Counter.{IsCounted, IsCounted-count, set-IsCounted}
use gorder.Cache.Trace.{Fits, set-Fits}
use gorder.Repository.Errors.{RepoError}
use gorder.Repository.Interface.{Interface}
use gorder.Handler.Orders.{App}
use gorder.Consumer.{
  ReadError, canceled, deadline_exceeded, read_failed, Codec, process_message, is_stop,
  processed_one, Progress, stopped, waiting, save, handle_message, consume,
}

abbrev pub state : {S : Type 0} → Progress S → S
state (stopped s) = s
state (waiting s) = s

-- The database, the orders in the cache from the most recently used one, and how many were saved.
pub record View (Db : Type 0) : Type 0 where
  pub db : Db
  pub orders : List Order
  pub saved : ℕ

module _ {Db : Type 0} (r : Interface Db) (v : Codec) (capacity : ℕ) where
  abbrev pub saved_as : Db × Status RepoError → Order → View Db → View Db
  saved_as (db, failed e) o w = record w { db = db }
  saved_as (db, done) o w = record {
    db = db;
    orders = put capacity o w.orders;
    saved = suc w.saved;
  }

  -- A message changes something only if it is an order that the storage is asked to add.
  unfoldable pub receive : String → View Db → View Db
  receive msg w = elim (process_message v msg) [
    | err _ ↦ w
    | ok o ↦ saved_as (r.add_order_if_not_exists o w.db) o w
  ]

  -- The messages up to the first error that stops the loop; other errors are passed over.
  unfoldable pub receive_all : List (Result ReadError String) → View Db → Progress (View Db)
  receive_all [] w = waiting w
  receive_all (err e ∷ reads) w =
      let rest = receive_all reads w in if is_stop e then stopped w else rest
  receive_all (ok msg ∷ reads) w = receive_all reads (receive msg w)

-- The same case by case, by what the reader, json.Unmarshal, the validator and the storage answer.
module _ {Db : Type 0} (r : Interface Db) (v : Codec) (capacity : ℕ) where
  pub data Receives : List (Result ReadError String) → View Db → Progress (View Db) → Type 0 where
    drained : (w : View Db) → Receives [] w (waiting w)
    -- The context has ended: the rest is not read.
    was_canceled :
        (reads : List (Result ReadError String)) (w : View Db)
        → Receives (err canceled ∷ reads) w (stopped w)
    was_late :
        (reads : List (Result ReadError String)) (w : View Db)
        → Receives (err deadline_exceeded ∷ reads) w (stopped w)
    -- Another error, a text that is no order and an order that is not valid are passed over.
    unread :
        (reason : String) (reads : List (Result ReadError String)) (w : View Db)
        (p : Progress (View Db))
        → Receives reads w p
        → Receives (err (read_failed reason) ∷ reads) w p
    malformed :
        (msg e : String) (reads : List (Result ReadError String)) (w : View Db)
        (p : Progress (View Db))
        → v.unmarshal msg ≡ err e
        → Receives reads w p
        → Receives (ok msg ∷ reads) w p
    invalid :
        (msg e : String) (o : Order) (reads : List (Result ReadError String)) (w : View Db)
        (p : Progress (View Db))
        → v.unmarshal msg ≡ ok o
        → v.validate o ≡ failed e
        → Receives reads w p
        → Receives (ok msg ∷ reads) w p
    -- A valid order is given to the storage, and kept and counted where that reports success.
    rejected :
        (msg : String) (e : RepoError) (o : Order) (reads : List (Result ReadError String))
        (w : View Db) (p : Progress (View Db))
        → v.unmarshal msg ≡ ok o
        → v.validate o ≡ done
        → (r.add_order_if_not_exists o w.db).1 ≡ failed e
        → Receives reads (record w { db = (r.add_order_if_not_exists o w.db).0 }) p
        → Receives (ok msg ∷ reads) w p
    accepted :
        (msg : String) (o : Order) (reads : List (Result ReadError String)) (w : View Db)
        (p : Progress (View Db))
        → v.unmarshal msg ≡ ok o
        → v.validate o ≡ done
        → (r.add_order_if_not_exists o w.db).1 ≡ done
        → Receives reads
            (record {
              db = (r.add_order_if_not_exists o w.db).0;
              orders = put capacity o w.orders;
              saved = suc w.saved;
            })
            p
        → Receives (ok msg ∷ reads) w p

  receive-Receives :
      (msg : String) (reads : List (Result ReadError String)) (w : View Db)
      → ((w' : View Db) → Receives reads w' (receive_all r v capacity reads w'))
      → Receives (ok msg ∷ reads) w (receive_all r v capacity reads (receive r v capacity msg w))
  unfolding receive
  receive-Receives msg reads w rest = elim (Result-cases (v.unmarshal msg)) [
    | inr (e, p) ↦ rw (receive, p) (malformed msg e reads w _ p (rest w))
    | inl (o, p) ↦ elim (Status-cases (v.validate o)) [
      | inr (e, q) ↦ rw (receive, p, q) (invalid msg e o reads w _ p q (rest w))
      | inl q ↦ elim (Status-cases (r.add_order_if_not_exists o w.db).1) [
        | inr (e, t) ↦ rw (receive, p, q, t) (rejected msg e o reads w _ p q t (rest _))
        | inl t ↦ rw (receive, p, q, t) (accepted msg o reads w _ p q t (rest _))
      ]
    ]
  ]

  receive_all-Receives :
      (reads : List (Result ReadError String)) (w : View Db)
      → Receives reads w (receive_all r v capacity reads w)
  unfolding receive_all
  receive_all-Receives [] w = drained w
  receive_all-Receives (err canceled ∷ reads) w = was_canceled reads w
  receive_all-Receives (err deadline_exceeded ∷ reads) w = was_late reads w
  receive_all-Receives (err (read_failed reason) ∷ reads) w =
      unread reason reads w _ (receive_all-Receives reads w)
  receive_all-Receives (ok msg ∷ reads) w =
      receive-Receives msg reads w (receive_all-Receives reads)

-- The state of the program is as the view says.
pub record Shows {Db : Type 0} (capacity : ℕ) (s : App Db) (w : View Db) : Type 0 where
  pub db_lem : s.db ≡ w.db
  pub fits : Fits capacity s.cache w.orders
  pub counted : IsCounted s.cache.metrics w.saved

abbrev pub ShowsAll : {Db : Type 0} → ℕ → Progress (App Db) → Progress (View Db) → Type 0
ShowsAll capacity (stopped s) (stopped w) = Shows capacity s w
ShowsAll capacity (waiting s) (waiting w) = Shows capacity s w
ShowsAll capacity (stopped s) (waiting w) = ⊥
ShowsAll capacity (waiting s) (stopped w) = ⊥

module _ {Db : Type 0} (r : Interface Db) (v : Codec) (capacity : ℕ) where
  save-Shows :
      (o : Order) (s : App Db) (w : View Db)
      → Shows capacity s w
      → (s' : App Db) × (save r v o s ≡ some s')
        × Shows capacity s' (saved_as r v capacity (r.add_order_if_not_exists o w.db) o w)
  unfolding save
  save-Shows o s w h =
      subst
        (λ db.
          (s' : App Db) × (save r v o s ≡ some s')
          × Shows capacity s' (saved_as r v capacity (r.add_order_if_not_exists o db) o w))
        h.db_lem (go (r.add_order_if_not_exists o s.db).1 refl)
    where
      go :
          (status : Status RepoError)
          → (r.add_order_if_not_exists o s.db).1 ≡ status
          → (s' : App Db) × (save r v o s ≡ some s')
            × Shows capacity s' (saved_as r v capacity (r.add_order_if_not_exists o s.db) o w)
      go (failed e) p = (
        record s { db = (r.add_order_if_not_exists o s.db).0 },
        rw (save, p),
        rw p (record { db_lem = refl; fits = h.fits; counted = h.counted }),
      )
      go done p =
          let (cache, returned, fits) = set-Fits capacity h.fits o in
          (
            record { db = (r.add_order_if_not_exists o s.db).0; cache = count processed_one cache },
            rw (save, p, returned),
            rw p (record {
              db_lem = refl;
              fits = record {
                refines = Refines-count fits.refines processed_one (λ m. refl);
                limit = fits.limit;
                room = fits.room;
              };
              counted =
                  IsCounted-count processed_one cache.metrics w.saved (suc w.saved)
                    (λ m k. ap suc k) (set-IsCounted w.saved o s.cache cache returned h.counted);
            }),
          )

  handle_message-Shows :
      (msg : String) (s : App Db) (w : View Db)
      → Shows capacity s w
      → (s' : App Db) × (handle_message r v msg s ≡ some s')
        × Shows capacity s' (receive r v capacity msg w)
  unfolding handle_message receive
  handle_message-Shows msg s w h = elim (Result-cases (process_message v msg)) [
    | inr (e, p) ↦ (s, rw (handle_message, p), rw (receive, p) h)
    | inl (o, p) ↦
        let (s', saved, shown) = save-Shows o s w h in
        (s', rw (handle_message, p) saved, rw (receive, p) shown)
  ]

  -- What `Consume` leaves is as `receive_all` says.
  pub consume-receive_all :
      (reads : List (Result ReadError String)) (s : App Db) (w : View Db)
      → Shows capacity s w
      → (p : Progress (App Db)) × (consume r v reads s ≡ some p)
        × ShowsAll capacity p (receive_all r v capacity reads w)
  unfolding consume receive_all
  consume-receive_all [] s w h = (waiting s, refl, h)
  consume-receive_all (ok msg ∷ reads) s w h =
      let (s', handled, shown) = handle_message-Shows msg s w h in
      let (p, ran, shown') = consume-receive_all reads s' (receive r v capacity msg w) shown in
      (p, rw handled ran, shown')
  consume-receive_all (err e ∷ reads) s w h = elim (Bool-cases (is_stop e)) [
    | inl stop ↦ (stopped s, rw (consume, stop), rw (receive_all, stop) h)
    | inr go_on ↦
        let (p, ran, shown) = consume-receive_all reads s w h in
        (p, rw (consume, go_on) ran, rw (receive_all, go_on) shown)
  ]

  -- Whatever the reader returns, `Consume` meets no nil pointer and stops at the first error of an
  -- ended context, canceled or past its deadline. Other errors, texts that cannot be unmarshalled and
  -- orders that the validator refuses are passed over. Each other order is given to the storage, in
  -- order, and those that it accepts, and only these, are what `Consume` leaves in the cache, within
  -- its capacity, and what the counter counts.
  pub consume-ShowsAll :
      (reads : List (Result ReadError String)) (s : App Db) (w : View Db)
      → Shows capacity s w
      → (p : Progress (App Db)) × (q : Progress (View Db)) × (consume r v reads s ≡ some p)
        × Receives r v capacity reads w q
        × ShowsAll capacity p q
  consume-ShowsAll reads s w h =
      let (p, ran, shown) = consume-receive_all reads s w h in
      (p, receive_all r v capacity reads w, ran, receive_all-Receives r v capacity reads w, shown)
