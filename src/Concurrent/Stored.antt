-- ===== src/Concurrent/Stored.antt =====
-- The consumer of internal/consumer/consumer.go among the requests, over a database that does not fail:
-- what becomes of the orders.
use gorder.Prelude.{
  ℕ, ◌*◌, ◌≤◌, length, All, String, ◌≡◌, ◌≢◌, refl, ap, List, [], ◌∷◌, Bool, true, false, In, inl,
  arith,
}
use gorder.Prelude.Result.{Result, ok, Status, failed}
use gorder.Middleware.Jwt.{Jwt}
use gorder.Models.{Order}
use gorder.Repository.Atomic.{statements}
use gorder.Repository.Driver.{Driver, DriverLaws}
use gorder.Repository.Errors.{RepoError}
use gorder.Repository.Insert.{order_exists, add_order}
use gorder.Repository.Keys.{statements-AreAccepted}
use gorder.Repository.Ownership.{IsStored}
use gorder.Repository.Success.{IsUp, add_order-done}
use gorder.Repository.Tables.{Tables, OrderRow, In-where_eq, exists_query, orders_with}
use gorder.Repository.Unique.{IsConsistent}
use gorder.Repository.Widths.{FitsColumns}
use gorder.Handler.Orders.{App}
use gorder.Handler.Session.{Bcrypt}
use gorder.Consumer.{ReadError, Codec}
use gorder.Concurrent.{ended, Pool, Turn, run, consumer_turns}
use gorder.Concurrent.Messages.{ending_of, taken}
use gorder.Concurrent.Safety.{Healthy, Asked, started, consumed}
use gorder.Concurrent.Saving.{Learns}

-- The orders table has a row with the UID, whoever the customer is.
abbrev pub IsThere : String → Tables → Type 0
IsThere uid t = (customer : String) × IsStored t uid customer

exists_true : (uid : String) (t : Tables) → In true (exists_query uid t) → IsThere uid t
unfolding exists_query
exists_true uid t i = go (orders_with uid t.orders) refl
  where
    go : (rows : List OrderRow) → orders_with uid t.orders ≡ rows → IsThere uid t
    go [] e = let j : In true (false ∷ []) = rw (e, exists_query) at i in absurd (ground arith)
    go (r ∷ rs) e =
        let j : In r (orders_with uid t.orders) = rw e (inl refl) in
        let (listed, named) = In-where_eq (λ (x : OrderRow). x.order_uid) uid r t.orders j in
        (r.customer_id, record { row = r; listed = listed; uid_lem = named; customer_lem = refl })

module _ (d : Driver) (laws : DriverLaws d) (up : IsUp d) (capacity : ℕ) where
  order_exists-answered :
      (uid : String) (db : d.Db)
      → (b : Bool) × (order_exists d uid db ≡ ok b) × (d.query_row (exists_query uid) db ≡ ok b)
  unfolding order_exists
  order_exists-answered uid db =
      let (b, answered) = up.looks_up uid db in (b, rw (order_exists, answered), answered)

  order_exists_true :
      (uid : String) (db : d.Db) → order_exists d uid db ≡ ok true → IsThere uid (d.tables db)
  order_exists_true uid db e = go (order_exists-answered uid db)
    where
      go :
          ((b : Bool) × (order_exists d uid db ≡ ok b) × (d.query_row (exists_query uid) db ≡ ok b))
          → IsThere uid (d.tables db)
      go (false, said, answered) = absurd cc
      go (true, said, answered) =
          exists_true uid (d.tables db) (laws.query_row_lem (exists_query uid) db true answered)

  add_order_not_failed :
      (o : Order) (db db' : d.Db) (e : RepoError)
      → All FitsColumns (statements o)
      → IsConsistent (d.tables db)
      → orders_with o.order_uid (d.tables db).orders ≡ []
      → add_order d o db ≢ (db', failed e)
  add_order_not_failed o db db' e fits consistent new p =
      let (ran, _) =
        add_order-done d laws up o db
          (statements-AreAccepted o (d.tables db) fits (consistent.owned o.order_uid new)) in
      let said : (add_order d o db).1 ≡ failed e = ap (λ (x : d.Db × Status RepoError). x.1) p in cc

  IsThere-Learns :
      (o : Order)
      → All FitsColumns (statements o)
      → Learns d laws capacity (λ s. IsThere o.order_uid (d.tables s.db)) o
  IsThere-Learns o fits = record {
    stays = λ s t keeps h. (h.0, keeps (record o { customer_id = h.0 }) h.1);
    on_error = λ s e p. let (b, said, _) = order_exists-answered o.order_uid s.db in absurd cc;
    on_there = λ s p. order_exists_true o.order_uid s.db p;
    on_failed =
        λ s db e consistent new p. absurd (add_order_not_failed o s.db db e fits consistent new p);
    on_done = λ s db backed. (o.customer_id, backed);
  }

  all-IsThere-Learns :
      (os : List Order)
      → All (λ o. All FitsColumns (statements o)) os
      → All (λ o. Learns d laws capacity (λ s. IsThere o.order_uid (d.tables s.db)) o) os
  all-IsThere-Learns [] _ = tt
  all-IsThere-Learns (o ∷ os) (fits, others) = (IsThere-Learns o fits, all-IsThere-Learns os others)

  -- With a database that is up, under the column types and the keys of migrations/, and from a sound
  -- state: whatever requests there are and in whatever order the goroutines take their steps, a
  -- consumer that has had four turns for each result of the reader has ended, and every valid order
  -- from the messages up to the first error of an ended context is in the orders table by its UID,
  -- where these orders fit their columns.
  pub run-stores :
      (j : Jwt) (b : Bcrypt) (secret : String) (v : Codec) (reads : List (Result ReadError String))
      (qs : List (Asked d laws capacity j b secret)) (s : App d.Db) (turns : List Turn)
      → All (λ o. All FitsColumns (statements o)) (taken v reads)
      → Healthy d laws capacity j b secret s
      → 4 * length reads ≤ consumer_turns turns
      → let p : Pool (App d.Db) = run turns (started d laws capacity j b secret v reads qs s) in
        (p.consumer ≡ ended (ending_of reads))
        × All (λ o. IsThere o.order_uid (d.tables p.state.db)) (taken v reads)
  run-stores j b secret v reads qs s turns fits sound enough =
      consumed d laws capacity j b secret v reads qs s turns
        (λ o s'. IsThere o.order_uid (d.tables s'.db)) (all-IsThere-Learns (taken v reads) fits)
        sound enough
