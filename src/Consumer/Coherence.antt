-- ===== src/Consumer/Coherence.antt =====
-- The cache against the database while `Consume` of consumer.go runs.
use gorder.Prelude.{
  ℕ, suc, zero, String, ◌≡◌, refl, sym, List, [], ◌∷◌, Bool-cases, inl, inr, subst, All, take,
  In-append_left, In-append_right, string_discrete, some, if_pos, if_neg,
}
use gorder.Prelude.Result.{Result, ok, err, Status, done, failed, Result-cases}
use gorder.Models.{Order}
use gorder.Cache.Lru.{put, drop_key}
use gorder.Repository.Driver.{Driver, DriverLaws}
use gorder.Repository.Errors.{RepoError}
use gorder.Repository.Tables.{Tables}
use gorder.Repository.Insert.{order_row, add_order_if_not_exists}
use gorder.Repository.Interface.{repository}
use gorder.Repository.Ownership.{IsStored}
use gorder.Repository.RoundTrip.{added}
use gorder.Repository.Unique.{IsConsistent, Insertion, add_order_if_not_exists-IsConsistent}
use gorder.Handler.Orders.{App}
use gorder.Consumer.{ReadError, Codec, process_message, is_stop, Progress, consume}
use gorder.Consumer.Received.{
  View, state, saved_as, receive, receive_all, Shows, ShowsAll, consume-receive_all,
}

module _ {ℓ κ} {A : Type ℓ} (P : A → Type κ) where
  pub All-take : (n : ℕ) (xs : List A) → All P xs → All P (take n xs)
  All-take zero xs _ = tt
  All-take (suc n) [] _ = tt
  All-take (suc n) (x ∷ xs) (h, hs) = (h, All-take n xs hs)

pub All-map {ℓ κ μ} :
    {A : Type ℓ} (P : A → Type κ) (Q : A → Type μ)
    → ((x : A) → P x → Q x)
    → (xs : List A) → All P xs
    → All Q xs
All-map P Q f [] _ = tt
All-map P Q f (x ∷ xs) (h, hs) = (f x h, All-map P Q f xs hs)

pub All-drop_key :
    (P : Order → Type 0) (k : String) (os : List Order) → All P os → All P (drop_key k os)
unfolding drop_key
All-drop_key P k [] _ = tt
All-drop_key P k (o ∷ os) (h, hs) = elim (string_discrete o.order_uid k) [
  | yes p ↦ rw (if_pos _ p) (All-drop_key P k os hs)
  | no p ↦ rw (if_neg _ p) (h, All-drop_key P k os hs)
]

-- The row of the order, with its customer.
abbrev pub Backed : Tables → Order → Type 0
Backed t o = IsStored t o.order_uid o.customer_id

pub Backed-added : (o : Order) (t : Tables) → Backed (added o t) o
Backed-added o t = record {
  row = order_row o;
  listed = In-append_right (order_row o) t.orders (order_row o ∷ []) (inl refl);
  uid_lem = refl;
  customer_lem = refl;
}

pub Backed-later : (o : Order) (t : Tables) (p : Order) → Backed t p → Backed (added o t) p
Backed-later o t p h = record {
  row = h.row;
  listed = In-append_left h.row t.orders (order_row o ∷ []) h.listed;
  uid_lem = h.uid_lem;
  customer_lem = h.customer_lem;
}

module _ (d : Driver) (laws : DriverLaws d) (v : Codec) (capacity : ℕ) where
  -- The tables are consistent, and each order of the view has its row.
  pub record IsCoherent (w : View d.Db) : Type 0 where
    pub consistent : IsConsistent (d.tables w.db)
    pub backed : All (Backed (d.tables w.db)) w.orders

  saved-IsCoherent :
      (o : Order) (w : View d.Db)
      → IsCoherent w
      → IsCoherent (saved_as (repository d) v capacity (add_order_if_not_exists d o w.db) o w)
  unfolding put
  saved-IsCoherent o w h =
      let (consistent, inserted) =
        add_order_if_not_exists-IsConsistent d laws o w.db h.consistent in
      go (add_order_if_not_exists d o w.db).1 (add_order_if_not_exists d o w.db).0 consistent
        inserted
    where
      go :
          (s : Status RepoError) (db : d.Db)
          → IsConsistent (d.tables db)
          → Insertion s o (d.tables w.db) (d.tables db)
          → IsCoherent (saved_as (repository d) v capacity (db, s) o w)
      go (failed e) db c same = record {
        consistent = c;
        backed = subst (λ t. All (Backed t) w.orders) (sym same) h.backed;
      }
      go done db c (_, same) =
          let old =
            All-map (Backed (d.tables w.db)) (Backed (added o (d.tables w.db)))
              (Backed-later o (d.tables w.db)) w.orders h.backed in
          record {
            consistent = c;
            backed =
                subst (λ t. All (Backed t) (put capacity o w.orders)) (sym same)
                  (All-take (Backed (added o (d.tables w.db))) capacity
                    (o ∷ drop_key o.order_uid w.orders)
                    (
                      Backed-added o (d.tables w.db),
                      All-drop_key (Backed (added o (d.tables w.db))) o.order_uid w.orders old,
                    ));
          }

  receive_all-IsCoherent :
      (reads : List (Result ReadError String)) (w : View d.Db)
      → IsCoherent w
      → IsCoherent (state (receive_all (repository d) v capacity reads w))
  unfolding receive_all receive
  receive_all-IsCoherent [] w h = h
  receive_all-IsCoherent (err e ∷ reads) w h = elim (Bool-cases (is_stop e)) [
    | inl stop ↦ rw (receive_all, stop) h
    | inr go_on ↦ rw (receive_all, go_on) (receive_all-IsCoherent reads w h)
  ]
  receive_all-IsCoherent (ok msg ∷ reads) w h =
      receive_all-IsCoherent reads (receive (repository d) v capacity msg w)
        (elim (Result-cases (process_message v msg)) [
          | inr (e, p) ↦ rw (receive, p) h
          | inl (o, p) ↦ rw (receive, p) (saved-IsCoherent o w h)
        ])

  -- Over the repository, `Consume` keeps the cache coherent with the database: at every moment
  -- between two messages the cache holds only orders that stand in the orders table with their
  -- customers, and the tables have no UID twice and no part without its order.
  pub consume-IsCoherent :
      (reads : List (Result ReadError String)) (s : App d.Db) (w : View d.Db)
      → Shows capacity s w
      → IsCoherent w
      → (p : Progress (App d.Db)) × (consume (repository d) v reads s ≡ some p)
        × ShowsAll capacity p (receive_all (repository d) v capacity reads w)
        × IsCoherent (state (receive_all (repository d) v capacity reads w))
  consume-IsCoherent reads s w shown h =
      let (p, ran, shown') = consume-receive_all (repository d) v capacity reads s w shown in
      (p, ran, shown', receive_all-IsCoherent reads w h)
