-- ===== src/Concurrent/Saving.antt =====
-- The thread of the consumer among the requests: what each of its steps leaves.
use gorder.Prelude.{
  All, ℕ, String, ◌≡◌, refl, sym, ap, ◌∙◌, subst, some, List, [], ◌∷◌, inl, inr, true, false,
}
use gorder.Prelude.Result.{Result, ok, err, Status, done, failed, Result-cases, Status-cases}
use gorder.Models.{Order}
use gorder.Cache.Read.{Refines-count}
use gorder.Cache.Lru.{put}
use gorder.Cache.Trace.{set-Fits}
use gorder.Repository.Driver.{Driver, DriverLaws}
use gorder.Repository.Errors.{RepoError}
use gorder.Repository.Insert.{order_exists, add_order}
use gorder.Repository.Interface.{repository}
use gorder.Repository.Tables.{Tables, orders_with}
use gorder.Repository.Unique.{IsConsistent, order_exists_false, add_order-IsConsistent, Insertion}
use gorder.Consumer.{ReadError, canceled, deadline_exceeded, read_failed, Codec, processed_one}
use gorder.Consumer.Coherence.{Backed, Backed-added, Backed-later, All-map}
use gorder.Coherence.Lookup.{All-put}
use gorder.Handler.Orders.{App}
use gorder.System.Handlers.{IsSound}
use gorder.Concurrent.{Thread, Ending}
use gorder.Concurrent.Alone.{kept-set}
use gorder.Concurrent.Whole.{adding-add}
use gorder.Concurrent.Lookups.{LeavesOrders, KeepsOrders, Leaves-KeepsOrders}
use gorder.Concurrent.Messages.{
  adding, counting, kept_order, added_order, saving, ending_of, taken, consuming_thread,
}
use gorder.Concurrent.Rely.{Safe, Safe-map, Safe-with}

module _ (d : Driver) (laws : DriverLaws d) (capacity : ℕ) where
  abbrev Sound : App d.Db → Type 0
  Sound = IsSound d laws capacity

  abbrev pub SafeConsumer :
      (App d.Db → Ending → Type 0) → Thread (App d.Db) Ending → App d.Db → Type 0
  SafeConsumer = Safe Sound (LeavesOrders d laws capacity) (KeepsOrders d laws capacity)

  -- `Q` is known once an order has been dealt with, whatever the database has answered, and stays.
  pub record Learns (Q : App d.Db → Type 0) (o : Order) : Type 0 where
    pub stays : (s t : App d.Db) → KeepsOrders d laws capacity s t → Q s → Q t
    pub on_error : (s : App d.Db) (e : RepoError) → order_exists d o.order_uid s.db ≡ err e → Q s
    pub on_there : (s : App d.Db) → order_exists d o.order_uid s.db ≡ ok true → Q s
    pub on_failed :
        (s : App d.Db) (db : d.Db) (e : RepoError)
        → IsConsistent (d.tables s.db)
        → orders_with o.order_uid (d.tables s.db).orders ≡ []
        → add_order d o s.db ≡ (db, failed e)
        → Q (record s { db = db })
    pub on_done : (s : App d.Db) (db : d.Db) → Backed (d.tables db) o → Q (record s { db = db })

  -- The tables after an order has been added keep the orders that they had.
  Insertion-Keeps :
      (o : Order) (status : Status RepoError) (t t' : Tables)
      → Insertion status o t t'
      → (p : Order) → Backed t p
      → Backed t' p
  Insertion-Keeps o (failed e) t t' same p h = subst (λ x. Backed x p) (sym same) h
  Insertion-Keeps o done t t' (_, same) p h =
      subst (λ x. Backed x p) (sym same) (Backed-later o t p h)

  orders-alone :
      (s t : App d.Db) (uid : String)
      → LeavesOrders d laws capacity s t
      → orders_with uid (d.tables s.db).orders ≡ []
      → orders_with uid (d.tables t.db).orders ≡ []
  orders-alone s t uid left none_there =
      ap (λ (x : Tables). orders_with uid x.orders) left ∙ none_there

  counting-Sound : (s : App d.Db) → Sound s → Sound (counting d s)
  counting-Sound s sound = record {
    orders = sound.orders;
    fits = record {
      refines = Refines-count sound.fits.refines processed_one (λ m. refl);
      limit = sound.fits.limit;
      room = sound.fits.room;
    };
    backed = sound.backed;
    consistent = sound.consistent;
  }

  added-Sound :
      (o : Order) (s : App d.Db)
      → Sound s
      → (db : d.Db) (status : Status RepoError) → IsConsistent (d.tables db)
      → Insertion status o (d.tables s.db) (d.tables db)
      → Sound (record s { db = db })
  added-Sound o s sound db status consistent inserted = record {
    orders = sound.orders;
    fits = sound.fits;
    backed =
        All-map (Backed (d.tables s.db)) (Backed (d.tables db))
          (Insertion-Keeps o status (d.tables s.db) (d.tables db) inserted) sound.orders
          sound.backed;
    consistent = consistent;
  }

  module _ (Post : App d.Db → Ending → Type 0) (Q : App d.Db → Type 0) (o : Order)
      (learns : Learns Q o) (rest : Thread (App d.Db) Ending)
      (safe : (s : App d.Db) → Q s → SafeConsumer Post rest s) where
    kept_order-Safe :
        (s : App d.Db) → Backed (d.tables s.db) o → Q s → SafeConsumer Post (kept_order d o rest) s
    kept_order-Safe s backed q = λ s' left sound.
        let (c, stored, fits) = set-Fits capacity sound.fits o in
        let still : KeepsOrders d laws capacity s s' =
          Leaves-KeepsOrders d laws capacity s s' left in
        let sound' : Sound (record s' { cache = c }) = record {
          orders = put capacity o sound.orders;
          fits = fits;
          backed =
              All-put (Backed (d.tables s'.db)) capacity o sound.orders (still o backed)
                sound.backed;
          consistent = sound.consistent;
        } in
        rw (kept-set (repository d) o s' (some c) stored) (
          sound',
          λ p h. h,
          λ s'' left' sound''.
              let stays' = Leaves-KeepsOrders d laws capacity (record s' { cache = c }) s'' left' in
              (
                counting-Sound s'' sound'',
                λ p h. h,
                safe (counting d s'')
                    (learns.stays s (counting d s'') (λ p h. stays' p (still p h)) q),
              ),
        )

    added_order-Safe :
        (s : App d.Db)
        → orders_with o.order_uid (d.tables s.db).orders ≡ []
        → SafeConsumer Post (added_order d o rest) s
    added_order-Safe s new = λ s' left sound.
        let new' = orders-alone s s' o.order_uid left new in
        let (consistent, inserted) = add_order-IsConsistent d laws o s'.db sound.consistent new' in
        go s' sound new' (add_order d o s'.db).0 (add_order d o s'.db).1 refl consistent inserted
      where
        go :
            (s' : App d.Db)
            → Sound s'
            → orders_with o.order_uid (d.tables s'.db).orders ≡ []
            → (db : d.Db) (status : Status RepoError) → add_order d o s'.db ≡ (db, status)
            → IsConsistent (d.tables db)
            → Insertion status o (d.tables s'.db) (d.tables db)
            → Sound (adding d o s').0
              × KeepsOrders d laws capacity s' (adding d o s').0
              × SafeConsumer Post
                  (elim (adding d o s').1 [ failed _ ↦ rest | done ↦ kept_order d o rest ])
                  (adding d o s').0
        go s' sound new' db (failed x) e consistent inserted =
            rw (adding-add d o s' (db, failed x) e) (
              added-Sound o s' sound db (failed x) consistent inserted,
              Insertion-Keeps o (failed x) (d.tables s'.db) (d.tables db) inserted,
              safe (record s' { db = db }) (learns.on_failed s' db x sound.consistent new' e),
            )
        go s' sound new' db done e consistent inserted =
            let backed =
              subst (λ (x : Tables). Backed x o) (sym inserted.1)
                (Backed-added o (d.tables s'.db)) in
            rw (adding-add d o s' (db, done) e) (
              added-Sound o s' sound db done consistent inserted,
              Insertion-Keeps o done (d.tables s'.db) (d.tables db) inserted,
              kept_order-Safe (record s' { db = db }) backed (learns.on_done s' db backed),
            )

    saving-Safe : (s : App d.Db) → SafeConsumer Post (saving d o rest) s
    unfolding saving
    saving-Safe s = λ s' left sound. (
      sound,
      λ p h. h,
      elim (Result-cases (order_exists d o.order_uid s'.db)) [
        | inr (e, p) ↦ rw p (safe s' (learns.on_error s' e p))
        | inl (true, p) ↦ rw p (safe s' (learns.on_there s' p))
        | inl (false, p) ↦
            rw p (added_order-Safe s' (order_exists_false d laws o.order_uid s'.db p))
      ],
    )

  module _ (v : Codec) (Q : Order → App d.Db → Type 0) where
    -- The thread has ended so, and what is known of the orders is known of all of them.
    abbrev pub WellEnded : Ending → List Order → App d.Db → Ending → Type 0
    WellEnded ending os s e = (e ≡ ending) × All (λ o. Q o s) os

    rest-Safe :
        (o : Order)
        → Learns (Q o) o
        → (rest : Thread (App d.Db) Ending) (ending : Ending) (os : List Order)
        → ((s : App d.Db) → SafeConsumer (WellEnded ending os) rest s)
        → (s : App d.Db) → Q o s
        → SafeConsumer (WellEnded ending (o ∷ os)) rest s
    rest-Safe o learns rest ending os safe s q =
        Safe-map Sound (LeavesOrders d laws capacity) (KeepsOrders d laws capacity)
          (λ s' e. WellEnded ending os s' e × Q o s') (WellEnded ending (o ∷ os))
          (λ s' e h. (h.0.0, (h.1, h.0.1))) rest s
          (Safe-with Sound (LeavesOrders d laws capacity) (KeepsOrders d laws capacity)
            (WellEnded ending os) (Q o)
            (λ s' t left. learns.stays s' t (Leaves-KeepsOrders d laws capacity s' t left))
            learns.stays rest s q (safe s))

    -- Whatever is read, the consumer's thread is safe, and ends as the loop does.
    pub consuming_thread-Safe :
        (reads : List (Result ReadError String))
        → All (λ o. Learns (Q o) o) (taken v reads)
        → (s : App d.Db)
        → SafeConsumer (WellEnded (ending_of reads) (taken v reads)) (consuming_thread d v reads) s
    unfolding consuming_thread taken
    consuming_thread-Safe [] = λ _ s. (refl, tt)
    consuming_thread-Safe (err canceled ∷ reads) = λ _ s. (refl, tt)
    consuming_thread-Safe (err deadline_exceeded ∷ reads) = λ _ s. (refl, tt)
    consuming_thread-Safe (err (read_failed _) ∷ reads) = consuming_thread-Safe reads
    consuming_thread-Safe (ok msg ∷ reads) = elim (Result-cases (v.unmarshal msg)) [
      | inr (e, p) ↦ rw (consuming_thread, taken, p) (consuming_thread-Safe reads)
      | inl (o, p) ↦ elim (Status-cases (v.validate o)) [
        | inr (e, q) ↦ rw (consuming_thread, taken, p, q) (consuming_thread-Safe reads)
        | inl q ↦
            rw (consuming_thread, taken, p, q)
              (λ learns.
                saving-Safe (WellEnded (ending_of reads) (o ∷ taken v reads)) (Q o) o learns.0
                  (consuming_thread d v reads)
                  (rest-Safe o learns.0 (consuming_thread d v reads) (ending_of reads)
                    (taken v reads) (consuming_thread-Safe reads learns.1)))
      ]
    ]

    Learns-stays :
        (os : List Order) (s t : App d.Db)
        → All (λ o. Learns (Q o) o) os
        → LeavesOrders d laws capacity s t
        → All (λ o. Q o s) os
        → All (λ o. Q o t) os
    Learns-stays [] s t learns left _ = tt
    Learns-stays (o ∷ os) s t (learns, others) left (q, qs) = (
      learns.stays s t (Leaves-KeepsOrders d laws capacity s t left) q,
      Learns-stays os s t others left qs,
    )

    pub WellEnded-stays :
        (ending : Ending) (os : List Order)
        → All (λ o. Learns (Q o) o) os
        → (s t : App d.Db) (e : Ending) → LeavesOrders d laws capacity s t
        → WellEnded ending os s e
        → WellEnded ending os t e
    WellEnded-stays ending os learns s t e left (same, qs) =
        (same, Learns-stays os s t learns left qs)

  pub nothing-Learns : (os : List Order) → All (Learns (λ _. Unit)) os
  nothing-Learns [] = tt
  nothing-Learns (o ∷ os) = (
    record {
      stays = λ _ _ _ _. tt;
      on_error = λ _ _ _. tt;
      on_there = λ _ _. tt;
      on_failed = λ _ _ _ _ _ _. tt;
      on_done = λ _ _ _. tt;
    },
    nothing-Learns os,
  )
