-- ===== src/Concurrent/Lookups.antt =====
-- The pieces of the lookups of internal/handler/handler.go among the other threads: what each of their
-- steps leaves, and how they end.
use gorder.Prelude.{
  ℕ, String, ◌≡◌, ◌⊎◌, refl, sym, some, [], ◌∷◌, Bool-cases, Option-cases, inl, inr, str_eq, subst,
}
use text.Mathlib.TextEquality.{eq_iff}
use gorder.Prelude.Result.{Result, ok, err}
use gorder.Models.{Order}
use gorder.Http.{str, Effect, order}
use gorder.Cache.Lru.{find, touch, put}
use gorder.Cache.Trace.{get-Fits, set-Fits}
use gorder.Repository.Driver.{Driver, DriverLaws}
use gorder.Repository.Errors.{RepoError, is_no_rows}
use gorder.Repository.Interface.{repository, repository-ReadLaws}
use gorder.Repository.Tables.{Tables}
use gorder.Repository.Select.{get_order_by_uid, get_order_by_uid_and_user}
use gorder.Consumer.Coherence.{Backed}
use gorder.Coherence.{order-Backed, user_order-Backed}
use gorder.Coherence.Lookup.{All-touch, All-put}
use gorder.Handler.Access.{find-uid}
use gorder.Handler.Orders.{App, View}
use gorder.System.Handlers.{IsSound}
use gorder.Concurrent.{Thread, Written}
use gorder.Concurrent.Requests.{answering, hit_for, looking, reading, reading_for}
use gorder.Concurrent.Alone.{looked-get, kept-set}
use gorder.Concurrent.Rely.{Safe}

-- One reply: an order with the property, or a failure.
pub record IsAnswer (view : View) (P : Order → Type 0) (out : Written) : Type 0 where
  pub effect : Effect
  pub sent : out ≡ some (effect ∷ [])
  pub kind :
      ((o : Order) × (effect ≡ view.success (order o)) × P o)
      ⊎ ((code : ℕ) × (message : String) × (effect ≡ view.failure code message))

module _ (d : Driver) (laws : DriverLaws d) (capacity : ℕ) where
  -- The tables of the orders are as they were.
  abbrev pub LeavesOrders : App d.Db → App d.Db → Type 0
  LeavesOrders s t = d.tables t.db ≡ record (d.tables s.db) { users = (d.tables t.db).users }

  -- Each order that had its row has it still.
  abbrev pub KeepsOrders : App d.Db → App d.Db → Type 0
  KeepsOrders s t = (o : Order) → Backed (d.tables s.db) o → Backed (d.tables t.db) o

  abbrev pub SafeRequest : (Written → Type 0) → Thread (App d.Db) Written → App d.Db → Type 0
  SafeRequest P = Safe (IsSound d laws capacity) KeepsOrders LeavesOrders (λ _. P)

  pub Leaves-KeepsOrders : (s t : App d.Db) → LeavesOrders s t → KeepsOrders s t
  Leaves-KeepsOrders s t left o h =
      let t' : Tables = record (d.tables s.db) { users = (d.tables t.db).users } in
      let kept : Backed t' o = record {
        row = h.row;
        listed = h.listed;
        uid_lem = h.uid_lem;
        customer_lem = h.customer_lem;
      } in
      subst (λ (x : Tables). Backed x o) (sym left) kept

  pub looking-Safe :
      (Post : Written → Type 0) (uid : String) (hit : Order → Thread (App d.Db) Written)
      (miss : Thread (App d.Db) Written) (s : App d.Db)
      → ((o : Order) (s' : App d.Db) → o.order_uid ≡ uid → SafeRequest Post (hit o) s')
      → ((s' : App d.Db) → SafeRequest Post miss s')
      → SafeRequest Post (looking uid hit miss) s
  looking-Safe Post uid hit miss s on_hit on_miss = λ s' later sound.
      let (c, found, fits) = get-Fits capacity sound.fits uid in
      let sound' : IsSound d laws capacity (record s' { cache = c }) = record {
        orders = touch uid sound.orders;
        fits = fits;
        backed = All-touch (Backed (d.tables s'.db)) uid sound.orders sound.backed;
        consistent = sound.consistent;
      } in
      elim (Option-cases (find uid sound.orders)) [
        | inl none_found ↦
            rw (looked-get (repository d) uid s' _ found, none_found)
              (sound', refl, on_miss (record s' { cache = c }))
        | inr (o, held) ↦
            rw (looked-get (repository d) uid s' _ found, held)
              (sound', refl, on_hit o (record s' { cache = c }) (find-uid uid sound.orders o held))
      ]

  module _ (view : View) (P : Order → Type 0) where
    pub failure-IsAnswer :
        (code : ℕ) (message : String) → IsAnswer view P (some (view.failure code message ∷ []))
    failure-IsAnswer code message = record {
      effect = view.failure code message;
      sent = refl;
      kind = inr (code, message, refl);
    }

    pub order-IsAnswer : (o : Order) → P o → IsAnswer view P (some (view.success (order o) ∷ []))
    order-IsAnswer o p = record {
      effect = view.success (order o);
      sent = refl;
      kind = inl (o, refl, p);
    }

    answering-Safe :
        (missing : String) (result : Result RepoError Order) (s : App d.Db)
        → ((o : Order) → result ≡ ok o → Backed (d.tables s.db) o × P o)
        → SafeRequest (IsAnswer view P) (answering view missing result) s
    unfolding answering
    answering-Safe missing (err e) s h = elim (Bool-cases (is_no_rows e)) [
      | inl p ↦ rw (answering, p) (failure-IsAnswer 404 missing)
      | inr p ↦ rw (answering, p) (failure-IsAnswer 500 "Internal server error")
    ]
    answering-Safe missing (ok o) s h = λ s' later sound.
        let (c, stored, fits) = set-Fits capacity sound.fits o in
        let (backed, p) = h o refl in
        rw (kept-set (repository d) o s' (some c) stored) (
          record {
            orders = put capacity o sound.orders;
            fits = fits;
            backed =
                All-put (Backed (d.tables s'.db)) capacity o sound.orders (later o backed)
                  sound.backed;
            consistent = sound.consistent;
          },
          refl,
          order-IsAnswer o p,
        )

    pub hit_for-Safe :
        (name : String) (o : Order) (s : App d.Db)
        → (o.customer_id ≡ name → P o)
        → SafeRequest (IsAnswer view P) (hit_for view (some (str name)) o) s
    unfolding hit_for
    hit_for-Safe name o s p = elim (Bool-cases (str_eq o.customer_id name)) [
      | inl owned ↦ rw (hit_for, owned) (order-IsAnswer o (p ((eq_iff o.customer_id name).0 owned)))
      | inr foreign ↦
          rw (hit_for, foreign) (failure-IsAnswer 404 "Cached order doesn't belong to user")
    ]

    pub reading-Safe :
        (missing uid : String) (s : App d.Db)
        → ((o : Order) → o.order_uid ≡ uid → P o)
        → SafeRequest (IsAnswer view P) (reading (repository d) view missing uid) s
    unfolding reading
    reading-Safe missing uid s p = λ s' later sound. (
      sound,
      refl,
      answering-Safe missing (get_order_by_uid d uid s'.db) s' (λ o e. (
        order-Backed d laws s'.db uid o e,
        p o ((repository-ReadLaws d laws).uid_lem uid s'.db o e),
      )),
    )

    pub reading_for-Safe :
        (missing name uid : String) (s : App d.Db)
        → ((o : Order) → o.customer_id ≡ name → o.order_uid ≡ uid → P o)
        → SafeRequest
            (IsAnswer view P)
            (reading_for (repository d) view missing (some (str name)) uid)
            s
    unfolding reading_for
    reading_for-Safe missing name uid s p = λ s' later sound. (
      sound,
      refl,
      answering-Safe missing (get_order_by_uid_and_user d uid name s'.db) s' (λ o e.
          let (owned, named) = (repository-ReadLaws d laws).user_lem uid name s'.db o e in
          (user_order-Backed d laws s'.db uid o name e, p o owned named)),
    )
