-- ===== src/Concurrent/Anyone.antt =====
-- The requests for an order of internal/handler/handler.go, from whoever: a context without the guards'
-- values, or with values that are no texts, ends the request early or in a panic, and leaves the state
-- sound all the same.
use gorder.Prelude.{ℕ, String, Option, some, Option-cases, Bool-cases, inl, inr, str_eq}
use gorder.Prelude.Dict.{lookup}
use gorder.Models.{Order}
use gorder.Http.{Claim, str, Ctx}
use gorder.Repository.Driver.{Driver, DriverLaws}
use gorder.Repository.Interface.{repository}
use gorder.Handler.Orders.{App, View, api, page, as_string}
use gorder.System.Handlers.{IsSound}
use gorder.Concurrent.{Thread, Written}
use gorder.Concurrent.Lookups.{
  IsAnswer, LeavesOrders, KeepsOrders, SafeRequest, hit_for-Safe, looking-Safe, reading-Safe,
  reading_for-Safe,
}
use gorder.Concurrent.Rely.{Safe-map}
use gorder.Concurrent.Requests.{
  hit_for, reading, reading_for, reading_by_role, any_order_thread, user_order_thread,
  order_page_thread,
}

module _ (d : Driver) (laws : DriverLaws d) (capacity : ℕ) where
  -- safe, however it ends
  abbrev pub SafeAnyway : Thread (App d.Db) Written → App d.Db → Type 0
  SafeAnyway = SafeRequest d laws capacity (λ _. Unit)

  answered_anyway :
      (view : View) (t : Thread (App d.Db) Written) (s : App d.Db)
      → SafeRequest d laws capacity (IsAnswer view (λ _. Unit)) t s
      → SafeAnyway t s
  answered_anyway view =
      Safe-map (IsSound d laws capacity) (KeepsOrders d laws capacity)
        (LeavesOrders d laws capacity) (λ _. IsAnswer view (λ _. Unit)) (λ _ _. Unit) (λ _ _ _. tt)

  hit_for_anyway :
      (view : View) (username : Option Claim) (o : Order) (s : App d.Db)
      → SafeAnyway (hit_for view username o) s
  unfolding hit_for
  hit_for_anyway view username o s = elim (Option-cases (as_string username)) [
    | inl e ↦ rw (hit_for, e) tt
    | inr (name, e) ↦
        rw (hit_for, e)
          (answered_anyway view (hit_for view (some (str name)) o) s
            (hit_for-Safe d laws capacity view (λ _. Unit) name o s (λ _. tt)))
  ]

  reading_anyway :
      (view : View) (missing uid : String) (s : App d.Db)
      → SafeAnyway (reading (repository d) view missing uid) s
  reading_anyway view missing uid s =
      answered_anyway view (reading (repository d) view missing uid) s
        (reading-Safe d laws capacity view (λ _. Unit) missing uid s (λ _ _. tt))

  reading_for_anyway :
      (view : View) (missing uid : String) (username : Option Claim) (s : App d.Db)
      → SafeAnyway (reading_for (repository d) view missing username uid) s
  unfolding reading_for
  reading_for_anyway view missing uid username s = elim (Option-cases (as_string username)) [
    | inl e ↦ rw (reading_for, e) tt
    | inr (name, e) ↦
        rw (reading_for, e)
          (answered_anyway view (reading_for (repository d) view missing (some (str name)) uid) s
            (reading_for-Safe d laws capacity view (λ _. Unit) missing name uid s (λ _ _ _. tt)))
  ]

  reading_by_role_anyway :
      (role : Claim) (username : Option Claim) (uid : String) (s : App d.Db)
      → SafeAnyway (reading_by_role (repository d) role username uid) s
  unfolding reading_by_role
  reading_by_role_anyway role username uid s = elim (Option-cases (as_string (some role))) [
    | inl e ↦ rw (reading_by_role, e) tt
    | inr (name, e) ↦ elim (Bool-cases (str_eq name "admin")) [
      | inl p ↦
          rw (reading_by_role, e, p) (reading_anyway (page "order.html") "Orders not found" uid s)
      | inr p ↦
          rw (reading_by_role, e, p)
            (reading_for_anyway (page "order.html") "Orders not found" uid username s)
    ]
  ]

  module _ (ctx : Ctx) (s : App d.Db) where
    pub any_order_anyway : SafeAnyway (any_order_thread (repository d) ctx) s
    unfolding any_order_thread
    any_order_anyway = elim (Option-cases (lookup "user_id" ctx.values)) [
      | inl e ↦ rw (any_order_thread, e) tt
      | inr (id, e) ↦ elim (Bool-cases (str_eq ctx.uid "")) [
        | inl p ↦ rw (any_order_thread, e, p) tt
        | inr p ↦
            rw (any_order_thread, e, p)
              (looking-Safe d laws capacity (λ _. Unit) ctx.uid _ _ s (λ o s' _. tt)
                (reading_anyway api "Failed to find order" ctx.uid))
      ]
    ]

    pub user_order_anyway : SafeAnyway (user_order_thread (repository d) ctx) s
    unfolding user_order_thread
    user_order_anyway = elim (Option-cases (lookup "user_id" ctx.values)) [
      | inl e ↦ rw (user_order_thread, e) tt
      | inr (id, e) ↦ elim (Option-cases (lookup "username" ctx.values)) [
        | inl n ↦ rw (user_order_thread, e, n) tt
        | inr (name, n) ↦ elim (Bool-cases (str_eq ctx.uid "")) [
          | inl p ↦ rw (user_order_thread, e, n, p) tt
          | inr p ↦
              rw (user_order_thread, e, n, p)
                (looking-Safe d laws capacity (λ _. Unit) ctx.uid _ _ s
                  (λ o s' _. hit_for_anyway api (some name) o s')
                  (reading_for_anyway api "Failed to find order" ctx.uid (some name)))
        ]
      ]
    ]

    pub order_page_anyway : SafeAnyway (order_page_thread (repository d) ctx) s
    unfolding order_page_thread
    order_page_anyway =
        let username = lookup "username" ctx.values in
        elim (Option-cases (lookup "user_id" ctx.values)) [
          | inl e ↦ rw (order_page_thread, e) tt
          | inr (id, e) ↦ elim (Option-cases (lookup "role" ctx.values)) [
            | inl n ↦ rw (order_page_thread, e, n) tt
            | inr (role, n) ↦ elim (Bool-cases (str_eq ctx.uid "")) [
              | inl p ↦ rw (order_page_thread, e, n, p) tt
              | inr p ↦
                  rw (order_page_thread, e, n, p)
                    (looking-Safe d laws capacity (λ _. Unit) ctx.uid _ _ s
                      (λ o s' _. hit_for_anyway (page "order.html") username o s')
                      (reading_by_role_anyway role username ctx.uid))
            ]
          ]
        ]
