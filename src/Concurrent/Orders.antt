-- ===== src/Concurrent/Orders.antt =====
-- The threads of the three requests for an order among the others.
use gorder.Prelude.{ℕ, String, ◌≡◌, ◌⊎◌, sym, some, Bool-cases, inl, inr, str_eq, subst}
use text.Mathlib.TextEquality.{eq_iff}
use gorder.Models.{Order}
use gorder.Http.{str, Ctx}
use gorder.Repository.Driver.{Driver, DriverLaws}
use gorder.Repository.Interface.{repository}
use gorder.Handler.Orders.{App, api, page}
use gorder.Handler.PageAccess.{IsSignedIn}
use gorder.Concurrent.Requests.{
  hit_for, looking, reading_by_role, any_order_thread, user_order_thread, order_page_thread,
}
use gorder.Concurrent.Lookups.{
  IsAnswer, SafeRequest, failure-IsAnswer, order-IsAnswer, hit_for-Safe, looking-Safe, reading-Safe,
  reading_for-Safe,
}

module _ (d : Driver) (laws : DriverLaws d) (capacity : ℕ) where
  module _ (ctx : Ctx) (role name : String) (who : IsSignedIn (repository d) capacity ctx role name)
      (s : App d.Db) where
    pub any_order-Safe :
        SafeRequest d laws capacity
          (IsAnswer api (λ o. o.order_uid ≡ ctx.uid))
          (any_order_thread (repository d) ctx)
          s
    unfolding any_order_thread
    any_order-Safe =
        let P : Order → Type 0 = λ o. o.order_uid ≡ ctx.uid in
        elim (Bool-cases (str_eq ctx.uid "")) [
          | inl none_given ↦
              rw (any_order_thread, who.user_id, none_given)
                (failure-IsAnswer d laws capacity api P 400 "No UID received")
          | inr given ↦
              rw (any_order_thread, who.user_id, given)
                (looking-Safe d laws capacity (IsAnswer api P) ctx.uid _ _ s
                  (λ o s' named. order-IsAnswer d laws capacity api P o named)
                  (λ s'.
                    reading-Safe d laws capacity api P "Failed to find order" ctx.uid s'
                      (λ o named. named)))
        ]

    pub user_order-Safe :
        SafeRequest d laws capacity
          (IsAnswer api (λ o. (o.customer_id ≡ name) × (o.order_uid ≡ ctx.uid)))
          (user_order_thread (repository d) ctx)
          s
    unfolding user_order_thread
    user_order-Safe =
        let P : Order → Type 0 = λ o. (o.customer_id ≡ name) × (o.order_uid ≡ ctx.uid) in
        elim (Bool-cases (str_eq ctx.uid "")) [
          | inl none_given ↦
              rw (user_order_thread, who.user_id, who.username, none_given)
                (failure-IsAnswer d laws capacity api P 400 "No UID received")
          | inr given ↦
              rw (user_order_thread, who.user_id, who.username, given)
                (looking-Safe d laws capacity (IsAnswer api P) ctx.uid _ _ s
                  (λ o s' named.
                    hit_for-Safe d laws capacity api P name o s' (λ owned. (owned, named)))
                  (λ s'.
                    reading_for-Safe d laws capacity api P "Failed to find order" name ctx.uid s'
                      (λ o owned named. (owned, named))))
        ]

    pub order_page-Safe :
        SafeRequest d laws capacity
          (IsAnswer
            (page "order.html")
            (λ o. ((role ≡ "admin") ⊎ (o.customer_id ≡ name)) × (o.order_uid ≡ ctx.uid)))
          (order_page_thread (repository d) ctx)
          s
    unfolding order_page_thread reading_by_role
    order_page-Safe =
        let P : Order → Type 0 =
          λ o. ((role ≡ "admin") ⊎ (o.customer_id ≡ name)) × (o.order_uid ≡ ctx.uid) in
        let view = page "order.html" in
        elim (Bool-cases (str_eq ctx.uid "")) [
          | inl none_given ↦
              rw (order_page_thread, who.user_id, who.role_lem, none_given)
                (failure-IsAnswer d laws capacity view P 400 "No UID received")
          | inr given ↦
              let looked_up : SafeRequest d laws capacity (IsAnswer view P)
                  (looking ctx.uid (hit_for view (some (str name)))
                    (reading_by_role (repository d) (str role) (some (str name)) ctx.uid))
                  s =
                looking-Safe d laws capacity (IsAnswer view P) ctx.uid _ _ s
                  (λ o s' named.
                    hit_for-Safe d laws capacity view P name o s' (λ owned. (inr (owned), named)))
                  (λ s'. elim (Bool-cases (str_eq role "admin")) [
                    | inl admin ↦
                        rw (reading_by_role, admin)
                          (reading-Safe d laws capacity view P "Orders not found" ctx.uid s'
                            (λ o named. (inl ((eq_iff role "admin").0 admin), named)))
                    | inr user ↦
                        rw (reading_by_role, user)
                          (reading_for-Safe d laws capacity view P "Orders not found" name ctx.uid
                            s' (λ o owned named. (inr (owned), named)))
                  ]) in
              rw (order_page_thread, who.user_id, who.role_lem, given)
                (subst
                  (λ u.
                    SafeRequest d laws capacity (IsAnswer view P)
                      (looking ctx.uid (hit_for view u)
                        (reading_by_role (repository d) (str role) u ctx.uid))
                      s)
                  (sym who.username) looked_up)
        ]
