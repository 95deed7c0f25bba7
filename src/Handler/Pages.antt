-- ===== src/Handler/Pages.antt =====
-- The HTML pages of internal/handler/handler.go.
use gorder.Prelude.{String, Option, none, some, List, if◌then◌else◌, str_eq}
use gorder.Prelude.Dict.{lookup}
use gorder.Prelude.Result.{Result, ok, err}
use gorder.Http.{Claim, error, order_uids, html, Outcome, panicked, Handler, reply}
use gorder.Repository.Errors.{RepoError}
use gorder.Repository.Interface.{Interface}
use gorder.Handler.Orders.{App, page, as_string, with_cached, answer, cached_for, stored_for}

module _ {Db : Type 0} (r : Interface Db) where
  abbrev pub orders_page : Result RepoError (List String) → App Db → Outcome (App Db)
  orders_page (ok uids) s = reply (html 200 "orders.html" (order_uids uids)) s
  orders_page (err _) s = reply (html 500 "error.html" (error "Failed to load orders")) s

  unfoldable pub all_orders_page_handle : Handler (App Db)
  all_orders_page_handle ctx s = elim (lookup "user_id" ctx.values) [
    | none ↦ reply (html 401 "error.html" (error "User is not logged")) s
    | some _ ↦ elim (lookup "role" ctx.values) [
      | none ↦ reply (html 401 "error.html" (error "User has no role")) s
      | some role ↦ elim (as_string (some role)) [
        | none ↦ panicked s
        | some name ↦
            if str_eq name "admin"
            then orders_page (r.get_all_orders_uid s.db) s
            else (elim (as_string (lookup "username" ctx.values)) [
              | none ↦ panicked s
              | some user ↦ orders_page (r.get_all_orders_uid_by_user user s.db) s
            ])
      ]
    ]
  ]

  -- the reading of `OrderPageHandle` where the cache has no order: the role decides
  unfoldable pub stored_for_role : Claim → Option Claim → String → App Db → Outcome (App Db)
  stored_for_role role username uid s = elim (as_string (some role)) [
    | none ↦ panicked s
    | some name ↦
        if str_eq name "admin"
        then answer r (page "order.html") "Orders not found" (r.get_order_by_uid uid s.db) s
        else stored_for r (page "order.html") "Orders not found" username uid s
  ]

  unfoldable pub order_page_handle : Handler (App Db)
  order_page_handle ctx s = elim (lookup "user_id" ctx.values) [
    | none ↦ reply (html 401 "error.html" (error "User is not logged")) s
    | some _ ↦ elim (lookup "role" ctx.values) [
      | none ↦ reply (html 401 "error.html" (error "User has no role")) s
      | some role ↦
          if str_eq ctx.uid ""
          then reply (html 400 "error.html" (error "No UID received")) s
          else with_cached r ctx.uid s
              (cached_for r (page "order.html") (lookup "username" ctx.values))
              (stored_for_role role (lookup "username" ctx.values) ctx.uid)
    ]
  ]
