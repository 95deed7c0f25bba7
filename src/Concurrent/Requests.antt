-- ===== src/Concurrent/Requests.antt =====
-- The threads of the requests: the handlers of internal/handler/handler.go, cut at their accesses to
-- the cache and to the repository. A handler that makes one such access at most is one step.
use gorder.Prelude.{String, Option, none, some, [], ◌∷◌, Bool, true, false, if◌then◌else◌, str_eq}
use gorder.Prelude.Dict.{lookup}
use gorder.Prelude.Result.{Result, ok, err}
use gorder.Models.{Order}
use gorder.Http.{
  Claim, Ctx, Effect, error, order, json, html, Outcome, finished, panicked, Handler, state_of,
}
use gorder.Middleware.Jwt.{Jwt}
use gorder.Cache.{get, set}
use gorder.Repository.Errors.{RepoError, is_no_rows}
use gorder.Repository.Interface.{Interface}
use gorder.Handler.Orders.{
  App, View, api, page, as_string, get_order_by_uid_handle, get_user_order_by_uid_handle,
}
use gorder.Handler.Pages.{order_page_handle}
use gorder.Handler.Session.{Bcrypt, LoginRequest, register_handle}
use gorder.Handler.Silent.{IsSilent}
use gorder.Concurrent.{Thread, ended, atomic, acts, Written}

module _ {Db : Type 0} where
  -- `cache.Get`; `none` is a nil pointer met
  unfoldable pub looked : String → App Db → App Db × Option (Option Order × Bool)
  looked uid s = elim (get uid s.cache) [
    | none ↦ (s, none)
    | some (cache, value, exists) ↦ (record s { cache = cache }, some (value, exists))
  ]

  -- `cache.Set`; false where it met a nil pointer
  unfoldable pub kept : Order → App Db → App Db × Bool
  kept o s = elim (set (some o) s.cache) [
    | none ↦ (s, false)
    | some cache ↦ (record s { cache = cache }, true)
  ]

  abbrev pub writes : Effect → Thread (App Db) Written
  writes e = ended (some (e ∷ []))

  abbrev pub panics : Thread (App Db) Written
  panics = ended none

  abbrev pub written : Outcome (App Db) → Written
  written (finished s es) = some es
  written (panicked s) = none

  -- a handler in one step
  abbrev pub at_once : Handler (App Db) → Ctx → Thread (App Db) Written
  at_once h ctx = acts (λ s. state_of (h ctx s)) (λ s. ended (written (h ctx s)))

  unfoldable pub answering : View → String → Result RepoError Order → Thread (App Db) Written
  answering view missing (ok o) =
      atomic (kept o) (λ stored. if stored then writes (view.success (order o)) else panics)
  answering view missing (err e) =
      if is_no_rows e
      then writes (view.failure 404 missing)
      else writes (view.failure 500 "Internal server error")

  unfoldable pub hit_for : View → Option Claim → Order → Thread (App Db) Written
  hit_for view username o = elim (as_string username) [
    | none ↦ panics
    | some name ↦
        if str_eq o.customer_id name
        then writes (view.success (order o))
        else writes (view.failure 404 "Cached order doesn't belong to user")
  ]

  -- what follows the lookup in the cache
  abbrev pub found_by :
      (Order → Thread (App Db) Written)
      → Thread (App Db) Written
      → Option (Option Order × Bool)
      → Thread (App Db) Written
  found_by hit miss none = panics
  found_by hit miss (some (value, exists)) =
      if exists then (elim value [ none ↦ panics | some o ↦ hit o ]) else miss

  abbrev pub looking :
      String → (Order → Thread (App Db) Written) → Thread (App Db) Written → Thread (App Db) Written
  looking uid hit miss = atomic (looked uid) (found_by hit miss)

module _ {Db : Type 0} (r : Interface Db) where
  unfoldable pub reading : View → String → String → Thread (App Db) Written
  reading view missing uid = atomic (λ s. (s, r.get_order_by_uid uid s.db)) (answering view missing)

  unfoldable pub reading_for : View → String → Option Claim → String → Thread (App Db) Written
  reading_for view missing username uid = elim (as_string username) [
    | none ↦ panics
    | some name ↦
        atomic (λ s. (s, r.get_order_by_uid_and_user uid name s.db)) (answering view missing)
  ]

  unfoldable pub reading_by_role : Claim → Option Claim → String → Thread (App Db) Written
  reading_by_role role username uid = elim (as_string (some role)) [
    | none ↦ panics
    | some name ↦
        if str_eq name "admin"
        then reading (page "order.html") "Orders not found" uid
        else reading_for (page "order.html") "Orders not found" username uid
  ]

  unfoldable pub any_order_thread : Ctx → Thread (App Db) Written
  any_order_thread ctx = elim (lookup "user_id" ctx.values) [
    | none ↦ writes (json 401 (error "User is not logged"))
    | some _ ↦
        if str_eq ctx.uid ""
        then writes (json 400 (error "No UID received"))
        else looking ctx.uid (λ o. writes (json 200 (order o)))
            (reading api "Failed to find order" ctx.uid)
  ]

  unfoldable pub user_order_thread : Ctx → Thread (App Db) Written
  user_order_thread ctx = elim (lookup "user_id" ctx.values) [
    | none ↦ writes (json 401 (error "User is not logged"))
    | some _ ↦ elim (lookup "username" ctx.values) [
      | none ↦ writes (json 401 (error "User is not logged"))
      | some username ↦
          if str_eq ctx.uid ""
          then writes (json 400 (error "No UID received"))
          else looking ctx.uid (hit_for api (some username))
              (reading_for api "Failed to find order" (some username) ctx.uid)
    ]
  ]

  unfoldable pub order_page_thread : Ctx → Thread (App Db) Written
  order_page_thread ctx = elim (lookup "user_id" ctx.values) [
    | none ↦ writes (html 401 "error.html" (error "User is not logged"))
    | some _ ↦ elim (lookup "role" ctx.values) [
      | none ↦ writes (html 401 "error.html" (error "User has no role"))
      | some role ↦
          if str_eq ctx.uid ""
          then writes (html 400 "error.html" (error "No UID received"))
          else looking ctx.uid (hit_for (page "order.html") (lookup "username" ctx.values))
              (reading_by_role role (lookup "username" ctx.values) ctx.uid)
    ]
  ]

module _ {Db : Type 0} (r : Interface Db) (j : Jwt) (b : Bcrypt) (secret : String) where
  -- The requests by their handlers; `other` is a handler that leaves the database and the cache alone.
  pub data Request : Type 0 where
    any_order : Ctx → Request
    user_order : Ctx → Request
    order_page : Ctx → Request
    register : Result String LoginRequest → Ctx → Request
    other : (h : Handler (App Db)) → IsSilent h → Ctx → Request

  abbrev pub thread_of : Request → Thread (App Db) Written
  thread_of (any_order ctx) = any_order_thread r ctx
  thread_of (user_order ctx) = user_order_thread r ctx
  thread_of (order_page ctx) = order_page_thread r ctx
  thread_of (register body ctx) = at_once (register_handle r j b secret body) ctx
  thread_of (other h _ ctx) = at_once h ctx

  abbrev pub handled : Request → App Db → Outcome (App Db)
  handled (any_order ctx) = get_order_by_uid_handle r ctx
  handled (user_order ctx) = get_user_order_by_uid_handle r ctx
  handled (order_page ctx) = order_page_handle r ctx
  handled (register body ctx) = register_handle r j b secret body ctx
  handled (other h _ ctx) = h ctx
