-- ===== src/Handler/Orders.antt =====
-- The order endpoints of internal/handler/handler.go, over the storage's interface and the cache.
-- The check of `errors.Is(err, pgx.ErrNoRows)` is `is_no_rows`; log lines are left out.
use gorder.Prelude.{ℕ, String, Option, none, some, List, if◌then◌else◌, str_eq}
use gorder.Prelude.Dict.{lookup}
use gorder.Prelude.Result.{Result, ok, err}
use gorder.Http.{
  Claim, str, Body, error, order, order_uids, Effect, json, html, Outcome, panicked, Handler, reply,
}
use gorder.Models.{Order}
use gorder.Cache.{Cache, get, set}
use gorder.Repository.Errors.{RepoError, is_no_rows}
use gorder.Repository.Interface.{Interface}

-- What the handlers share: the database and the cache.
pub record App (Db : Type 0) : Type 0 where
  pub db : Db
  pub cache : Cache

-- `c.JSON`, and `c.HTML` with the page for errors: the two ways to answer.
pub record View : Type 0 where
  pub failure : ℕ → String → Effect
  pub success : Body → Effect

abbrev pub api : View
api = record { failure = λ code message. json code (error message); success = json 200 }

abbrev pub page : String → View
page name = record {
  failure = λ code message. html code "error.html" (error message);
  success = html 200 name;
}

-- `x.(string)`: a panic unless the value is a string.
abbrev pub as_string : Option Claim → Option String
as_string none = none
as_string (some (str v)) = some v
as_string (some _) = none

module _ {Db : Type 0} (r : Interface Db) where
  -- `h.cache.Get`, with what is done on a hit and on a miss; the cache is changed by both
  abbrev pub with_cached :
      String
      → App Db
      → (Order → App Db → Outcome (App Db))
      → (App Db → Outcome (App Db))
      → Outcome (App Db)
  with_cached uid s hit miss = elim (get uid s.cache) [
    | none ↦ panicked s
    | some (cache, value, exists) ↦
        if exists
        then (elim value [
          | none ↦ panicked (record s { cache = cache })
          | some o ↦ hit o (record s { cache = cache })
        ])
        else miss (record s { cache = cache })
  ]

  -- `h.cache.Set(order)` and the answer
  abbrev pub cache_and_reply : Effect → Order → App Db → Outcome (App Db)
  cache_and_reply e o s = elim (set (some o) s.cache) [
    | none ↦ panicked s
    | some cache ↦ reply e (record s { cache = cache })
  ]

  -- the answer to what the storage returned
  unfoldable pub answer : View → String → Result RepoError Order → App Db → Outcome (App Db)
  answer view missing (ok o) s = cache_and_reply (view.success (order o)) o s
  answer view missing (err e) s =
      if is_no_rows e
      then reply (view.failure 404 missing) s
      else reply (view.failure 500 "Internal server error") s

  unfoldable pub get_order_by_uid_handle : Handler (App Db)
  get_order_by_uid_handle ctx s = elim (lookup "user_id" ctx.values) [
    | none ↦ reply (json 401 (error "User is not logged")) s
    | some _ ↦
        if str_eq ctx.uid ""
        then reply (json 400 (error "No UID received")) s
        else with_cached ctx.uid s (λ o. reply (json 200 (order o)))
            (λ s'. answer api "Failed to find order" (r.get_order_by_uid ctx.uid s'.db) s')
  ]

  -- a cached order goes to its customer only
  unfoldable pub cached_for : View → Option Claim → Order → App Db → Outcome (App Db)
  cached_for view username o s = elim (as_string username) [
    | none ↦ panicked s
    | some name ↦
        if str_eq o.customer_id name
        then reply (view.success (order o)) s
        else reply (view.failure 404 "Cached order doesn't belong to user") s
  ]

  unfoldable pub stored_for : View → String → Option Claim → String → App Db → Outcome (App Db)
  stored_for view missing username uid s = elim (as_string username) [
    | none ↦ panicked s
    | some name ↦ answer view missing (r.get_order_by_uid_and_user uid name s.db) s
  ]

  unfoldable pub get_user_order_by_uid_handle : Handler (App Db)
  get_user_order_by_uid_handle ctx s = elim (lookup "user_id" ctx.values) [
    | none ↦ reply (json 401 (error "User is not logged")) s
    | some _ ↦ elim (lookup "username" ctx.values) [
      | none ↦ reply (json 401 (error "User is not logged")) s
      | some username ↦
          if str_eq ctx.uid ""
          then reply (json 400 (error "No UID received")) s
          else with_cached ctx.uid s (cached_for api (some username))
              (stored_for api "Failed to find order" (some username) ctx.uid)
    ]
  ]

  unfoldable pub list_reply :
      (String → Effect)
      → (List String → Effect)
      → Result RepoError (List String)
      → App Db
      → Outcome (App Db)
  list_reply failure success (ok uids) s = reply (success uids) s
  list_reply failure success (err _) s = reply (failure "Failed to get order UIDs") s

  abbrev pub uids_api : Result RepoError (List String) → App Db → Outcome (App Db)
  uids_api = list_reply (λ m. json 500 (error m)) (λ uids. json 200 (order_uids uids))

  unfoldable pub get_all_orders_uid_handle : Handler (App Db)
  get_all_orders_uid_handle ctx s = elim (lookup "user_id" ctx.values) [
    | none ↦ reply (json 401 (error "User is not logged")) s
    | some _ ↦ uids_api (r.get_all_orders_uid s.db) s
  ]

  unfoldable pub get_all_user_orders_uid_handle : Handler (App Db)
  get_all_user_orders_uid_handle ctx s = elim (lookup "user_id" ctx.values) [
    | none ↦ reply (json 401 (error "User is not logged")) s
    | some _ ↦ elim (as_string (lookup "username" ctx.values)) [
      | none ↦ panicked s
      | some name ↦ uids_api (r.get_all_orders_uid_by_user name s.db) s
    ]
  ]
