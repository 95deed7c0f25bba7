-- ===== src/Coherence.antt =====
-- The cache against the database under the order endpoints of internal/handler/handler.go.
pub mod Lookup
use gorder.Prelude.{
  ℕ, String, ◌≡◌, refl, ap, ◌∙◌, sym, Option, some, List, [], ◌∷◌, arith, All, Option-cases,
  Bool-cases, inl, inr, subst, str_eq, string_discrete,
}
use gorder.Prelude.Dict.{lookup}
use gorder.Prelude.Result.{Result, ok, err}
use gorder.Models.{Order}
use gorder.Http.{Claim, Ctx, order, json, Outcome, reply, state_of}
use gorder.Cache.{Cache}
use gorder.Cache.Lru.{find, touch, put, drop_key}
use gorder.Cache.Trace.{Fits, get-Fits, set-Fits}
use gorder.Repository.Driver.{Driver, DriverLaws}
use gorder.Repository.Errors.{RepoError, is_no_rows}
use gorder.Repository.Ownership.{get_order_by_uid-IsStored, get_order_by_uid_and_user-IsStored}
use gorder.Repository.Interface.{Interface, repository}
use gorder.Repository.Select.{get_order_by_uid, get_order_by_uid_and_user}
use gorder.Handler.Pages.{stored_for_role, order_page_handle}
use gorder.Handler.Orders.{
  App, View, api, page, as_string, with_cached, cache_and_reply, answer, cached_for, stored_for,
  get_order_by_uid_handle, get_user_order_by_uid_handle,
}
use gorder.Consumer.Coherence.{All-take, All-drop_key, Backed}
use gorder.Coherence.Lookup.{
  Keeps, unchanged, answer-Keeps, cached_for-Keeps, stored_for-Keeps, with_cached-Keeps,
}

module _ (d : Driver) (laws : DriverLaws d) (db : d.Db) (uid : String) (o : Order) where
  pub order-Backed : get_order_by_uid d uid db ≡ ok o → Backed (d.tables db) o
  order-Backed e =
      let (named, row) = get_order_by_uid-IsStored d laws uid db o e in
      record {
        row = row.row;
        listed = row.listed;
        uid_lem = row.uid_lem ∙ sym named;
        customer_lem = row.customer_lem;
      }

  pub user_order-Backed :
      (name : String) → get_order_by_uid_and_user d uid name db ≡ ok o → Backed (d.tables db) o
  user_order-Backed name e =
      let (owned, named, row) = get_order_by_uid_and_user-IsStored d laws uid name db o e in
      record {
        row = row.row;
        listed = row.listed;
        uid_lem = row.uid_lem ∙ sym named;
        customer_lem = row.customer_lem ∙ sym owned;
      }

module _ (d : Driver) (laws : DriverLaws d) (capacity : ℕ) (ctx : Ctx) (s : App d.Db)
    (os : List Order) (fits : Fits capacity s.cache os)
    (all : All (Backed (d.tables s.db)) os) where
  abbrev pub Coherent : Outcome (App d.Db) → Type 0
  Coherent = Keeps (repository d) capacity (Backed (d.tables s.db)) s.db

  as_it_was : (out : Outcome (App d.Db)) → state_of out ≡ s → Coherent out
  as_it_was = unchanged (repository d) capacity (Backed (d.tables s.db)) s os fits all

  -- The lookup of the three handlers that answer with one order; `view` is their way to answer.
  user_lookup-Keeps :
      (view : View) (missing : String) (username : Option Claim)
      → Coherent (
          with_cached
            (repository d)
            ctx.uid
            s
            (cached_for (repository d) view username)
            (stored_for (repository d) view missing username ctx.uid))
  user_lookup-Keeps view missing username =
      let r = repository d in
      let Q = Backed (d.tables s.db) in
      with_cached-Keeps r capacity Q s os fits all ctx.uid (cached_for r view username)
        (stored_for r view missing username ctx.uid)
        (λ c os' o fits' all'.
          cached_for-Keeps r capacity Q (record s { cache = c }) os' fits' all' view username o)
        (λ c os' fits' all'.
          stored_for-Keeps r capacity Q (record s { cache = c }) os' fits' all' view missing
            username ctx.uid (λ name o e. user_order-Backed d laws s.db ctx.uid o name e))

  -- Over the repository, `GetUserOrderByUIDHandle` keeps the cache coherent, whatever the request's
  -- context holds: the database is as it was, and the cache, sound and within its capacity, still
  -- holds only orders that stand in the orders table with their customers.
  pub get_user_order_by_uid_handle-Keeps :
      Coherent (get_user_order_by_uid_handle (repository d) ctx s)
  unfolding get_user_order_by_uid_handle
  get_user_order_by_uid_handle-Keeps = elim (Option-cases (lookup "user_id" ctx.values)) [
    | inl e ↦ as_it_was _ (rw (get_user_order_by_uid_handle, e))
    | inr (id, e) ↦ elim (Option-cases (lookup "username" ctx.values)) [
      | inl n ↦ as_it_was _ (rw (get_user_order_by_uid_handle, e, n))
      | inr (username, n) ↦ elim (Bool-cases (str_eq ctx.uid "")) [
        | inl no_uid ↦ as_it_was _ (rw (get_user_order_by_uid_handle, e, n, no_uid))
        | inr given ↦
            rw (get_user_order_by_uid_handle, e, n, given)
              (user_lookup-Keeps api "Failed to find order" (some username))
      ]
    ]
  ]

  -- the lookup of an order whoever its customer is
  any_order-Keeps :
      (view : View) (missing : String) (c : Cache) (os' : List Order)
      → Fits capacity c os'
      → All (Backed (d.tables s.db)) os'
      → Coherent (
          answer
            (repository d)
            view
            missing
            (get_order_by_uid d ctx.uid s.db)
            (record s { cache = c }))
  any_order-Keeps view missing c os' fits' all' =
      answer-Keeps (repository d) capacity (Backed (d.tables s.db)) (record s { cache = c }) os'
        fits' all' view missing (get_order_by_uid d ctx.uid s.db)
        (λ o e. order-Backed d laws s.db ctx.uid o e)

  -- Over the repository, `GetOrderByUIDHandle` keeps the cache coherent, whatever the request's
  -- context holds: the database is as it was, and the cache, sound and within its capacity, still
  -- holds only orders that stand in the orders table with their customers.
  pub get_order_by_uid_handle-Keeps : Coherent (get_order_by_uid_handle (repository d) ctx s)
  unfolding get_order_by_uid_handle
  get_order_by_uid_handle-Keeps =
      let r = repository d in
      let Q = Backed (d.tables s.db) in
      elim (Option-cases (lookup "user_id" ctx.values)) [
        | inl e ↦ as_it_was _ (rw (get_order_by_uid_handle, e))
        | inr (id, e) ↦ elim (Bool-cases (str_eq ctx.uid "")) [
          | inl no_uid ↦ as_it_was _ (rw (get_order_by_uid_handle, e, no_uid))
          | inr given ↦
              rw (get_order_by_uid_handle, e, given)
                (with_cached-Keeps r capacity Q s os fits all ctx.uid
                  (λ o. reply (json 200 (order o)))
                  (λ s'. answer r api "Failed to find order" (r.get_order_by_uid ctx.uid s'.db) s')
                  (λ c os' o fits' all'.
                    unchanged r capacity Q (record s { cache = c }) os' fits' all' _ refl)
                  (λ c os' fits' all'. any_order-Keeps api "Failed to find order" c os' fits' all'))
        ]
      ]

  stored_for_role-Keeps :
      (role : Claim) (username : Option Claim) (c : Cache) (os' : List Order)
      → Fits capacity c os'
      → All (Backed (d.tables s.db)) os'
      → Coherent (stored_for_role (repository d) role username ctx.uid (record s { cache = c }))
  unfolding stored_for_role
  stored_for_role-Keeps role username c os' fits' all' =
      let r = repository d in
      let Q = Backed (d.tables s.db) in
      elim (Option-cases (as_string (some role))) [
        | inl e ↦
            rw (stored_for_role, e)
              (unchanged r capacity Q (record s { cache = c }) os' fits' all' _ refl)
        | inr (name, e) ↦ elim (Bool-cases (str_eq name "admin")) [
          | inl admin ↦
              rw (stored_for_role, e, admin)
                (any_order-Keeps (page "order.html") "Orders not found" c os' fits' all')
          | inr other ↦
              rw (stored_for_role, e, other)
                (stored_for-Keeps r capacity Q (record s { cache = c }) os' fits' all'
                  (page "order.html") "Orders not found" username ctx.uid
                  (λ user o q. user_order-Backed d laws s.db ctx.uid o user q))
        ]
      ]

  -- The same of `OrderPageHandle`.
  pub order_page_handle-Keeps : Coherent (order_page_handle (repository d) ctx s)
  unfolding order_page_handle
  order_page_handle-Keeps =
      let r = repository d in
      let Q = Backed (d.tables s.db) in
      let username = lookup "username" ctx.values in
      elim (Option-cases (lookup "user_id" ctx.values)) [
        | inl e ↦ as_it_was _ (rw (order_page_handle, e))
        | inr (id, e) ↦ elim (Option-cases (lookup "role" ctx.values)) [
          | inl n ↦ as_it_was _ (rw (order_page_handle, e, n))
          | inr (role, n) ↦ elim (Bool-cases (str_eq ctx.uid "")) [
            | inl no_uid ↦ as_it_was _ (rw (order_page_handle, e, n, no_uid))
            | inr given ↦
                rw (order_page_handle, e, n, given)
                  (with_cached-Keeps r capacity Q s os fits all ctx.uid
                    (cached_for r (page "order.html") username)
                    (stored_for_role r role username ctx.uid)
                    (λ c os' o fits' all'.
                      cached_for-Keeps r capacity Q (record s { cache = c }) os' fits' all'
                        (page "order.html") username o)
                    (λ c os' fits' all'. stored_for_role-Keeps role username c os' fits' all'))
          ]
        ]
      ]
