-- ===== src/Handler/PageAccess.antt =====
-- Which orders the order page shows.
use gorder.Prelude.{
  ℕ, zero, suc, String, ◌≡◌, ◌≢◌, ◌⊎◌, ◌<◌, refl, sym, ap, ◌∙◌, none, some, List, false, arith, inl,
  inr, str_eq, Bool-cases, string_discrete, if_pos,
}
use text.Mathlib.TextEquality.{eq_iff}
use gorder.Prelude.Dict.{lookup}
use gorder.Prelude.Result.{ok}
use gorder.Http.{Claim, str, Ctx, error, order, html, reply}
use gorder.Models.{Order}
use gorder.Cache.Lru.{find, touch, put}
use gorder.Cache.Trace.{Fits, set-Fits, get-Fits}
use gorder.Repository.Interface.{Interface, ReadLaws}
use gorder.Handler.Orders.{App, page, with_cached, answer, cached_for, stored_for, cache_and_reply}
use gorder.Handler.Pages.{order_page_handle, stored_for_role}
use gorder.Handler.Access.{
  IsAnswered, find-uid, failed_reply, answer-IsAnswered, cached_for-IsAnswered,
  with_cached-IsAnswered,
}

pub find-put_self :
    (capacity : ℕ) (o : Order) (os : List Order)
    → 0 < capacity
    → find o.order_uid (put capacity o os) ≡ some o
unfolding find put
find-put_self zero o os h = absurd (omega arith)
find-put_self (suc n) o os h = if_pos (string_discrete o.order_uid o.order_uid) refl _ _

find-touch_miss : (k : String) (os : List Order) → find k os ≡ none → find k (touch k os) ≡ none
unfolding touch
find-touch_miss k os e = rw (touch, e) e

module _ {Db : Type 0} (r : Interface Db) (capacity : ℕ) (ctx : Ctx) where
  -- A request that has passed `JWTAuth`, with texts for its role and its username.
  pub record IsSignedIn (role name : String) : Type 0 where
    pub id : Claim
    pub user_id : lookup "user_id" ctx.values ≡ some id
    pub role_lem : lookup "role" ctx.values ≡ some (str role)
    pub username : lookup "username" ctx.values ≡ some (str name)

  module _ (s : App Db) (os : List Order) (fits : Fits capacity s.cache os) where
    pub order_page_handle-owned :
        ReadLaws r
        → (role name : String) → IsSignedIn role name
        → IsAnswered capacity
            (page "order.html")
            (λ o. ((role ≡ "admin") ⊎ (o.customer_id ≡ name)) × (o.order_uid ≡ ctx.uid))
            s.db
            (order_page_handle r ctx s)
    unfolding order_page_handle stored_for_role stored_for
    order_page_handle-owned laws role name who =
        let P : Order → Type 0 =
          λ o. ((role ≡ "admin") ⊎ (o.customer_id ≡ name)) × (o.order_uid ≡ ctx.uid) in
        let view = page "order.html" in
        elim (Bool-cases (str_eq ctx.uid "")) [
          | inl no_uid ↦
              rw (order_page_handle, who.user_id, who.role_lem, no_uid)
                (failed_reply r capacity view P s os fits 400 "No UID received")
          | inr given ↦
              rw (order_page_handle, who.user_id, who.role_lem, given, who.username)
                (with_cached-IsAnswered r capacity view P s os fits ctx.uid
                  (cached_for r view (some (str name)))
                  (stored_for_role r (str role) (some (str name)) ctx.uid)
                  (λ c os' o fits' found.
                    cached_for-IsAnswered r capacity view P (record s { cache = c }) os' fits' name
                      o (λ owned. (inr owned, find-uid ctx.uid os o found)))
                  (λ c os' fits' none_found. elim (Bool-cases (str_eq role "admin")) [
                    | inl admin ↦
                        rw (stored_for_role, admin)
                          (answer-IsAnswered r capacity view P (record s { cache = c }) os' fits'
                            "Orders not found" (r.get_order_by_uid ctx.uid s.db)
                            (λ o e.
                              (inl ((eq_iff role "admin").0 admin), laws.uid_lem ctx.uid s.db o e)))
                    | inr other ↦
                        rw (stored_for_role, other)
                          (answer-IsAnswered r capacity view P (record s { cache = c }) os' fits'
                            "Orders not found" (r.get_order_by_uid_and_user ctx.uid name s.db)
                            (λ o e.
                              let (owned, named) = laws.user_lem ctx.uid name s.db o e in
                              (inr owned, named)))
                  ]))
        ]

    -- An admin who opens the page of another customer's order that is not cached sees the order,
    -- and the very next request for the same page answers 404: the first one has put the order
    -- into the cache, and a cached order is shown to its customer only, whatever the role.
    pub order_page_handle-admin_twice :
        (name : String) (o : Order)
        → IsSignedIn "admin" name
        → ctx.uid ≢ ""
        → find ctx.uid os ≡ none
        → r.get_order_by_uid ctx.uid s.db ≡ ok o
        → o.order_uid ≡ ctx.uid
        → o.customer_id ≢ name
        → 0 < capacity
        → (s1 s2 : App Db) × (order_page_handle r ctx s
            ≡ reply (html 200 "order.html" (order o)) s1)
          × (order_page_handle r ctx s1
              ≡ reply (html 404 "error.html" (error "Cached order doesn't belong to user")) s2)
    unfolding order_page_handle stored_for_role answer cached_for
    order_page_handle-admin_twice name o who given missed stored named foreign room =
        let (c1, looked, fits1) = get-Fits capacity fits ctx.uid in
        let (c2, put_in, fits2) = set-Fits capacity fits1 o in
        let (c3, looked', _) = get-Fits capacity fits2 ctx.uid in
        let cached : find ctx.uid (put capacity o (touch ctx.uid os)) ≡ some o =
          ap (λ k. find k (put capacity o (touch ctx.uid os))) (sym named)
          ∙ find-put_self capacity o (touch ctx.uid os) room in
        let nonempty : str_eq ctx.uid "" ≡ false = ground (arith, eq_iff ctx.uid "") in
        let not_his : str_eq o.customer_id name ≡ false =
          ground (arith, eq_iff o.customer_id name) in
        (
          record s { cache = c2 },
          record s { cache = c3 },
          rw (
            order_page_handle, who.user_id, who.role_lem, nonempty, with_cached, looked, missed,
            stored_for_role, stored, answer, cache_and_reply, put_in,
          ),
          rw (
            order_page_handle, who.user_id, who.role_lem, nonempty, with_cached, looked', cached,
            cached_for, who.username, not_his,
          ),
        )
