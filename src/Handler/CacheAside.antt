-- ===== src/Handler/CacheAside.antt =====
-- The order endpoint for users when it succeeds: from the storage, and then from the cache.
use gorder.Prelude.{
  ℕ, String, ◌≡◌, ◌≢◌, ◌<◌, sym, ap, ◌∙◌, none, some, List, true, false, arith, str_eq,
}
use text.Mathlib.TextEquality.{eq_iff}
use gorder.Prelude.Dict.{lookup}
use gorder.Prelude.Result.{ok}
use gorder.Models.{Order}
use gorder.Http.{Claim, str, Ctx, order, json, reply}
use gorder.Cache.Lru.{find, put, touch}
use gorder.Cache.Trace.{Fits, get-Fits, set-Fits}
use gorder.Repository.Interface.{Interface, ReadLaws}
use gorder.Handler.Orders.{
  App, with_cached, cache_and_reply, answer, cached_for, stored_for, get_user_order_by_uid_handle,
}
use gorder.Handler.PageAccess.{find-put_self}

module _ {Db : Type 0} (r : Interface Db) (laws : ReadLaws r) (capacity : ℕ) (ctx : Ctx)
    (s : App Db) (os : List Order) (fits : Fits capacity s.cache os) where
  -- A signed-in user who asks for an order of his that is stored and not cached gets it, and gets
  -- the same order again at the next request, whatever the database has become: the second answer
  -- comes from the cache.
  pub get_user_order_by_uid_handle-again :
      (id : Claim) (name : String) (o : Order) (db : Db)
      → lookup "user_id" ctx.values ≡ some id
      → lookup "username" ctx.values ≡ some (str name)
      → ctx.uid ≢ ""
      → find ctx.uid os ≡ none
      → r.get_order_by_uid_and_user ctx.uid name s.db ≡ ok o
      → 0 < capacity
      → (s1 s2 : App Db) × (get_user_order_by_uid_handle r ctx s ≡ reply (json 200 (order o)) s1)
        × (get_user_order_by_uid_handle r ctx (record s1 { db = db })
            ≡ reply (json 200 (order o)) s2)
  unfolding get_user_order_by_uid_handle stored_for answer cached_for
  get_user_order_by_uid_handle-again id name o db user_id username given missed stored room =
      let (owned, named) = laws.user_lem ctx.uid name s.db o stored in
      let (c1, looked, fits1) = get-Fits capacity fits ctx.uid in
      let (c2, put_in, fits2) = set-Fits capacity fits1 o in
      let (c3, looked', _) = get-Fits capacity fits2 ctx.uid in
      let cached : find ctx.uid (put capacity o (touch ctx.uid os)) ≡ some o =
        ap (λ k. find k (put capacity o (touch ctx.uid os))) (sym named)
        ∙ find-put_self capacity o (touch ctx.uid os) room in
      let nonempty : str_eq ctx.uid "" ≡ false = ground (arith, eq_iff ctx.uid "") in
      let his : str_eq o.customer_id name ≡ true = (eq_iff o.customer_id name).1 owned in
      (
        record s { cache = c2 },
        record { db = db; cache = c3 },
        rw (
          get_user_order_by_uid_handle, user_id, username, nonempty, with_cached, looked, missed,
          stored_for, stored, answer, cache_and_reply, put_in,
        ),
        rw (
          get_user_order_by_uid_handle, user_id, username, nonempty, with_cached, looked', cached,
          cached_for, his,
        ),
      )
