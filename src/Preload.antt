-- ===== src/Preload.antt =====
-- `Populate` of internal/cache/cache.go, which fills a new cache from the repository.
use gorder.Prelude.{
  ℕ, suc, ◌+◌, ◌≤◌, ◌<◌, String, ◌≡◌, ◌≢◌, refl, ap, Option, none, some, List, [], ◌∷◌, ◌>>=◌,
  arith, length, take_of_length-le, All, NotIn, Distinct, subst, inl, inr, Option-cases,
}
use gorder.Prelude.Int.{pos}
use gorder.Prelude.Result.{ok, err, Status, done, failed, Result-cases}
use gorder.Models.{Order}
use gorder.Metrics.{Metrics}
use gorder.Cache.{Cache, set, new_cache}
use gorder.Cache.Lru.{drop_key, put, length-Stores}
use gorder.Cache.Counter.{IsMeasured, set-IsMeasured}
use gorder.Cache.Trace.{Fits, set-Fits, new_cache-Refines}
use gorder.Repository.Errors.{RepoError}
use gorder.Repository.Interface.{Interface, ReadLaws}

module _ {Db : Type 0} (r : Interface Db) where
  -- the loop, with `loadCount`; `none` is a nil pointer met
  unfoldable pub load_orders : List String → Db → ℕ → Cache → Option (Cache × ℕ)
  load_orders [] db load_count c = some (c, load_count)
  load_orders (uid ∷ uids) db load_count c = elim (r.get_order_by_uid uid db) [
    | err _ ↦ load_orders uids db load_count c
    | ok order ↦ do c' ← set (some order) c; load_orders uids db (suc load_count) c'
  ]

  -- `c.metrics.OrdersInCache.Set`, which needs metrics
  unfoldable pub set_gauge : ℕ → Cache → Option Cache
  set_gauge n c = elim c.metrics [
    | none ↦ none
    | some m ↦ some (record c { metrics = some (record m { orders_in_cache = pos n }) })
  ]

  unfoldable pub populate : Db → Cache → Option (Cache × Status RepoError)
  populate db c = elim (r.get_recent_orders_uid c.capacity db) [
    | err e ↦ some (c, failed e)
    | ok uids ↦ do
      (c', load_count) ← load_orders uids db 0 c
      c'' ← set_gauge load_count c'
      some (c'', done)
  ]

  -- The orders that can be read, the last one first.
  unfoldable pub loaded : List String → Db → List Order → List Order
  loaded [] db os = os
  loaded (uid ∷ uids) db os = elim (r.get_order_by_uid uid db) [
    | err _ ↦ loaded uids db os
    | ok o ↦ loaded uids db (o ∷ os)
  ]

find_absent : (k : String) (os : List Order) → All (λ o. o.order_uid ≢ k) os → drop_key k os ≡ os
unfolding drop_key
find_absent k [] _ = refl
find_absent k (o ∷ os) (n, h) = ground (arith, find_absent k os h)

module _ {Db : Type 0} (r : Interface Db) (laws : ReadLaws r) (capacity : ℕ) where
  -- The orders of the cache are none of those that are still to be read.
  abbrev Apart : List String → List Order → Type 0
  Apart uids os = All (λ (o : Order). NotIn o.order_uid uids) os

  Apart-head :
      (uid : String) (uids : List String) (os : List Order)
      → Apart (uid ∷ uids) os
      → All (λ o. o.order_uid ≢ uid) os
  Apart-head uid uids [] _ = tt
  Apart-head uid uids (o ∷ os) ((n, _), h) = (n, Apart-head uid uids os h)

  Apart-tail :
      (uid : String) (uids : List String) (os : List Order) → Apart (uid ∷ uids) os → Apart uids os
  Apart-tail uid uids [] _ = tt
  Apart-tail uid uids (o ∷ os) ((_, n), h) = (n, Apart-tail uid uids os h)

  put_new :
      (o : Order) (os : List Order)
      → All (λ p. p.order_uid ≢ o.order_uid) os
      → length os < capacity
      → put capacity o os ≡ o ∷ os
  unfolding put
  put_new o os apart room =
      let kept = find_absent o.order_uid os apart in
      rw kept (take_of_length-le capacity (o ∷ os) (omega arith))

  load_orders-Fits :
      (uids : List String) (db : Db) (n : ℕ) (c : Cache) (os : List Order)
      → Fits capacity c os
      → n ≡ length os
      → length uids + length os ≤ capacity
      → Distinct uids
      → Apart uids os
      → IsMeasured c.metrics
      → (c' : Cache) × (load_orders r uids db n c ≡ some (c', length (loaded r uids db os)))
        × Fits capacity c' (loaded r uids db os)
        × IsMeasured c'.metrics
  unfolding load_orders loaded
  load_orders-Fits [] db n c os fits counted _ _ _ measured =
      (c, ap (λ k. some (c, k)) counted, fits, measured)
  load_orders-Fits (uid ∷ uids) db n c os fits counted room (out, distinct) apart measured =
      elim (Result-cases (r.get_order_by_uid uid db)) [
        | inr (e, p) ↦
            let (c', ran, fits', measured') =
              load_orders-Fits uids db n c os fits counted (omega arith) distinct
                (Apart-tail uid uids os apart) measured in
            (c', rw (load_orders, loaded, p) ran, rw (loaded, p) fits', measured')
        | inl (o, p) ↦
            let named : o.order_uid ≡ uid = laws.uid_lem uid db o p in
            let (d, returned, fits') = set-Fits capacity fits o in
            let first : put capacity o os ≡ o ∷ os =
              put_new o os (rw named (Apart-head uid uids os apart)) (omega arith) in
            let (c', ran, fits'', measured') =
              load_orders-Fits uids db (suc n) d (o ∷ os) (subst (Fits capacity d) first fits')
                (omega arith) (omega arith) distinct (rw named out, Apart-tail uid uids os apart)
                (set-IsMeasured o c d returned measured) in
            (c', rw (load_orders, loaded, p, returned) ran, rw (loaded, p) fits'', measured')
      ]

  set_gauge-Fits :
      (c : Cache) (os : List Order)
      → Fits capacity c os
      → IsMeasured c.metrics
      → (c' : Cache) × (set_gauge r (length os) c ≡ some c') × Fits capacity c' os
  unfolding set_gauge
  set_gauge-Fits c os fits measured = elim (Option-cases c.metrics) [
    | inl p ↦ absurd (rw p at measured)
    | inr (m, p) ↦
        let ref = fits.refines in
        (
          record c { metrics = some (record m { orders_in_cache = pos (length os) }) },
          rw (set_gauge, p),
          record {
            refines = record {
              nodes = ref.nodes;
              ring = ref.ring;
              index = ref.index;
              stores = ref.stores;
              gauged = ap pos (length-Stores c.key c.value ref.nodes os ref.stores);
            };
            limit = fits.limit;
            room = fits.room;
          },
        )
  ]

  -- `Populate` of a new cache with metrics, where the repository names distinct orders, at most as
  -- many as the cache has room for: the cache holds exactly the orders that could be read, within
  -- its capacity and with the right gauge, and the first UID (that of the newest order) is the one
  -- that was used least recently.
  pub populate-Fits :
      (db : Db) (ms : Metrics) (uids : List String)
      → ms.orders_in_cache ≡ pos 0
      → r.get_recent_orders_uid capacity db ≡ ok uids
      → Distinct uids
      → length uids ≤ capacity
      → (c : Cache) × (populate r db (new_cache capacity (some ms)) ≡ some (c, done))
        × Fits capacity c (loaded r uids db [])
  unfolding populate
  populate-Fits db ms uids gauge recent distinct room =
      let start : Fits capacity (new_cache capacity (some ms)) [] = record {
        refines = new_cache-Refines capacity (some ms) gauge;
        limit = refl;
        room = omega arith;
      } in
      let (c, ran, fits, measured) =
        load_orders-Fits uids db 0 (new_cache capacity (some ms)) [] start refl (omega arith)
          distinct tt tt in
      let (c', set, fits') = set_gauge-Fits c (loaded r uids db []) fits measured in
      (c', rw (populate, recent, ran, set), fits')
