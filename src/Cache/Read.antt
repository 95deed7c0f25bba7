-- ===== src/Cache/Read.antt =====
-- `Get` of cache.go against the list of orders that the cache stands for.
use gorder.Prelude.{
  ℕ, suc, String, ◌≡◌, ◌≢◌, refl, sym, ◌∙◌, Option, none, some, List, [], ◌∷◌, arith, length, In,
  NotIn-In, NotIn-append, inl, inr, Option-cases, Bool, true, false,
}
use gorder.Prelude.Dict.{lookup}
use gorder.Cache.{Cache, nil, count, get, size}
use gorder.Cache.Refine.{Refines, IsGauged, hit-In, promote}
use gorder.Cache.Lru.{find, touch, Stores-absent, Stores-at, length-Stores, drop_key}
use gorder.Metrics.{Metrics}
use gorder.Models.{Order}

abbrev pub is_some {ℓ} : {A : Type ℓ} → Option A → Bool
is_some none = false
is_some (some _) = true

-- A change of the metrics that leaves the gauge alone.
IsGauged-count :
    (f : Metrics → Metrics) (ms : Option Metrics) (n : ℕ)
    → ((m : Metrics) → (f m).orders_in_cache ≡ m.orders_in_cache)
    → IsGauged ms n
    → IsGauged (elim ms [ none ↦ none | some m ↦ some (f m) ]) n
IsGauged-count f none n _ h = h
IsGauged-count f (some m) n same h = same m ∙ h

module _ {c : Cache} {os : List Order} (ref : Refines c os) where
  pub Refines-count :
      (f : Metrics → Metrics)
      → ((m : Metrics) → (f m).orders_in_cache ≡ m.orders_in_cache)
      → Refines (count f c) os
  Refines-count f same = record {
    nodes = ref.nodes;
    ring = ref.ring;
    index = ref.index;
    stores = ref.stores;
    gauged = IsGauged-count f c.metrics (length ref.nodes) same ref.gauged;
  }

  pub miss_lem : (k : String) → lookup k c.elems ≡ none → (find k os ≡ none) × (drop_key k os ≡ os)
  miss_lem k miss =
      Stores-absent c.key c.value k ref.nodes os ref.stores
        (λ a i e. ground (arith, ref.index.complete a i))

  pub live : (n : ℕ) → In n ref.nodes → nil ≢ n
  live n i =
      let (_, rest) = ref.ring.distinct.0 in
      NotIn-In nil n ref.nodes (NotIn-append nil ref.nodes (c.tail ∷ []) rest).0 i

-- `Get` meets no nil pointer. It finds what the list of orders holds under the key, and makes a
-- hit the most recently used order; the capacity stays.
pub get-Refines :
    {c : Cache} {os : List Order} (k : String)
    → Refines c os
    → (c' : Cache) × (get k c ≡ some (c', find k os, is_some (find k os)))
      × Refines c' (touch k os)
      × (c'.capacity ≡ c.capacity)
unfolding get touch
get-Refines {c} {os} k ref = elim (Option-cases (lookup k c.elems)) [
  | inl miss ↦
      let (missed, _) = miss_lem ref k miss in
      (
        count (λ m. record m { cache_misses = suc m.cache_misses }) c,
        rw (get, miss, missed),
        rw (touch, missed)
            (Refines-count ref (λ m. record m { cache_misses = suc m.cache_misses }) (λ m. refl)),
        refl,
      )
  | inr (n, hit) ↦
      let (i, key) = hit-In c os ref k n hit in
      let (o, held, named) = Stores-at c.key c.value n ref.nodes os ref.stores i in
      let (nx, pv, moved, ref', found) =
        promote c os ref k n hit c.value o (λ a _. refl) held (sym named ∙ key) in
      let nonnil = live ref n i in
      let found' : find k os ≡ some o = found ∙ held in
      (
        count (λ m. record m { cache_hits = suc m.cache_hits }) (record c { next = nx; prev = pv }),
        ground (arith, hit, moved, found', held),
        rw (touch, found')
            (Refines-count ref' (λ m. record m { cache_hits = suc m.cache_hits }) (λ m. refl)),
        refl,
      )
]

-- `Size` is the number of orders that the cache stands for.
pub size_lem : {c : Cache} {os : List Order} → Refines c os → size c ≡ length os
unfolding size
size_lem {c} {os} ref =
    omega (arith, ref.index.counted, length-Stores c.key c.value ref.nodes os ref.stores)
