-- ===== src/Cache/Store.antt =====
-- `Set` of cache.go against the list of orders that the cache stands for.
use gorder.Prelude.{
  ℕ, suc, String, ◌≡◌, ◌≢◌, ◌≤◌, ◌<◌, refl, ap, ◌∙◌, Option, none, some, List, [], ◌∷◌, ◌++◌,
  if_neg, arith, take, length, take_of_length-le, string_discrete, In, All, NotIn, NotIn-In,
  NotIn-append, inl, inr, Option-cases, subst,
}
use gorder.Prelude.Dict.{lookup, insert, lookup-insert, insert-Distinct, length-insert_new}
use gorder.Prelude.Int.{add_one}
use gorder.Cache.{Cache, nil, write, count, cached_one, new_node, add_node, set_order, set}
use gorder.Cache.Links.{Linked-write_next, Linked-write_prev}
use gorder.Cache.Ring.{IsRing, add_node-RingOf}
use gorder.Cache.Refine.{Refines, IsIndex, IsGauged, hit-In, promote}
use gorder.Cache.Read.{miss_lem, live}
use gorder.Cache.Evict.{evict-Refines}
use gorder.Cache.Lru.{Stores-write, drop_key, put, length-Stores}
use gorder.Metrics.{Metrics}
use gorder.Models.{Order}

NotIn-of_older : (f : ℕ) (xs : List ℕ) → All (λ a. a < f) xs → NotIn f xs
NotIn-of_older f [] _ = tt
NotIn-of_older f (x ∷ xs) (lt, h) = ((λ e. absurd (omega arith)), NotIn-of_older f xs h)

-- A new entry in the index.
module _ (elems : List (String × ℕ)) (key : ℕ → String) (nodes : List ℕ) (n : ℕ) (uid : String)
    (index : IsIndex elems key nodes) (out : NotIn n nodes) (new : lookup uid elems ≡ none) where
  abbrev key' : ℕ → String
  key' = write key n uid

  old_key : (a : ℕ) → In a nodes → key' a ≡ key a
  old_key a i = ground (arith, NotIn-In n a nodes out i)

  IsIndex-insert : IsIndex (insert uid n elems) key' (n ∷ nodes)
  IsIndex-insert = record {
    sound = sound;
    complete = complete;
    unique = insert-Distinct uid n elems index.unique;
    counted = length-insert_new uid n elems new ∙ ap suc index.counted;
  }
    where
      sound :
          (k : String) (a : ℕ)
          → lookup k (insert uid n elems) ≡ some a
          → In a (n ∷ nodes) × (key' a ≡ k)
      sound k a e = elim (string_discrete uid k) [
        | yes p ↦
            let same : a ≡ n = ground (arith, lookup-insert k uid n elems) in
            (inl same, ground arith)
        | no p ↦
            let (i, named) = index.sound k a (ground (arith, lookup-insert k uid n elems)) in
            (inr i, old_key a i ∙ named)
      ]

      complete : (a : ℕ) → In a (n ∷ nodes) → lookup (key' a) (insert uid n elems) ≡ some a
      complete a (inl e) = ground (arith, lookup-insert uid uid n elems)
      complete a (inr i) =
          let held = index.complete a i in
          let other : uid ≢ key a = λ p. ground (arith, ap (λ k. lookup k elems) p) in
          rw (old_key a i, lookup-insert (key a) uid n elems, if_neg _ other) held

IsGauged-cached :
    (ms : Option Metrics) (n : ℕ)
    → IsGauged ms n
    → IsGauged (elim ms [ none ↦ none | some m ↦ some (cached_one m) ]) (suc n)
IsGauged-cached none n h = h
IsGauged-cached (some m) n h = ap add_one h

-- The new node joins the list.
set_new :
    {c : Cache} {os : List Order} (o : Order)
    → Refines c os
    → lookup o.order_uid c.elems ≡ none
    → (c' : Cache) × (add_node c.fresh
          (record (new_node o c) { elems = insert o.order_uid c.fresh c.elems })
        ≡ some c')
      × Refines (count cached_one c') (o ∷ os)
      × (c'.capacity ≡ c.capacity)
set_new {c} {os} o ref new =
    let n = c.fresh in
    let start = record (new_node o c) { elems = insert o.order_uid n c.elems } in
    let unused = NotIn-of_older n (nil ∷ c.head ∷ ref.nodes ++ c.tail ∷ []) ref.ring.older in
    let out = (NotIn-append n ref.nodes (c.tail ∷ []) unused.1.1).0 in
    let ring : IsRing start.next start.prev c.head c.tail n ref.nodes = record {
      linked =
          Linked-write_next c.next start.prev n nil c.head (ref.nodes ++ c.tail ∷ []) unused.1 (
            Linked-write_prev c.next c.prev n nil c.head (ref.nodes ++ c.tail ∷ []) unused.1.1
              ref.ring.linked);
      distinct = ref.ring.distinct;
      older = ref.ring.older;
    } in
    let (nx, pv, added, ring') =
      add_node-RingOf start n n ref.nodes ring unused (omega arith) (omega arith) in
    (
      record start { next = nx; prev = pv },
      added,
      record {
        nodes = n ∷ ref.nodes;
        ring = ring';
        index = IsIndex-insert c.elems c.key ref.nodes n o.order_uid ref.index out new;
        stores = (
          ground arith,
          ground arith,
          Stores-write c.key start.key c.value start.value n (λ a h. ground arith)
              (λ a h. ground arith) ref.nodes os out ref.stores,
        );
        gauged = IsGauged-cached c.metrics (length ref.nodes) ref.gauged;
      },
      refl,
    )

-- `Set` meets no nil pointer. The order comes first, an older order with its UID is gone, and of
-- the rest the least recently used one is forgotten where the capacity is exceeded.
pub set-Refines :
    {c : Cache} {os : List Order} (o : Order)
    → Refines c os
    → length os ≤ c.capacity
    → (c' : Cache) × (set (some o) c ≡ some c')
      × Refines c' (put c.capacity o os)
      × (c'.capacity ≡ c.capacity)
unfolding set set_order put
set-Refines {c} {os} o ref room = elim (Option-cases (lookup o.order_uid c.elems)) [
  | inl miss ↦
      let (_, kept) = miss_lem ref o.order_uid miss in
      let (c', added, ref', same) = set_new o ref miss in
      let (c'', evicted, ref'', same') =
        evict-Refines (count cached_one c') (o ∷ os) ref' (omega arith) in
      (
        c'',
        rw (set_order, miss, added) evicted,
        subst (λ cap. Refines c'' (take cap (o ∷ drop_key o.order_uid os))) same (rw kept ref''),
        same' ∙ same,
      )
  | inr (n, hit) ↦
      let (i, key) = hit-In c os ref o.order_uid n hit in
      let value = write c.value n (some o) in
      let (nx, pv, moved, ref', found) =
        promote c os ref o.order_uid n hit value o (λ a h. ground arith) (ground arith) refl in
      let nonnil = live ref n i in
      let before = length-Stores c.key c.value ref.nodes os ref.stores in
      let after = length-Stores c.key value ref'.nodes (o ∷ drop_key o.order_uid os) ref'.stores in
      let fits =
        take_of_length-le c.capacity (o ∷ drop_key o.order_uid os)
          (omega (arith, ref.index.counted, ref'.index.counted)) in
      (
        record c { value = value; next = nx; prev = pv },
        ground (arith, hit, moved),
        rw fits ref',
        refl,
      )
]
