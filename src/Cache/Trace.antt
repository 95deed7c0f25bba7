-- ===== src/Cache/Trace.antt =====
-- A fresh cache, and any sequence of calls on it. The mutex of cache.go makes the calls of several
-- goroutines such a sequence.
use gorder.Prelude.{
  ℕ, zero, suc, String, ◌≡◌, ◌≤◌, refl, ◌∙◌, Option, none, some, List, [], ◌∷◌, arith, take, length,
  ◌>>=◌, subst, Bool, Option-cases, inl, inr,
}
use gorder.Prelude.Dict.{lookup}
use gorder.Cache.{Cache, new_cache, set, get, size}
use gorder.Cache.Refine.{Refines, IsGauged}
use gorder.Cache.Read.{is_some, get-Refines, size_lem}
use gorder.Cache.Store.{set-Refines}
use gorder.Cache.Lru.{find, touch, put, drop_key}
use gorder.Metrics.{Metrics}
use gorder.Models.{Order}

-- A new cache stands for no order.
pub new_cache-Refines :
    (capacity : ℕ) (ms : Option Metrics) → IsGauged ms 0 → Refines (new_cache capacity ms) []
unfolding lookup
new_cache-Refines capacity ms gauged = record {
  nodes = [];
  ring = record { linked = (refl, refl, tt); distinct = omega arith; older = omega arith };
  index = record { sound = λ k a e. cc; complete = λ a i. absurd i; unique = tt; counted = refl };
  stores = tt;
  gauged = gauged;
}

pub data Call : Type 0 where
  set_call : Option Order → Call
  get_call : String → Call
  size_call : Call

pub data Reply : Type 0 where
  done : Reply
  found : Option Order → Bool → Reply
  count : ℕ → Reply

-- The calls one after another, on the cache of cache.go.
unfoldable pub run : List Call → Cache → Option (List Reply × Cache)
run [] c = some ([], c)
run (set_call order ∷ calls) c = do
  c' ← set order c
  (replies, last) ← run calls c'
  some (done ∷ replies, last)
run (get_call k ∷ calls) c = do
  (c', order, hit) ← get k c
  (replies, last) ← run calls c'
  some (found order hit ∷ replies, last)
run (size_call ∷ calls) c = do (replies, last) ← run calls c; some (count (size c) ∷ replies, last)

-- The same calls on the list of orders: the state after them, and the replies.
unfoldable pub after : ℕ → List Call → List Order → List Order
after capacity [] os = os
after capacity (set_call none ∷ calls) os = after capacity calls os
after capacity (set_call (some o) ∷ calls) os = after capacity calls (put capacity o os)
after capacity (get_call k ∷ calls) os = after capacity calls (touch k os)
after capacity (size_call ∷ calls) os = after capacity calls os

unfoldable pub replies : ℕ → List Call → List Order → List Reply
replies capacity [] os = []
replies capacity (set_call none ∷ calls) os = done ∷ replies capacity calls os
replies capacity (set_call (some o) ∷ calls) os = done ∷ replies capacity calls (put capacity o os)
replies capacity (get_call k ∷ calls) os =
    found (find k os) (is_some (find k os)) ∷ replies capacity calls (touch k os)
replies capacity (size_call ∷ calls) os = count (length os) ∷ replies capacity calls os

length-take-le {ℓ} : {A : Type ℓ} (n : ℕ) (xs : List A) → length (take n xs) ≤ n
length-take-le zero xs = omega arith
length-take-le (suc n) [] = omega arith
length-take-le (suc n) (x ∷ xs) = omega (arith, length-take-le n xs)

pub length-put-le :
    (capacity : ℕ) (o : Order) (os : List Order) → length (put capacity o os) ≤ capacity
unfolding put
length-put-le capacity o os = length-take-le capacity (o ∷ drop_key o.order_uid os)

length-drop_key-le : (k : String) (os : List Order) → length (drop_key k os) ≤ length os
unfolding drop_key
length-drop_key-le k [] = omega arith
length-drop_key-le k (x ∷ os) = ground (arith, length-drop_key-le k os)

length-drop_key_hit :
    (k : String) (os : List Order) (o : Order)
    → find k os ≡ some o
    → suc (length (drop_key k os)) ≤ length os
unfolding find drop_key
length-drop_key_hit k [] o e = cc
length-drop_key_hit k (x ∷ os) o e =
    ground (arith, length-drop_key_hit k os o, length-drop_key-le k os)

pub length-touch-le : (k : String) (os : List Order) → length (touch k os) ≤ length os
unfolding touch
length-touch-le k os = elim (Option-cases (find k os)) [
  | inl miss ↦ rw (touch, miss) (omega arith)
  | inr (o, hit) ↦ rw (touch, hit) (length-drop_key_hit k os o hit)
]

-- The cache stands for the orders, and they fit its capacity.
pub record Fits (capacity : ℕ) (c : Cache) (os : List Order) : Type 0 where
  pub refines : Refines c os
  pub limit : c.capacity ≡ capacity
  pub room : length os ≤ capacity

module _ (capacity : ℕ) {c : Cache} {os : List Order} (fits : Fits capacity c os) where
  pub set-Fits :
      (o : Order) → (c' : Cache) × (set (some o) c ≡ some c') × Fits capacity c' (put capacity o os)
  set-Fits o =
      let (c', returned, ref, same) = set-Refines o fits.refines (rw fits.limit fits.room) in
      (
        c',
        returned,
        record {
          refines = subst (λ cap. Refines c' (put cap o os)) fits.limit ref;
          limit = same ∙ fits.limit;
          room = length-put-le capacity o os;
        },
      )

  pub get-Fits :
      (k : String)
      → (c' : Cache) × (get k c ≡ some (c', find k os, is_some (find k os)))
        × Fits capacity c' (touch k os)
  get-Fits k =
      let (c', returned, ref, same) = get-Refines k fits.refines in
      (
        c',
        returned,
        record {
          refines = ref;
          limit = same ∙ fits.limit;
          room = omega (arith, length-touch-le k os, fits.room);
        },
      )

-- Whatever the calls, the cache meets no nil pointer, replies as the list of orders does, and
-- stands for the list that the calls leave, which never exceeds the capacity.
pub run-replies :
    (capacity : ℕ) (calls : List Call) (c : Cache) (os : List Order)
    → Fits capacity c os
    → (c' : Cache) × (run calls c ≡ some (replies capacity calls os, c'))
      × Fits capacity c' (after capacity calls os)
unfolding run replies after set
run-replies capacity [] c os fits = (c, refl, fits)
run-replies capacity (set_call none ∷ calls) c os fits =
    let (c', ran, fits') = run-replies capacity calls c os fits in (c', rw (set, ran), fits')
run-replies capacity (set_call (some o) ∷ calls) c os fits =
    let (c', returned, fits') = set-Fits capacity fits o in
    let (c'', ran, fits'') = run-replies capacity calls c' (put capacity o os) fits' in
    (c'', rw (returned, ran), fits'')
run-replies capacity (get_call k ∷ calls) c os fits =
    let (c', returned, fits') = get-Fits capacity fits k in
    let (c'', ran, fits'') = run-replies capacity calls c' (touch k os) fits' in
    (c'', rw (returned, ran), fits'')
run-replies capacity (size_call ∷ calls) c os fits =
    let (c', ran, fits') = run-replies capacity calls c os fits in
    (c', rw (ran, size_lem fits.refines), fits')
