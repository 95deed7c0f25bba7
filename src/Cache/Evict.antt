-- ===== src/Cache/Evict.antt =====
-- The eviction at the end of `Set` of cache.go, against the list of orders.
use gorder.Prelude.{
  ℕ, suc, String, ◌≡◌, ◌≢◌, ◌≤◌, ◌<◌, refl, sym, ap, ◌∙◌, Option, none, some, List, [], ◌∷◌, ◌++◌,
  arith, take, length, take_of_length-le, take-length-append, length-append, ltb, string_discrete,
  In, NotIn, inl, inr, true, false, subst, append-nil, In-append, In-append_left, In-append_right,
  if_neg, dec_le,
}
use gorder.Prelude.Dict.{
  lookup, delete as delete_key, lookup-delete, delete-Distinct, length-delete,
}
use mathlib.Core.Path.{ap₂}
use gorder.Prelude.Int.{sub_one}
use gorder.Cache.{Cache, count, dropped_one, evict}
use gorder.Cache.Ring.{RingOf, pop_tail-RingOf}
use gorder.Cache.Refine.{Refines, IsIndex, IsGauged, key-ne_other, outside}
use gorder.Cache.Lru.{Stores, Stores-split, length-Stores}
use gorder.Metrics.{Metrics}
use gorder.Models.{Order}

last_split : (xs : List ℕ) → 0 < length xs → (l : List ℕ) × (t : ℕ) × (xs ≡ l ++ t ∷ [])
last_split [] h = absurd (omega arith)
last_split (x ∷ []) _ = ([], x, refl)
last_split (x ∷ y ∷ xs) _ =
    let (l, t, e) = last_split (y ∷ xs) (omega arith) in (x ∷ l, t, ap (◌∷◌ x) e)

-- The index without the entry of the last node.
module _ (elems : List (String × ℕ)) (key : ℕ → String) (l : List ℕ) (t : ℕ)
    (index : IsIndex elems key (l ++ t ∷ [])) (out : NotIn t l) where
  other_key : (a : ℕ) → In a l → key t ≢ key a
  other_key a i e =
      key-ne_other elems key l t [] index (rw append-nil out) a (rw append-nil i) (sym e)

  IsIndex-delete : IsIndex (delete_key (key t) elems) key l
  IsIndex-delete = record {
    sound = λ k a e. sound k a e;
    complete = λ a i.
        let other = other_key a i in
        let held = index.complete a (In-append_left a l (t ∷ []) i) in
        rw (lookup-delete (key a) (key t) elems, if_neg _ other) held;
    unique = delete-Distinct (key t) elems index.unique;
    counted =
        let held = index.complete t (In-append_right t l (t ∷ []) (inl refl)) in
        omega (
          arith,
          index.counted,
          length-append l (t ∷ []),
          length-delete (key t) t elems index.unique held,
        );
  }
    where
      sound :
          (k : String) (a : ℕ) → lookup k (delete_key (key t) elems) ≡ some a → In a l × (key a ≡ k)
      sound k a e = elim (string_discrete (key t) k) [
        | yes p ↦ absurd (ground (arith, lookup-delete k (key t) elems))
        | no p ↦
            let (i, named) = index.sound k a (ground (arith, lookup-delete k (key t) elems)) in
            elim (In-append a l (t ∷ []) i) [
              | inl here ↦ (here, named)
              | inr (inl same) ↦ absurd (p (ap key (sym same) ∙ named))
              | inr (inr none_left) ↦ absurd none_left
            ]
      ]

IsGauged-dropped :
    (ms : Option Metrics) (n : ℕ)
    → IsGauged ms (suc n)
    → IsGauged (elim ms [ none ↦ none | some m ↦ some (dropped_one m) ]) n
IsGauged-dropped none n h = h
IsGauged-dropped (some m) n h = ap sub_one h

Stores-nil :
    (key : ℕ → String) (value : ℕ → Option Order) (os : List Order)
    → Stores key value [] os
    → os ≡ []
Stores-nil key value [] _ = refl
Stores-nil key value (o ∷ os) h = absurd h

-- One order too many: the last one goes.
evict_full :
    (c : Cache) (os : List Order)
    → Refines c os
    → length os ≡ suc c.capacity
    → (c' : Cache) × (evict c ≡ some c')
      × Refines c' (take c.capacity os)
      × (c'.capacity ≡ c.capacity)
unfolding evict
evict_full c os ref full =
    let size = length-Stores c.key c.value ref.nodes os ref.stores in
    let (l, t, e) = last_split ref.nodes (omega arith) in
    let ring = subst (λ xs. RingOf c xs) e ref.ring in
    let index = subst (λ xs. IsIndex c.elems c.key xs) e ref.index in
    let stores = subst (λ xs. Stores c.key c.value xs os) e ref.stores in
    let gauged = subst (λ xs. IsGauged c.metrics (length xs)) e ref.gauged in
    let (ol, o, or, split, left, _, _, right) = Stores-split c.key c.value l t [] os stores in
    let out : NotIn t l = rw append-nil at (outside c l t [] os ring index stores) in
    let (nx, pv, popped, ring') = pop_tail-RingOf c l t ring in
    let c' = record c { next = nx; prev = pv; elems = delete_key (c.key t) c.elems } in
    let over : ltb c.capacity (length c.elems) ≡ true = ground (arith, ref.index.counted) in
    let total : length ol ≡ c.capacity = omega (
      arith,
      ap length split,
      length-append ol (o ∷ or),
      ap length (Stores-nil c.key c.value or right),
    ) in
    let kept : take c.capacity os ≡ ol =
      ap₂ take (sym total) split ∙ take-length-append ol (o ∷ or) in
    (
      count dropped_one c',
      rw (over, popped),
      rw kept (record {
        nodes = l;
        ring = ring';
        index = IsIndex-delete c.elems c.key l t index out;
        stores = left;
        gauged =
            IsGauged-dropped c.metrics (length l)
              (subst (IsGauged c.metrics) (omega (arith, length-append l (t ∷ []))) gauged);
      }),
      refl,
    )

-- After the eviction the first `capacity` orders are left, and all of them if they fit.
pub evict-Refines :
    (c : Cache) (os : List Order)
    → Refines c os
    → length os ≤ suc c.capacity
    → (c' : Cache) × (evict c ≡ some c')
      × Refines c' (take c.capacity os)
      × (c'.capacity ≡ c.capacity)
unfolding evict
evict-Refines c os ref room =
    let size = length-Stores c.key c.value ref.nodes os ref.stores in
    elim (dec_le (length os) c.capacity) [
      | yes fits ↦
          let under : ltb c.capacity (length c.elems) ≡ false = ground (arith, ref.index.counted) in
          (c, rw under, rw (take_of_length-le c.capacity os fits) ref, refl)
      | no full ↦ evict_full c os ref (omega arith)
    ]
