-- ===== src/Cache/Refine.antt =====
-- How a cache of cache.go stands for a list of orders, and a hit.
use gorder.Prelude.{
  ℕ, String, ◌≡◌, ◌≢◌, refl, sym, ap, ◌∙◌, Option, none, some, List, [], ◌∷◌, ◌++◌, arith, length,
  In, NotIn, Distinct, In-split, NotIn-In, In-append, In-append_left, In-append_right,
  Distinct-remove, NotIn-append, inl, inr, append_assoc, length-append, subst,
}
use mathlib.Core.Path.{ap₂}
use gorder.Prelude.Dict.{lookup, keys}
use gorder.Prelude.Int.{pos}
use gorder.Cache.{Cache, nil, move_to_head}
use gorder.Cache.Ring.{RingOf, move_to_head-RingOf}
use gorder.Cache.Lru.{
  find, drop_key, Stores, Stores-absent, Stores-split, Stores-append, drop_key-append_hit,
  find-append_hit, Stores-write,
}
use gorder.Metrics.{Metrics}
use gorder.Models.{Order}

-- The map's entries are the nodes of the list, each under its own key.
pub record IsIndex (elems : List (String × ℕ)) (key : ℕ → String) (nodes : List ℕ) : Type 0 where
  pub sound : (k : String) (a : ℕ) → lookup k elems ≡ some a → In a nodes × (key a ≡ k)
  pub complete : (a : ℕ) → In a nodes → lookup (key a) elems ≡ some a
  pub unique : Distinct (keys elems)
  pub counted : length elems ≡ length nodes

-- The gauge shows the number of entries.
abbrev pub IsGauged : Option Metrics → ℕ → Type 0
IsGauged none n = Unit
IsGauged (some m) n = m.orders_in_cache ≡ pos n

-- The cache stands for the orders, from the most recently used one.
pub record Refines (c : Cache) (os : List Order) : Type 0 where
  pub nodes : List ℕ
  pub ring : RingOf c nodes
  pub index : IsIndex c.elems c.key nodes
  pub stores : Stores c.key c.value nodes os
  pub gauged : IsGauged c.metrics (length nodes)

-- Without the node `n` of the list the others are distinct from it and carry other keys.
module _ (elems : List (String × ℕ)) (key : ℕ → String) (l : List ℕ) (n : ℕ) (r : List ℕ)
    (index : IsIndex elems key (l ++ n ∷ r)) (out : NotIn n (l ++ r)) where
  pub weaken : (a : ℕ) → In a (l ++ r) → In a (l ++ n ∷ r)
  weaken a i = elim (In-append a l r i) [
    | inl p ↦ In-append_left a l (n ∷ r) p
    | inr p ↦ In-append_right a l (n ∷ r) (inr p)
  ]

  pub key-ne_other : (a : ℕ) → In a (l ++ r) → key a ≢ key n
  key-ne_other a i e =
      let here = index.complete a (weaken a i) in
      let there = index.complete n (In-append_right n l (n ∷ r) (inl refl)) in
      NotIn-In n a (l ++ r) out i (some_inj (sym there ∙ ap (λ k. lookup k elems) (sym e) ∙ here))
    where
      some_inj : {x y : ℕ} → some x ≡ some y → x ≡ y
      some_inj p = cc

  pub to_front : (a : ℕ) → In a (l ++ n ∷ r) → In a (n ∷ l ++ r)
  to_front a i = elim (In-append a l (n ∷ r) i) [
    | inl p ↦ inr (In-append_left a l r p)
    | inr (inl p) ↦ inl p
    | inr (inr p) ↦ inr (In-append_right a l r p)
  ]

  pub from_front : (a : ℕ) → In a (n ∷ l ++ r) → In a (l ++ n ∷ r)
  from_front a (inl p) = In-append_right a l (n ∷ r) (inl p)
  from_front a (inr p) = weaken a p

  pub IsIndex-to_front : IsIndex elems key (n ∷ l ++ r)
  IsIndex-to_front = record {
    sound = λ k a e. let (i, p) = index.sound k a e in (to_front a i, p);
    complete = λ a i. index.complete a (from_front a i);
    unique = index.unique;
    counted = omega (arith, index.counted, length-append l (n ∷ r), length-append l r);
  }

-- The orders around that of the node `n`.
module _ (c : Cache) (l : List ℕ) (n : ℕ) (r : List ℕ) (os : List Order)
    (ring : RingOf c (l ++ n ∷ r)) (index : IsIndex c.elems c.key (l ++ n ∷ r))
    (stores : Stores c.key c.value (l ++ n ∷ r) os) where
  pub outside : NotIn n (l ++ r)
  outside =
      let whole : Distinct ((nil ∷ c.head ∷ l) ++ n ∷ (r ++ c.tail ∷ [])) =
        rw append_assoc at (ring.distinct) in
      let around = (Distinct-remove (nil ∷ c.head ∷ l) n (r ++ c.tail ∷ []) whole).1 in
      let (_, both) = NotIn-append n (nil ∷ c.head ∷ []) (l ++ (r ++ c.tail ∷ [])) around in
      (NotIn-append n (l ++ r) (c.tail ∷ []) (rw append_assoc both)).0

  module _ (value : ℕ → Option Order) (o : Order) (same : (a : ℕ) → a ≢ n → value a ≡ c.value a)
      (new : value n ≡ some o) (uid : o.order_uid ≡ c.key n) where
    pub promoted :
        (find (c.key n) os ≡ c.value n)
        × Stores c.key value (n ∷ l ++ r) (o ∷ drop_key (c.key n) os)
    promoted =
        let (ol, old, or, split, left, held, named, right) =
          Stores-split c.key c.value l n r os stores in
        let other = key-ne_other c.elems c.key l n r index outside in
        let (missed, kept) =
          Stores-absent c.key c.value (c.key n) l ol left
            (λ a i. other a (In-append_left a l r i)) in
        let (_, kept_right) =
          Stores-absent c.key c.value (c.key n) r or right
            (λ a i. other a (In-append_right a l r i)) in
        let found : find (c.key n) os ≡ some old =
          rw split (find-append_hit (c.key n) ol old or (sym named) missed) in
        let dropped : drop_key (c.key n) os ≡ ol ++ or =
          rw split
            (drop_key-append_hit (c.key n) ol old or (sym named) ∙ ap₂ ◌++◌ kept kept_right) in
        let rest =
          Stores-write c.key c.key c.value value n (λ a _. refl) same (l ++ r) (ol ++ or) outside
            (Stores-append c.key c.value l r ol or left right) in
        (found ∙ sym held, (new, sym uid, rw dropped rest))

-- A node of the list moves to the front, with a new value that is stored under the same key.
module _ (c : Cache) (os : List Order) (ref : Refines c os) (k : String) (n : ℕ)
    (hit : lookup k c.elems ≡ some n) where
  pub hit-In : In n ref.nodes × (c.key n ≡ k)
  hit-In = ref.index.sound k n hit

  pub promote :
      (value : ℕ → Option Order) (o : Order)
      → ((a : ℕ) → a ≢ n → value a ≡ c.value a)
      → value n ≡ some o
      → o.order_uid ≡ k
      → (nx : ℕ → ℕ) × (pv : ℕ → ℕ) × (move_to_head n (record c { value = value })
          ≡ some (record c { value = value; next = nx; prev = pv }))
        × Refines (record c { value = value; next = nx; prev = pv }) (o ∷ drop_key k os)
        × (find k os ≡ c.value n)
  promote value o same new uid =
      let (i, key) = hit-In in
      let (l, r, e) = In-split n ref.nodes i in
      let ring = subst (λ xs. RingOf c xs) e ref.ring in
      let index = subst (λ xs. IsIndex c.elems c.key xs) e ref.index in
      let stores = subst (λ xs. Stores c.key c.value xs os) e ref.stores in
      let (found, stored) =
        promoted c l n r os ring index stores value o same new (uid ∙ sym key) in
      let (nx, pv, moved, ring') = move_to_head-RingOf (record c { value = value }) l n r ring in
      (
        nx,
        pv,
        moved,
        record {
          nodes = n ∷ l ++ r;
          ring = ring';
          index = IsIndex-to_front c.elems c.key l n r index (outside c l n r os ring index stores);
          stores = subst (λ j. Stores c.key value (n ∷ l ++ r) (o ∷ drop_key j os)) key stored;
          gauged =
              subst (IsGauged c.metrics)
                (ap length e ∙ omega (arith, length-append l (n ∷ r), length-append l r))
                ref.gauged;
        },
        subst (λ j. find j os ≡ c.value n) key found,
      )
