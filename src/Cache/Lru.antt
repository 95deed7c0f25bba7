-- ===== src/Cache/Lru.antt =====
-- What an LRU cache promises: a list of orders, the most recently used one first, with no pointers
-- and no index.
use gorder.Prelude.{
  ℕ, String, ◌≡◌, ◌≢◌, refl, ap, Option, none, some, List, [], ◌∷◌, ◌++◌, ite, arith, take, length,
  string_discrete, In, NotIn, inl, inr, sym, ◌∙◌,
}
use gorder.Models.{Order}

unfoldable pub find : String → List Order → Option Order
find k [] = none
find k (o ∷ os) = ite (string_discrete o.order_uid k) (some o) (find k os)

unfoldable pub drop_key : String → List Order → List Order
drop_key k [] = []
drop_key k (o ∷ os) =
    let rest = drop_key k os in ite (string_discrete o.order_uid k) rest (o ∷ rest)

-- a hit becomes the most recently used order
unfoldable pub touch : String → List Order → List Order
touch k os = elim (find k os) [ none ↦ os | some o ↦ o ∷ drop_key k os ]

-- the new order comes first, and what does not fit is forgotten from the end
unfoldable pub put : ℕ → Order → List Order → List Order
put capacity o os = take capacity (o ∷ drop_key o.order_uid os)

-- The nodes hold these orders, each under its own UID.
abbrev pub Stores : (ℕ → String) → (ℕ → Option Order) → List ℕ → List Order → Type 0
Stores key value [] [] = Unit
Stores key value [] (o ∷ os) = ⊥
Stores key value (a ∷ xs) [] = ⊥
Stores key value (a ∷ xs) (o ∷ os) =
    (value a ≡ some o) × (key a ≡ o.order_uid) × Stores key value xs os

pub drop_key-append_hit :
    (k : String) (l : List Order) (o : Order) (r : List Order)
    → o.order_uid ≡ k
    → drop_key k (l ++ o ∷ r) ≡ drop_key k l ++ drop_key k r
unfolding drop_key
drop_key-append_hit k [] o r e = ground arith
drop_key-append_hit k (x ∷ l) o r e = ground (arith, drop_key-append_hit k l o r e)

pub find-append_hit :
    (k : String) (l : List Order) (o : Order) (r : List Order)
    → o.order_uid ≡ k
    → find k l ≡ none
    → find k (l ++ o ∷ r) ≡ some o
unfolding find
find-append_hit k [] o r e _ = ground arith
find-append_hit k (x ∷ l) o r e h = ground (arith, find-append_hit k l o r e)

module _ (key : ℕ → String) (value : ℕ → Option Order) where
  pub length-Stores :
      (xs : List ℕ) (os : List Order) → Stores key value xs os → length os ≡ length xs
  length-Stores [] [] _ = refl
  length-Stores [] (o ∷ os) h = absurd h
  length-Stores (a ∷ xs) [] h = absurd h
  length-Stores (a ∷ xs) (o ∷ os) h = omega (arith, length-Stores xs os h.2)

  -- Where no node has the key, no order has it as its UID.
  pub Stores-absent :
      (k : String) (xs : List ℕ) (os : List Order)
      → Stores key value xs os
      → ((a : ℕ) → In a xs → key a ≢ k)
      → (find k os ≡ none) × (drop_key k os ≡ os)
  unfolding find drop_key
  Stores-absent k [] [] _ _ = (refl, refl)
  Stores-absent k [] (o ∷ os) h _ = absurd h
  Stores-absent k (a ∷ xs) [] h _ = absurd h
  Stores-absent k (a ∷ xs) (o ∷ os) (v, e, h) out =
      let (missed, kept) = Stores-absent k xs os h (λ b i. out b (inr i)) in
      let other : key a ≢ k = out a (inl refl) in (ground arith, ground arith)

  -- The orders split where the nodes do.
  pub Stores-split :
      (l : List ℕ) (n : ℕ) (r : List ℕ) (os : List Order)
      → Stores key value (l ++ n ∷ r) os
      → (ol : List Order) × (o : Order) × (or : List Order) × (os ≡ ol ++ o ∷ or)
        × Stores key value l ol
        × (value n ≡ some o)
        × (key n ≡ o.order_uid)
        × Stores key value r or
  Stores-split [] n r [] h = absurd h
  Stores-split [] n r (o ∷ os) (v, e, h) = ([], o, os, refl, tt, v, e, h)
  Stores-split (a ∷ l) n r [] h = absurd h
  Stores-split (a ∷ l) n r (x ∷ os) (v, e, h) =
      let (ol, o, or, split, left, v', e', right) = Stores-split l n r os h in
      (x ∷ ol, o, or, ap (◌∷◌ x) split, (v, e, left), v', e', right)

  pub Stores-append :
      (l r : List ℕ) (ol or : List Order)
      → Stores key value l ol
      → Stores key value r or
      → Stores key value (l ++ r) (ol ++ or)
  Stores-append [] r [] or _ k = k
  Stores-append [] r (o ∷ ol) or h _ = absurd h
  Stores-append (a ∷ l) r [] or h _ = absurd h
  Stores-append (a ∷ l) r (o ∷ ol) or (v, e, h) k = (v, e, Stores-append l r ol or h k)

-- A write to another address leaves the stored orders alone.
pub Stores-write :
    (key key' : ℕ → String) (value value' : ℕ → Option Order) (n : ℕ)
    → ((a : ℕ) → a ≢ n → key' a ≡ key a)
    → ((a : ℕ) → a ≢ n → value' a ≡ value a)
    → (xs : List ℕ) (os : List Order) → NotIn n xs
    → Stores key value xs os
    → Stores key' value' xs os
Stores-write key key' value value' n k v [] [] _ _ = tt
Stores-write key key' value value' n k v [] (o ∷ os) _ h = absurd h
Stores-write key key' value value' n k v (a ∷ xs) [] _ h = absurd h
Stores-write key key' value value' n k v (a ∷ xs) (o ∷ os) (out, outs) (p, q, h) =
    let other : a ≢ n = λ e. out (sym e) in
    (v a other ∙ p, k a other ∙ q, Stores-write key key' value value' n k v xs os outs h)

pub Stores-at :
    (key : ℕ → String) (value : ℕ → Option Order) (n : ℕ) (xs : List ℕ) (os : List Order)
    → Stores key value xs os
    → In n xs
    → (o : Order) × (value n ≡ some o) × (key n ≡ o.order_uid)
Stores-at key value n [] os _ i = absurd i
Stores-at key value n (a ∷ xs) [] h _ = absurd h
Stores-at key value n (a ∷ xs) (o ∷ os) (v, e, _) (inl p) = (o, ap value p ∙ v, ap key p ∙ e)
Stores-at key value n (a ∷ xs) (o ∷ os) (_, _, h) (inr i) = Stores-at key value n xs os h i
