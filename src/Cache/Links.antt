-- ===== src/Cache/Links.antt =====
-- The doubly linked list of cache.go, as a chain of pointers that agree in both directions.
use gorder.Prelude.{ℕ, ◌≡◌, ◌≢◌, List, [], ◌∷◌, ◌++◌, arith, NotIn, Distinct, NotIn-append}
use gorder.Cache.{write}

-- From `a` the `next` pointers lead through the list, and the `prev` pointers lead back.
abbrev pub Linked : (ℕ → ℕ) → (ℕ → ℕ) → ℕ → List ℕ → Type 0
Linked nx pv a [] = Unit
Linked nx pv a (b ∷ l) = (nx a ≡ b) × (pv b ≡ a) × Linked nx pv b l

abbrev pub last_of : ℕ → List ℕ → ℕ
last_of a [] = a
last_of a (b ∷ l) = last_of b l

pub Linked-write_next :
    (nx pv : ℕ → ℕ) (p v a : ℕ) (l : List ℕ)
    → NotIn p (a ∷ l)
    → Linked nx pv a l
    → Linked (write nx p v) pv a l
Linked-write_next nx pv p v a [] _ _ = tt
Linked-write_next nx pv p v a (b ∷ l) (n, out) (to, from, k) =
    (ground arith, from, Linked-write_next nx pv p v b l out k)

pub Linked-write_prev :
    (nx pv : ℕ → ℕ) (p v a : ℕ) (l : List ℕ)
    → NotIn p l
    → Linked nx pv a l
    → Linked nx (write pv p v) a l
Linked-write_prev nx pv p v a [] _ _ = tt
Linked-write_prev nx pv p v a (b ∷ l) (n, out) (to, from, k) =
    (to, ground arith, Linked-write_prev nx pv p v b l out k)

module _ (nx pv : ℕ → ℕ) where
  pub prev_at :
      (a : ℕ) (xs : List ℕ) (n : ℕ) (ys : List ℕ)
      → Linked nx pv a (xs ++ n ∷ ys)
      → pv n ≡ last_of a xs
  prev_at a [] n ys k = k.1
  prev_at a (x ∷ xs) n ys k = prev_at x xs n ys k.2

  pub next_at :
      (a : ℕ) (xs : List ℕ) (n q : ℕ) (ys : List ℕ) → Linked nx pv a (xs ++ n ∷ q ∷ ys) → nx n ≡ q
  next_at a [] n q ys k = k.2.0
  next_at a (x ∷ xs) n q ys k = next_at x xs n q ys k.2

-- What differs from a whole list differs from the last element of a part of it.
pub NotIn-last_of : (p a : ℕ) (xs ys : List ℕ) → NotIn p (a ∷ xs ++ ys) → p ≢ last_of a xs
NotIn-last_of p a [] ys (n, _) = n
NotIn-last_of p a (x ∷ xs) ys (_, out) = NotIn-last_of p x xs ys out

module _ (nx pv : ℕ → ℕ) where
  -- `removeNode` takes the node out of the chain.
  pub Linked-remove :
      (a : ℕ) (xs : List ℕ) (n q : ℕ) (ys : List ℕ)
      → Linked nx pv a (xs ++ n ∷ q ∷ ys)
      → Distinct (a ∷ xs ++ n ∷ q ∷ ys)
      → Linked (write nx (last_of a xs) q) (write pv q (last_of a xs)) a (xs ++ q ∷ ys)
  Linked-remove a [] n q ys (_, _, (_, _, k)) ((_, a_out), (_, (q_out, _))) = (
    ground arith,
    ground arith,
    Linked-write_next nx _ a q q ys a_out (Linked-write_prev nx pv q a q ys q_out k),
  )
  Linked-remove a (x ∷ xs) n q ys (to, from, k) (a_out, (x_out, d)) =
      let apart : a ≢ last_of x xs = NotIn-last_of a x xs (n ∷ q ∷ ys) a_out in
      let other : x ≢ q = (NotIn-append x xs (n ∷ q ∷ ys) x_out).1.1.0 in
      (ground arith, ground arith, Linked-remove x xs n q ys k (x_out, d))

  -- `addNode` puts a new node behind the head.
  pub Linked-add :
      (n a x : ℕ) (l : List ℕ)
      → Linked nx pv a (x ∷ l)
      → Distinct (n ∷ a ∷ x ∷ l)
      → Linked (write (write nx n x) a n) (write (write pv n a) x n) a (n ∷ x ∷ l)
  Linked-add n a x l (to, from, k) ((n_ne_a, (n_ne_x, n_out)), ((a_ne_x, a_out), (x_out, _))) =
      let chain : Linked (write (write nx n x) a n) (write (write pv n a) x n) x l =
        Linked-write_next (write nx n x) _ a n x l (a_ne_x, a_out)
          (Linked-write_next nx _ n x x l (n_ne_x, n_out)
            (Linked-write_prev nx (write pv n a) x n x l x_out
              (Linked-write_prev nx pv n a x l n_out k))) in
      (ground arith, ground arith, (ground arith, ground arith, chain))
