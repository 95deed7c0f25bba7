-- ===== src/Cache/Ring.antt =====
-- The list operations of cache.go on a well-formed list, and the sequence of its nodes.
use gorder.Prelude.{
  ℕ, ◌≡◌, ◌≢◌, ◌<◌, ◌≤◌, refl, sym, List, [], ◌∷◌, ◌++◌, arith, some, All, NotIn, Distinct,
  NotIn-append, Distinct-remove, append_assoc, append-nil, ◌∙◌,
}
use gorder.Cache.{Cache, nil, write, add_node, remove_node, move_to_head, pop_tail}
use gorder.Cache.Links.{Linked, last_of, prev_at, next_at, NotIn-last_of, Linked-remove, Linked-add}

-- The nodes between the two sentinels, from the most recently used one.
pub record IsRing (nx pv : ℕ → ℕ) (head tail fresh : ℕ) (xs : List ℕ) : Type 0 where
  pub linked : Linked nx pv head (xs ++ tail ∷ [])
  pub distinct : Distinct (nil ∷ head ∷ xs ++ tail ∷ [])
  pub older : All (λ a. a < fresh) (nil ∷ head ∷ xs ++ tail ∷ [])

abbrev pub RingOf : Cache → List ℕ → Type 0
RingOf c xs = IsRing c.next c.prev c.head c.tail c.fresh xs

abbrev pub relink : Cache → (ℕ → ℕ) → (ℕ → ℕ) → Cache
relink c nx pv = record c { prev = pv; next = nx }

module _ {ℓ} {A : Type ℓ} where
  pub concat_cons : (r : List A) (t : A) → (q : A) × (ys : List A) × (r ++ t ∷ [] ≡ q ∷ ys)
  concat_cons [] t = (t, [], refl)
  concat_cons (x ∷ r) t = (x, r ++ t ∷ [], refl)

All-remove :
    (P : ℕ → Type 0) (xs : List ℕ) (a : ℕ) (ys : List ℕ) → All P (xs ++ a ∷ ys) → All P (xs ++ ys)
All-remove P [] a ys (_, h) = h
All-remove P (x ∷ xs) a ys (p, h) = (p, All-remove P xs a ys h)

All-append : (P : ℕ → Type 0) (xs ys : List ℕ) → All P (xs ++ ys) → All P ys
All-append P [] ys h = h
All-append P (x ∷ xs) ys (_, h) = All-append P xs ys h

All-map : (P Q : ℕ → Type 0) → ((a : ℕ) → P a → Q a) → (xs : List ℕ) → All P xs → All Q xs
All-map P Q f [] _ = tt
All-map P Q f (x ∷ xs) (p, h) = (f x p, All-map P Q f xs h)

-- A node that is taken out leaves a well-formed list.
module _ (nx pv : ℕ → ℕ) (head tail fresh : ℕ) (l : List ℕ) (n : ℕ) (r : List ℕ)
    (ring : IsRing nx pv head tail fresh (l ++ n ∷ r)) where
  abbrev walk_lem : (l ++ n ∷ r) ++ tail ∷ [] ≡ l ++ n ∷ (r ++ tail ∷ [])
  walk_lem = append_assoc l (n ∷ r) (tail ∷ [])

  walk-Linked : Linked nx pv head (l ++ n ∷ (r ++ tail ∷ []))
  walk-Linked = rw walk_lem at (ring.linked)

  walk-Distinct : Distinct (nil ∷ head ∷ l ++ n ∷ (r ++ tail ∷ []))
  walk-Distinct = rw walk_lem at (ring.distinct)

  walk_older : All (λ a. a < fresh) (nil ∷ head ∷ l ++ n ∷ (r ++ tail ∷ []))
  walk_older = rw walk_lem at (ring.older)

  module _ (q : ℕ) (ys : List ℕ) (e : r ++ tail ∷ [] ≡ q ∷ ys) where
    IsRing-remove :
        IsRing (write nx (last_of head l) q) (write pv q (last_of head l)) head tail fresh (l ++ r)
    IsRing-remove = record {
      linked =
          rw (append_assoc l r (tail ∷ []), e)
            (Linked-remove nx pv head l n q ys (rw e at walk-Linked) (rw e at walk-Distinct).1);
      distinct =
          rw (append_assoc l r (tail ∷ []))
            (Distinct-remove (nil ∷ head ∷ l) n (r ++ tail ∷ []) walk-Distinct).0;
      older =
          rw (append_assoc l r (tail ∷ []))
            (All-remove (λ a. a < fresh) (nil ∷ head ∷ l) n (r ++ tail ∷ []) walk_older);
    }

    before_lem : pv n ≡ last_of head l
    before_lem = prev_at nx pv head l n (r ++ tail ∷ []) walk-Linked

    after_lem : nx n ≡ q
    after_lem = next_at nx pv head l n q ys (rw e at walk-Linked)

    node_ne_nil : (n ≢ nil) × (q ≢ nil) × (last_of head l ≢ nil)
    node_ne_nil =
        let out : NotIn nil (head ∷ l ++ n ∷ q ∷ ys) = (rw e at walk-Distinct).0 in
        let (_, rest) = NotIn-append nil (head ∷ l) (n ∷ q ∷ ys) out in
        let first = NotIn-last_of nil head l (n ∷ q ∷ ys) out in
        ((λ p. rest.0 (sym p)), (λ p. rest.1.0 (sym p)), (λ p. first (sym p)))

    node_lt : n < fresh
    node_lt = (All-append (λ a. a < fresh) (nil ∷ head ∷ l) (n ∷ (r ++ tail ∷ [])) walk_older).0

    node_NotIn : NotIn n (nil ∷ head ∷ (l ++ r) ++ tail ∷ [])
    node_NotIn =
        rw (append_assoc l r (tail ∷ []))
          (Distinct-remove (nil ∷ head ∷ l) n (r ++ tail ∷ []) walk-Distinct).1

-- A node that is put behind the head.
module _ (nx pv : ℕ → ℕ) (head tail fresh n fresh' : ℕ) (xs : List ℕ)
    (ring : IsRing nx pv head tail fresh xs) (unused : NotIn n (nil ∷ head ∷ xs ++ tail ∷ []))
    (older : n < fresh') (more : fresh ≤ fresh') (q : ℕ) (ys : List ℕ)
    (e : xs ++ tail ∷ [] ≡ q ∷ ys) where
  IsRing-add :
      IsRing (write (write nx n q) head n) (write (write pv n head) q n) head tail fresh' (n ∷ xs)
  IsRing-add =
      let linked : Linked nx pv head (q ∷ ys) = rw e at (ring.linked) in
      let d : Distinct (nil ∷ head ∷ q ∷ ys) = rw e at (ring.distinct) in
      let out : NotIn n (nil ∷ head ∷ q ∷ ys) = rw e at unused in
      let old =
        All-map (λ a. a < fresh) (λ a. a < fresh') (λ a h. omega arith)
          (nil ∷ head ∷ xs ++ tail ∷ []) ring.older in
      let apart : nil ≢ n = λ p. out.0 (sym p) in
      let behind : head ≢ n = λ p. out.1.0 (sym p) in
      record {
        linked = rw e (Linked-add nx pv n head q ys linked (out.1, d.1));
        distinct = rw e ((d.0.0, (apart, d.0.1)), (((behind, d.1.0), (out.1.1, d.1.1))));
        older = (old.0, (old.1.0, (older, old.1.1)));
      }

-- `removeNode` on a node of the list succeeds, and takes out that node only.
pub remove_node-RingOf :
    (c : Cache) (l : List ℕ) (n : ℕ) (r : List ℕ)
    → RingOf c (l ++ n ∷ r)
    → (nx : ℕ → ℕ) × (pv : ℕ → ℕ) × (remove_node n c ≡ some (relink c nx pv))
      × RingOf (relink c nx pv) (l ++ r)
unfolding remove_node
remove_node-RingOf c l n r ring =
    let (q, ys, e) = concat_cons r c.tail in
    let p = last_of c.head l in
    let before = before_lem c.next c.prev c.head c.tail c.fresh l n r ring q ys e in
    let after = after_lem c.next c.prev c.head c.tail c.fresh l n r ring q ys e in
    let (n_live, q_live, p_live) =
      node_ne_nil c.next c.prev c.head c.tail c.fresh l n r ring q ys e in
    (
      write c.next p q,
      write c.prev q p,
      ground arith,
      IsRing-remove c.next c.prev c.head c.tail c.fresh l n r ring q ys e,
    )

-- `addNode` on a node outside the list succeeds, and puts it first.
pub add_node-RingOf :
    (c : Cache) (n fresh : ℕ) (xs : List ℕ)
    → IsRing c.next c.prev c.head c.tail fresh xs
    → NotIn n (nil ∷ c.head ∷ xs ++ c.tail ∷ [])
    → n < c.fresh
    → fresh ≤ c.fresh
    → (nx : ℕ → ℕ) × (pv : ℕ → ℕ) × (add_node n c ≡ some (relink c nx pv))
      × RingOf (relink c nx pv) (n ∷ xs)
unfolding add_node
add_node-RingOf c n fresh xs ring unused older more =
    let (q, ys, e) = concat_cons xs c.tail in
    let d : Distinct (nil ∷ c.head ∷ q ∷ ys) = rw e at (ring.distinct) in
    let out : NotIn n (nil ∷ c.head ∷ q ∷ ys) = rw e at unused in
    let linked : Linked c.next c.prev c.head (q ∷ ys) = rw e at (ring.linked) in
    let head_live = d.0.0 in
    let first_live = d.0.1.0 in
    let n_live = out.0 in
    let n_ne_head = out.1.0 in
    let first = linked.0 in
    (
      write (write c.next n q) c.head n,
      write (write c.prev n c.head) q n,
      ground arith,
      IsRing-add c.next c.prev c.head c.tail fresh n c.fresh xs ring unused older more q ys e,
    )

-- `moveToHead` puts a node of the list first and keeps the order of the others.
pub move_to_head-RingOf :
    (c : Cache) (l : List ℕ) (n : ℕ) (r : List ℕ)
    → RingOf c (l ++ n ∷ r)
    → (nx : ℕ → ℕ) × (pv : ℕ → ℕ) × (move_to_head n c ≡ some (relink c nx pv))
      × RingOf (relink c nx pv) (n ∷ l ++ r)
unfolding move_to_head
move_to_head-RingOf c l n r ring =
    let (q, ys, e) = concat_cons r c.tail in
    let (nx, pv, removed, rest) = remove_node-RingOf c l n r ring in
    let out = node_NotIn c.next c.prev c.head c.tail c.fresh l n r ring q ys e in
    let older = node_lt c.next c.prev c.head c.tail c.fresh l n r ring q ys e in
    let (nx', pv', added, ring') =
      add_node-RingOf (relink c nx pv) n c.fresh (l ++ r) rest out older (omega arith) in
    (nx', pv', rw removed added, ring')

last_of-concat : (a n : ℕ) (l : List ℕ) → last_of a (l ++ n ∷ []) ≡ n
last_of-concat a n [] = refl
last_of-concat a n (x ∷ l) = last_of-concat x n l

-- `popTail` takes out the last node, which is the least recently used one.
pub pop_tail-RingOf :
    (c : Cache) (l : List ℕ) (n : ℕ)
    → RingOf c (l ++ n ∷ [])
    → (nx : ℕ → ℕ) × (pv : ℕ → ℕ) × (pop_tail c ≡ some (n, relink c nx pv))
      × RingOf (relink c nx pv) l
unfolding pop_tail
pop_tail-RingOf c l n ring =
    let (nx, pv, removed, rest) = remove_node-RingOf c l n [] ring in
    let last : c.prev c.tail ≡ n =
      prev_at c.next c.prev c.head (l ++ n ∷ []) c.tail [] ring.linked
      ∙ last_of-concat c.head n l in
    let d = NotIn-append nil (c.head ∷ l ++ n ∷ []) (c.tail ∷ []) ring.distinct.0 in
    let tail_live : nil ≢ c.tail = d.1.0 in
    (nx, pv, ground (arith, removed), rw (append-nil l) at rest)
