-- ===== src/Prelude/Lists.antt =====
-- Lists measured by native numbers, and predicates on lists by recursion.
use Prim.Native.Nat.{ℕ, zero, suc, ◌+◌, ◌≤◌}
use mathlib.Core.Path.{◌≡◌, refl, sym, ap, ◌∙◌, subst}
use mathlib.Core.Logic.{◌≢◌, ◌⊎◌, inl, inr}
use mathlib.Core.Option.{Option, none, some}
use mathlib.Core.List.{List, [], ◌∷◌, ◌++◌}
use native.Mathlib.Omega.{arith}

-- A longer tuple is a chain of pairs, both to build one and to match one.
infixr 4 ◌&◌
pattern abbrev pub ◌&◌ {ℓ κ} : {A : Type ℓ} {B : Type κ} → A → B → A × B
a & b = (a, b)

module _ {ℓ} {A : Type ℓ} where
  -- Go's `len` of a slice
  abbrev pub length : List A → ℕ
  length [] = zero
  length (_ ∷ rest) = suc (length rest)

  -- at most the first `n` elements
  abbrev pub take : ℕ → List A → List A
  take zero _ = []
  take (suc m) [] = []
  take (suc m) (y ∷ ys) = y ∷ take m ys

  abbrev pub get_elem? : List A → ℕ → Option A
  get_elem? [] i = none
  get_elem? (x ∷ xs) zero = some x
  get_elem? (x ∷ xs) (suc i) = get_elem? xs i

  pub length-append : (xs ys : List A) → length (xs ++ ys) ≡ length xs + length ys
  length-append [] ys = omega arith
  length-append (x ∷ xs) ys = omega (arith, length-append xs ys)

  pub take_of_length-le : (n : ℕ) (xs : List A) → length xs ≤ n → take n xs ≡ xs
  take_of_length-le (suc m) (y ∷ ys) short =
      let rest = take_of_length-le m ys (omega arith) in ap (λ zs. y ∷ zs) rest
  take_of_length-le zero (y ∷ ys) short = absurd (omega arith)
  take_of_length-le (suc m) [] _ = refl
  take_of_length-le zero [] _ = refl

  pub take-length-append : (xs ys : List A) → take (length xs) (xs ++ ys) ≡ xs
  take-length-append [] ys = refl
  take-length-append (x ∷ xs) ys = ap (◌∷◌ x) (take-length-append xs ys)

module _ {A : Type 0} where
  -- `a` stands somewhere in the list.
  abbrev pub In : A → List A → Type 0
  In a [] = ⊥
  In a (x ∷ xs) = (a ≡ x) ⊎ In a xs

  -- `a` differs from each element.
  abbrev pub NotIn : A → List A → Type 0
  NotIn a [] = Unit
  NotIn a (x ∷ xs) = (a ≢ x) × NotIn a xs

  abbrev pub Distinct : List A → Type 0
  Distinct [] = Unit
  Distinct (x ∷ xs) = NotIn x xs × Distinct xs

module _ {ℓ κ} {A : Type ℓ} (P : A → Type κ) where
  abbrev pub All : List A → Type κ
  All [] = Unit
  All (x ∷ xs) = P x × All xs

  pub All-append : (xs ys : List A) → All (xs ++ ys) → All xs × All ys
  All-append [] ys h = (tt, h)
  All-append (x ∷ xs) ys (p, h) = let (l, r) = All-append xs ys h in ((p, l), r)

  pub append-All : (xs ys : List A) → All xs → All ys → All (xs ++ ys)
  append-All [] ys _ h = h
  append-All (x ∷ xs) ys (p, l) h = (p, append-All xs ys l h)

pub All_In {ℓ} : {A : Type 0} (P : A → Type ℓ) (x : A) (xs : List A) → All P xs → In x xs → P x
All_In P x [] _ i = absurd i
All_In P x (y ∷ xs) (h, _) (inl e) = subst P (sym e) h
All_In P x (y ∷ xs) (_, hs) (inr i) = All_In P x xs hs i

module _ {A : Type 0} where
  pub NotIn-In : (a b : A) (xs : List A) → NotIn a xs → In b xs → a ≢ b
  NotIn-In a b [] _ i = absurd i
  NotIn-In a b (x ∷ xs) (n, h) (inl e) = λ p. n (p ∙ e)
  NotIn-In a b (x ∷ xs) (n, h) (inr i) = NotIn-In a b xs h i

  pub In-append_left : (a : A) (xs ys : List A) → In a xs → In a (xs ++ ys)
  In-append_left a [] ys i = absurd i
  In-append_left a (x ∷ xs) ys (inl e) = inl e
  In-append_left a (x ∷ xs) ys (inr i) = inr (In-append_left a xs ys i)

  pub In-append_right : (a : A) (xs ys : List A) → In a ys → In a (xs ++ ys)
  In-append_right a [] ys i = i
  In-append_right a (x ∷ xs) ys i = inr (In-append_right a xs ys i)

  pub In-append : (a : A) (xs ys : List A) → In a (xs ++ ys) → In a xs ⊎ In a ys
  In-append a [] ys i = inr i
  In-append a (x ∷ xs) ys (inl e) = inl (inl e)
  In-append a (x ∷ xs) ys (inr i) = elim (In-append a xs ys i) [
    | inl l ↦ inl (inr l)
    | inr r ↦ inr r
  ]

  -- An element splits the list at its place.
  pub In-split : (a : A) (xs : List A) → In a xs → (l : List A) × (r : List A) × (xs ≡ l ++ a ∷ r)
  In-split a [] i = absurd i
  In-split a (x ∷ xs) (inl e) = ([], xs, ap (λ y. y ∷ xs) (sym e))
  In-split a (x ∷ xs) (inr i) = let (l, r, e) = In-split a xs i in (x ∷ l, r, ap (◌∷◌ x) e)

  pub NotIn-append : (a : A) (xs ys : List A) → NotIn a (xs ++ ys) → NotIn a xs × NotIn a ys
  NotIn-append a [] ys h = (tt, h)
  NotIn-append a (x ∷ xs) ys (n, h) = let (l, r) = NotIn-append a xs ys h in ((n, l), r)

  pub append-NotIn : (a : A) (xs ys : List A) → NotIn a xs → NotIn a ys → NotIn a (xs ++ ys)
  append-NotIn a [] ys h k = k
  append-NotIn a (x ∷ xs) ys (n, h) k = (n, append-NotIn a xs ys h k)

  -- To take one element out keeps a list distinct, and the element is not left in it.
  pub Distinct-remove :
      (xs : List A) (a : A) (ys : List A)
      → Distinct (xs ++ a ∷ ys)
      → Distinct (xs ++ ys) × NotIn a (xs ++ ys)
  Distinct-remove [] a ys (n, d) = (d, n)
  Distinct-remove (x ∷ xs) a ys (n, d) =
      let (l, r) = NotIn-append x xs (a ∷ ys) n in
      let (d', n') = Distinct-remove xs a ys d in
      ((append-NotIn x xs ys l r.1, d'), (λ e. r.0 (sym e), n'))
