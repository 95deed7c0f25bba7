-- ===== src/Prelude/Dict.antt =====
-- Go's `map[string]A` as an association list, each key at most once.
use Prim.Native.Nat.{suc}
use Prim.Native.String.{String}
use mathlib.Core.Path.{◌≡◌, refl}
use mathlib.Core.Logic.{◌≢◌, ite}
use mathlib.Core.Option.{Option, none, some}
use mathlib.Core.List.{List, [], ◌∷◌}
use native.Mathlib.Omega.{arith}
use gorder.Prelude.Lists.{length, NotIn, Distinct}
use gorder.Prelude.Text.{string_discrete}

module _ {A : Type 0} where
  abbrev pub keys : List (String × A) → List String
  keys [] = []
  keys ((k, _) ∷ m) = k ∷ keys m

  -- `m[k]` with its second result
  unfoldable pub lookup : String → List (String × A) → Option A
  lookup key [] = none
  lookup key ((j, a) ∷ rest) = ite (string_discrete j key) (some a) (lookup key rest)

  -- `m[k] = v`
  unfoldable pub insert : String → A → List (String × A) → List (String × A)
  insert key a [] = (key, a) ∷ []
  insert key a ((j, b) ∷ rest) =
      ite (string_discrete j key) ((key, a) ∷ rest) ((j, b) ∷ insert key a rest)

  -- `delete(m, k)`
  unfoldable pub delete : String → List (String × A) → List (String × A)
  delete k [] = []
  delete k ((j, w) ∷ m) = let rest = delete k m in ite (string_discrete j k) rest ((j, w) ∷ rest)

  pub lookup-insert :
      (j k : String) (v : A) (m : List (String × A))
      → lookup j (insert k v m) ≡ ite (string_discrete k j) (some v) (lookup j m)
  unfolding lookup insert
  lookup-insert j k v [] = refl
  lookup-insert j k v ((i, w) ∷ m) = ground (arith, lookup-insert j k v m)

  pub lookup-delete :
      (j k : String) (m : List (String × A))
      → lookup j (delete k m) ≡ ite (string_discrete k j) none (lookup j m)
  unfolding lookup delete
  lookup-delete j k [] = ground arith
  lookup-delete j k ((i, w) ∷ m) = ground (arith, lookup-delete j k m)

  pub lookup-NotIn : (k : String) (m : List (String × A)) → NotIn k (keys m) → lookup k m ≡ none
  unfolding lookup
  lookup-NotIn k [] _ = refl
  lookup-NotIn k ((j, v) ∷ m) (n, h) = ground (arith, lookup-NotIn k m)

  pub NotIn-of_lookup : (k : String) (m : List (String × A)) → lookup k m ≡ none → NotIn k (keys m)
  unfolding lookup
  NotIn-of_lookup k [] _ = tt
  NotIn-of_lookup k ((j, v) ∷ m) h = ground (arith, NotIn-of_lookup k m)

  delete_absent : (k : String) (m : List (String × A)) → NotIn k (keys m) → delete k m ≡ m
  unfolding delete
  delete_absent k [] _ = refl
  delete_absent k ((j, v) ∷ m) (n, h) = ground (arith, delete_absent k m)

  NotIn-keys-delete :
      (j k : String) (m : List (String × A)) → NotIn j (keys m) → NotIn j (keys (delete k m))
  unfolding delete
  NotIn-keys-delete j k [] _ = tt
  NotIn-keys-delete j k ((i, v) ∷ m) (n, h) = ground (arith, NotIn-keys-delete j k m)

  NotIn-keys-insert :
      (j k : String) (v : A) (m : List (String × A))
      → j ≢ k
      → NotIn j (keys m)
      → NotIn j (keys (insert k v m))
  unfolding insert
  NotIn-keys-insert j k v [] n _ = (n, tt)
  NotIn-keys-insert j k v ((i, w) ∷ m) n (p, h) = ground (arith, NotIn-keys-insert j k v m)

  pub delete-Distinct :
      (k : String) (m : List (String × A)) → Distinct (keys m) → Distinct (keys (delete k m))
  unfolding delete
  delete-Distinct k [] _ = tt
  delete-Distinct k ((j, v) ∷ m) (n, d) =
      ground (arith, delete-Distinct k m, NotIn-keys-delete j k m)

  pub insert-Distinct :
      (k : String) (v : A) (m : List (String × A))
      → Distinct (keys m)
      → Distinct (keys (insert k v m))
  unfolding insert
  insert-Distinct k v [] _ = (tt, tt)
  insert-Distinct k v ((j, w) ∷ m) (n, d) =
      ground (arith, insert-Distinct k v m, NotIn-keys-insert j k v m)

  pub length-insert_new :
      (k : String) (v : A) (m : List (String × A))
      → lookup k m ≡ none
      → length (insert k v m) ≡ suc (length m)
  unfolding insert lookup
  length-insert_new k v [] _ = refl
  length-insert_new k v ((j, w) ∷ m) h = ground (arith, length-insert_new k v m)

  pub length-delete :
      (k : String) (v : A) (m : List (String × A))
      → Distinct (keys m)
      → lookup k m ≡ some v
      → suc (length (delete k m)) ≡ length m
  unfolding delete lookup
  length-delete k v [] _ h = cc
  length-delete k v ((j, w) ∷ m) (n, d) h = ground (arith, length-delete k v m, delete_absent k m)

  pub length-delete_absent :
      (k : String) (m : List (String × A)) → lookup k m ≡ none → length (delete k m) ≡ length m
  length-delete_absent k m h = ground (arith, delete_absent k m, NotIn-of_lookup k m)
