-- ===== src/System/Start.antt =====
-- The state that `Run` of internal/app/app.go starts with: a new cache that `Populate` has filled from
-- the repository, over the tables as they are.
use mathlib.Core.HLevel.{¬_prop}
use mathlib.Core.Logic.{∥∥₁_elim}
use mathlib.Core.List.{Perm, Pairwise, Mem, Memᴰ}
use mathlib.Core.List.{mem-cons_self, mem-cons_of_mem}
use mathlib.Core.List.Perm
use gorder.Prelude.{
  ℕ, zero, suc, ◌≤◌, String, ◌≡◌, ◌≢◌, refl, sym, ap, ◌∙◌, subst, some, List, [], ◌∷◌, All, NotIn,
  Distinct, length, take, map, arith, inl, inr,
}
use gorder.Prelude.Int.{pos}
use gorder.Prelude.Result.{Result, ok, err, Result-cases, Status, done, failed}
use gorder.Models.{Order}
use gorder.Metrics.{Metrics}
use gorder.Cache.{Cache, new_cache}
use gorder.Cache.Trace.{new_cache-Refines}
use gorder.Repository.Driver.{Driver, DriverLaws, DbError}
use gorder.Repository.Errors.{RepoError}
use gorder.Repository.Tables.{OrderRow, uid_of}
use gorder.Repository.Select.{all_rows, get_order_by_uid, get_recent_orders_uid}
use gorder.Repository.Unique.{IsConsistent, uids}
use gorder.Repository.Interface.{repository, repository-ReadLaws}
use gorder.Preload.{populate, loaded, populate-Fits}
use gorder.Consumer.Coherence.{Backed}
use gorder.Coherence.{order-Backed}
use gorder.System.Handlers.{IsSound}

-- Rows with other UIDs.
abbrev Differ : OrderRow → OrderRow → Type 0
Differ o p = o.order_uid ≢ p.order_uid

length-take : {A : Type 0} (n : ℕ) (xs : List A) → length (take n xs) ≤ n
length-take zero xs = omega arith
length-take (suc n) [] = omega arith
length-take (suc n) (x ∷ xs) = omega (arith, length-take n xs)

NotIn-take : (k : String) (n : ℕ) (xs : List String) → NotIn k xs → NotIn k (take n xs)
NotIn-take k zero xs _ = tt
NotIn-take k (suc n) [] _ = tt
NotIn-take k (suc n) (x ∷ xs) (e, h) = (e, NotIn-take k n xs h)

Distinct-take : (n : ℕ) (xs : List String) → Distinct xs → Distinct (take n xs)
Distinct-take zero xs _ = tt
Distinct-take (suc n) [] _ = tt
Distinct-take (suc n) (x ∷ xs) (out, d) = (NotIn-take x n xs out, Distinct-take n xs d)

NotIn-Memᴰ :
    (k : String) (os : List OrderRow) (o : OrderRow)
    → NotIn k (uids os)
    → Memᴰ o os
    → k ≢ o.order_uid
NotIn-Memᴰ k [] o _ m = elim m [ ]
NotIn-Memᴰ k (x ∷ os) o (n, h) (Memᴰ.head e) = λ q. n (q ∙ ap uid_of e)
NotIn-Memᴰ k (x ∷ os) o (n, h) (Memᴰ.tail m) = NotIn-Memᴰ k os o h m

Distinct-Pairwise : (os : List OrderRow) → Distinct (uids os) → Pairwise Differ os
Distinct-Pairwise [] _ = Pairwise.nil
Distinct-Pairwise (o ∷ os) (out, d) =
    Pairwise.cons (λ p m. ∥∥₁_elim m ¬_prop (NotIn-Memᴰ o.order_uid os p out))
      (Distinct-Pairwise os d)

NotIn-map :
    (k : String) (os : List OrderRow)
    → ((o : OrderRow) → Mem o os → k ≢ o.order_uid)
    → NotIn k (map uid_of os)
NotIn-map k [] _ = tt
NotIn-map k (o ∷ os) h = (h o mem-cons_self, NotIn-map k os (λ p m. h p (mem-cons_of_mem o m)))

Pairwise-Distinct : (os : List OrderRow) → Pairwise Differ os → Distinct (map uid_of os)
Pairwise-Distinct [] _ = tt
Pairwise-Distinct (o ∷ os) (Pairwise.cons h d) =
    (NotIn-map o.order_uid os h, Pairwise-Distinct os d)

Distinct-Perm :
    (rows os : List OrderRow) → Perm rows os → Distinct (uids os) → Distinct (map uid_of rows)
Distinct-Perm rows os p d = Pairwise-Distinct rows (
    (Perm.Pairwise-iff {R = Differ} (λ a b. ¬_prop) (λ a b n e. n (sym e)) p).1
      (Distinct-Pairwise os d))

all_rows-ok :
    (first last : String) (result : Result DbError (List String × Status DbError))
    (xs : List String)
    → all_rows first last result ≡ ok xs
    → result ≡ ok (xs, done)
all_rows-ok first last (err e) xs h = absurd (ground arith)
all_rows-ok first last (ok (rows, failed e)) xs h = absurd (ground arith)
all_rows-ok first last (ok (rows, done)) xs h = cc

module _ (d : Driver) (laws : DriverLaws d) (capacity : ℕ) (db : d.Db) where
  loaded-Backed :
      (uids : List String) (os : List Order)
      → All (Backed (d.tables db)) os
      → All (Backed (d.tables db)) (loaded (repository d) uids db os)
  unfolding loaded
  loaded-Backed [] os h = h
  loaded-Backed (uid ∷ uids) os h = elim (Result-cases (get_order_by_uid d uid db)) [
    | inr (e, p) ↦ rw (loaded, p) (loaded-Backed uids os h)
    | inl (o, p) ↦ rw (loaded, p) (loaded-Backed uids (o ∷ os) (order-Backed d laws db uid o p, h))
  ]

  recent_uids :
      (uids : List String)
      → get_recent_orders_uid d capacity db ≡ ok uids
      → d.query_recent capacity db ≡ ok (uids, done)
  unfolding get_recent_orders_uid
  recent_uids uids e = all_rows-ok _ _ (d.query_recent capacity db) uids e

  -- The service starts in a sound state: over consistent tables `Populate` of the new cache meets no
  -- nil pointer, and whether it succeeds or fails the state is sound.
  pub populate-IsSound :
      (ms : Metrics)
      → ms.orders_in_cache ≡ pos 0
      → IsConsistent (d.tables db)
      → (c : Cache) × (status : Status RepoError) × (populate
            (repository d)
            db
            (new_cache capacity (some ms))
          ≡ some (c, status))
        × IsSound d laws capacity (record { db = db; cache = c })
  unfolding populate
  populate-IsSound ms gauge consistent = elim (Result-cases (get_recent_orders_uid d capacity db)) [
    | inr (e, p) ↦ (
      new_cache capacity (some ms),
      failed e,
      rw (populate, p) refl,
      record {
        orders = [];
        fits = record {
          refines = new_cache-Refines capacity (some ms) gauge;
          limit = refl;
          room = omega arith;
        };
        backed = tt;
        consistent = consistent;
      },
    )
    | inl (uids, p) ↦
        let (rows, perm, _, named) = laws.query_recent_lem capacity db uids (recent_uids uids p) in
        let distinct : Distinct uids = subst Distinct (sym named) (
          Distinct-take capacity (map uid_of rows)
            (Distinct-Perm rows ((d.tables db).orders) perm consistent.distinct)) in
        let short : length uids ≤ capacity =
          subst (λ xs. length xs ≤ capacity) (sym named) (length-take capacity (map uid_of rows)) in
        let (c, ran, fits) =
          populate-Fits (repository d) (repository-ReadLaws d laws) capacity db ms uids gauge p
            distinct short in
        (
          c,
          done,
          ran,
          record {
            orders = loaded (repository d) uids db [];
            fits = fits;
            backed = loaded-Backed uids [] tt;
            consistent = consistent;
          },
        )
  ]
