-- ===== src/Tests/Cache.antt =====
-- Calls on a cache for two orders, and the fill of a new one.
use gorder.Prelude.{ℕ, ◌≡◌, ◌↔◌, refl, none, some, List, [], ◌∷◌, arith}
use mathlib.Core.Bool.{false≢true}
use text.Mathlib.TextEquality.{eq_iff}
use gorder.Prelude.Dict.{lookup}
use gorder.Prelude.Result.{ok, done}
use gorder.Metrics.{new_metrics}
use gorder.Cache.{Cache, new_cache, delete, size}
use gorder.Cache.Refine.{Refines, IsGauged}
use gorder.Cache.Trace.{
  Call, set_call, get_call, size_call, run, after, replies, Fits, run-replies, new_cache-Refines,
}
use gorder.Cache.Delete.{delete-IsGauged_iff}
use gorder.Repository.Interface.{Interface, ReadLaws, repository, repository-ReadLaws}
use gorder.Repository.Tables.{Tables}
use gorder.Preload.{populate, loaded, populate-Fits}
use gorder.Tests.Samples.{order_of, alice_order, bob_order, app-Fits, memory, memory_laws, stocked}

abbrev calls : List Call
calls =
    set_call (some alice_order)
    ∷ set_call (some bob_order)
    ∷ get_call "a1"
    ∷ set_call (some (order_of "c1" "carol"))
    ∷ get_call "b1"
    ∷ size_call
    ∷ []

run-replies_example :
    (c' : Cache) × (run calls (new_cache 2 none) ≡ some (replies 2 calls [], c'))
    × Fits 2 c' (after 2 calls [])
run-replies_example = run-replies 2 calls (new_cache 2 none) [] app-Fits

measured : Refines (new_cache 2 (some new_metrics)) []
measured = new_cache-Refines 2 (some new_metrics) refl

delete-IsGauged_iff_example :
    IsGauged
      (delete "a1" (new_cache 2 (some new_metrics))).metrics
      (size (delete "a1" (new_cache 2 (some new_metrics))))
    ↔ ((n : ℕ) × (lookup {A = ℕ} "a1" [] ≡ some n))
delete-IsGauged_iff_example =
    delete-IsGauged_iff (new_cache 2 (some new_metrics)) [] new_metrics "a1" measured refl

-- A storage with two recent orders.
abbrev two_recent : Interface Tables
two_recent = record (repository memory) { get_recent_orders_uid = λ _ _. ok ("b1" ∷ "a1" ∷ []) }

two_recent_laws : ReadLaws two_recent
two_recent_laws = record {
  uid_lem = (repository-ReadLaws memory memory_laws).uid_lem;
  user_lem = (repository-ReadLaws memory memory_laws).user_lem;
}

populate-Fits_example :
    (c : Cache) × (populate two_recent stocked (new_cache 2 (some new_metrics)) ≡ some (c, done))
    × Fits 2 c (loaded two_recent ("b1" ∷ "a1" ∷ []) stocked [])
populate-Fits_example =
    populate-Fits two_recent two_recent_laws 2 stocked new_metrics ("b1" ∷ "a1" ∷ []) refl refl
      (((λ e. false≢true ((eq_iff "b1" "a1").1 e)), tt), (tt, tt)) (omega arith)
