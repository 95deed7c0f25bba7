-- ===== src/Cache/Delete.antt =====
-- `Delete` of cache.go: the entry of the map goes, the node stays in the list, and the gauge is
-- lowered whether or not there was an entry.
use gorder.Prelude.{
  ℕ, suc, zero, String, List, ◌≡◌, ◌≢◌, ◌↔◌, sym, ap, ◌∙◌, some, arith, length, Option-cases, inl,
  inr, subst,
}
use gorder.Prelude.Dict.{lookup, delete as delete_key, length-delete, length-delete_absent}
use gorder.Prelude.Int.{pos, sub_one}
use gorder.Cache.{Cache, delete, size}
use gorder.Cache.Refine.{Refines, IsGauged}
use gorder.Metrics.{Metrics}
use gorder.Models.{Order}

sub_one-ne : (n : ℕ) → sub_one (pos n) ≢ pos n
sub_one-ne zero e = cc
sub_one-ne (suc n) e = let p : n ≡ suc n = pos_inj e in omega (arith, p)
  where
    pos_inj : {a b : ℕ} → pos a ≡ pos b → a ≡ b
    pos_inj q = cc

-- After `Delete` on a sound cache with metrics, the gauge shows the number of entries exactly where
-- the key had an entry: a key that is not cached makes it too low.
pub delete-IsGauged_iff :
    (c : Cache) (os : List Order) (m : Metrics) (k : String)
    → Refines c os
    → c.metrics ≡ some m
    → IsGauged (delete k c).metrics (size (delete k c)) ↔ ((n : ℕ) × (lookup k c.elems ≡ some n))
unfolding delete size
delete-IsGauged_iff c os m k ref held = elim (Option-cases (lookup k c.elems)) [
  | inl miss ↦
      let same : length (delete_key k c.elems) ≡ length c.elems =
        length-delete_absent k c.elems miss in
      (
        (λ h.
            let low : sub_one m.orders_in_cache ≡ pos (length (delete_key k c.elems)) =
              rw (delete, held) at h in
            absurd (sub_one-ne (length c.elems) (ap sub_one (sym gauge) ∙ low ∙ ap pos same))),
        λ (n, hit). absurd (ground arith),
      )
  | inr (n, hit) ↦
      let one : suc (length (delete_key k c.elems)) ≡ length c.elems =
        length-delete k n c.elems ref.index.unique hit in
      ((λ _. (n, hit)), λ _. rw (delete, held) (ap sub_one (gauge ∙ ap pos (sym one))))
]
  where
    gauge : m.orders_in_cache ≡ pos (length c.elems)
    gauge =
        subst (λ ms. IsGauged ms (length ref.nodes)) held ref.gauged
        ∙ ap pos (sym ref.index.counted)
