-- ===== src/Tests/Strict.antt =====
-- A database in memory that refuses rows against the keys of migrations/.
use gorder.Prelude.{
  ◌≡◌, ◌≢◌, refl, List, [], ◌∷◌, Bool, true, false, if◌then◌else◌, inl, inr, Bool-cases,
}
use gorder.Prelude.Result.{done, failed}
use gorder.Repository.Driver.{Driver, DriverLaws, other}
use gorder.Repository.Enforced.{EnforcesKeys, add_order_enforced}
use gorder.Repository.Insert.{add_order}
use gorder.Repository.Keys.{MeetsKeys}
use gorder.Repository.Tables.{
  Tables, Statement, insert_order, insert_delivery, insert_payment, insert_item, apply, orders_with,
  deliveries_with, payments_with,
}
use gorder.Repository.Unique.{IsConsistent, Insertion}
use gorder.Tests.Samples.{bob_order, empty_tables, memory, memory_laws}
use gorder.Tests.Storage.{empty_tables-IsConsistent}

abbrev is_empty : {A : Type 0} → List A → Bool
is_empty [] = true
is_empty (_ ∷ _) = false

is_empty-true : {A : Type 0} (xs : List A) → is_empty xs ≡ true → xs ≡ []
is_empty-true [] e = refl
is_empty-true (x ∷ xs) e = absurd cc

is_empty-false : {A : Type 0} (xs : List A) → is_empty xs ≡ false → xs ≢ []
is_empty-false [] e = absurd cc
is_empty-false (x ∷ xs) e = λ p. cc

-- the part's order is there, and it has no such part yet
abbrev is_new_part : {A B : Type 0} → List A → List B → Bool
is_new_part orders parts = if is_empty orders then false else is_empty parts

is_new_part-true :
    {A B : Type 0} (orders : List A) (parts : List B)
    → is_new_part orders parts ≡ true
    → (orders ≢ []) × (parts ≡ [])
is_new_part-true [] parts e = absurd cc
is_new_part-true (x ∷ xs) parts e = ((λ p. cc), is_empty-true parts e)

abbrev meets_keys : Statement → Tables → Bool
meets_keys (insert_order row) t = is_empty (orders_with row.order_uid t.orders)
meets_keys (insert_delivery row) t =
    is_new_part (orders_with row.order_uid t.orders) (deliveries_with row.order_uid t.delivery)
meets_keys (insert_payment row) t =
    is_new_part (orders_with row.order_uid t.orders) (payments_with row.order_uid t.payment)
meets_keys (insert_item row) t =
    if is_empty (orders_with row.order_uid t.orders) then false else true

meets_keys-MeetsKeys : (s : Statement) (t : Tables) → meets_keys s t ≡ true → MeetsKeys s t
meets_keys-MeetsKeys (insert_order row) t e = is_empty-true (orders_with row.order_uid t.orders) e
meets_keys-MeetsKeys (insert_delivery row) t e =
    is_new_part-true (orders_with row.order_uid t.orders) (deliveries_with row.order_uid t.delivery)
      e
meets_keys-MeetsKeys (insert_payment row) t e =
    is_new_part-true (orders_with row.order_uid t.orders) (payments_with row.order_uid t.payment) e
meets_keys-MeetsKeys (insert_item row) t e =
    elim (Bool-cases (is_empty (orders_with row.order_uid t.orders))) [
      | inl p ↦ let no : false ≡ true = rw p at e in absurd cc
      | inr p ↦ is_empty-false (orders_with row.order_uid t.orders) p
    ]

abbrev strict : Driver
strict = record memory {
  exec = λ s t. if meets_keys s t then (apply s t, done) else (t, failed (other "breaks a key"));
}

strict_laws : DriverLaws strict
strict_laws = record {
  begin_lem = memory_laws.begin_lem;
  exec_lem = λ s tx ran. elim (Bool-cases (meets_keys s tx)) [
    | inl p ↦ rw p
    | inr p ↦ let no : failed (other "breaks a key") ≡ done = rw p at ran in absurd cc
  ];
  commit_lem = memory_laws.commit_lem;
  commit_failed = memory_laws.commit_failed;
  rollback_lem = memory_laws.rollback_lem;
  exec_user_lem = memory_laws.exec_user_lem;
  query_lem = memory_laws.query_lem;
  query_row_lem = memory_laws.query_row_lem;
  query_row_none = memory_laws.query_row_none;
  query_recent_lem = memory_laws.query_recent_lem;
}

strict-EnforcesKeys : EnforcesKeys strict
strict-EnforcesKeys = record {
  exec_meets = λ s tx ran. elim (Bool-cases (meets_keys s tx)) [
    | inl p ↦ meets_keys-MeetsKeys s tx p
    | inr p ↦ let no : failed (other "breaks a key") ≡ done = rw p at ran in absurd cc
  ];
}

-- the tables with the order of bob, and how they came to be
abbrev once : Tables
once = (add_order strict bob_order empty_tables).0

once-IsConsistent : IsConsistent once
once-IsConsistent =
    (add_order_enforced strict strict_laws strict-EnforcesKeys bob_order empty_tables
      empty_tables-IsConsistent).0

-- The order is added again.
add_order_enforced_example :
    IsConsistent (add_order strict bob_order once).0
    × Insertion
        (add_order strict bob_order once).1
        bob_order
        once
        (add_order strict bob_order once).0
add_order_enforced_example =
    add_order_enforced strict strict_laws strict-EnforcesKeys bob_order once once-IsConsistent
