-- ===== src/Tests/Storage.antt =====
-- The repository over a database in memory, and the consumer that fills it.
use gorder.Prelude.{All, arith, String, ◌≡◌, refl, none, some, List, [], ◌∷◌, map, string_discrete}
use mathlib.Core.List.{Perm}
use gorder.Prelude.Result.{Result, ok, err, done}
use gorder.Models.{Order, Item}
use gorder.Cache.{new_cache}
use gorder.Handler.Orders.{App}
use gorder.Consumer.{ReadError, canceled, read_failed, Progress, consume}
use gorder.Consumer.Received.{View, Shows, ShowsAll, Receives, consume-ShowsAll}
use gorder.Repository.Tables.{
  Tables, apply, apply_all, order_user_query, where_eq, order_query, items_query, left_join,
  join_deliveries, join_payments,
}
use gorder.Repository.Insert.{
  add_order, add_order_if_not_exists, insert, insert_items, inserts, end_tx,
}
use gorder.Repository.Select.{
  get_order_by_uid, get_order_by_uid_and_user, read_items, scan_row, scanned_item,
}
use gorder.Repository.Atomic.{statements, Outcome, add_order_atomic}
use gorder.Repository.RoundTrip.{
  added, IsFresh, stored, stored_item, joined, item_rows, get_order_by_uid-add_order,
}
use gorder.Repository.Success.{IsUp, add_order_if_not_exists-done}
use gorder.Repository.Widths.{FitsColumns}
use gorder.Repository.Columns.{IsSmall, validated-FitsColumns}
use gorder.Tests.Validator.{plain_validator, plain_validator_laws, valid_order}
use gorder.Repository.Ownership.{IsStored, get_order_by_uid_and_user-IsStored}
use gorder.Repository.Unique.{IsConsistent, Insertion, add_order_if_not_exists-IsConsistent}
use gorder.Repository.Interface.{repository}
use gorder.Tests.Samples.{
  alice_order, bob_order, empty_tables, exists_query-first, memory, memory_laws, stocked,
  plain_codec, app-Fits,
}

add_order_atomic_example :
    Outcome
      (add_order memory alice_order stocked).1
      stocked
      (apply_all (statements alice_order) stocked)
      (add_order memory alice_order stocked).0
add_order_atomic_example = add_order_atomic memory memory_laws alice_order stocked

pub memory-IsUp : IsUp memory
memory-IsUp = record {
  begins = λ db. (db, refl);
  executes = λ s tx _ _. refl;
  commits = λ tx db _. refl;
  looks_up = exists_query-first;
}

pub valid_order-IsSmall : IsSmall valid_order
valid_order-IsSmall = ground arith

validated-FitsColumns_example : All FitsColumns (statements valid_order)
validated-FitsColumns_example =
    validated-FitsColumns plain_validator plain_validator_laws valid_order refl valid_order-IsSmall

empty_tables-IsFresh : (uid : String) → IsFresh uid empty_tables
unfolding where_eq
empty_tables-IsFresh uid = record {
  no_order = refl;
  no_delivery = refl;
  no_payment = refl;
  no_item = refl;
}

pub empty_tables-IsConsistent : IsConsistent empty_tables
empty_tables-IsConsistent = record { distinct = tt; owned = λ uid _. empty_tables-IsFresh uid }

add_order_if_not_exists-done_example :
    ((add_order_if_not_exists memory valid_order empty_tables).1 ≡ done)
    × ((add_order_if_not_exists memory valid_order empty_tables).0 ≡ added valid_order empty_tables)
unfolding where_eq
add_order_if_not_exists-done_example =
    add_order_if_not_exists-done memory memory_laws memory-IsUp valid_order empty_tables
      (validated-FitsColumns plain_validator plain_validator_laws valid_order refl
        valid_order-IsSmall)
      empty_tables-IsConsistent refl

add_order_if_not_exists-IsConsistent_example :
    IsConsistent (add_order_if_not_exists memory alice_order empty_tables).0
    × Insertion
        (add_order_if_not_exists memory alice_order empty_tables).1
        alice_order
        empty_tables
        (add_order_if_not_exists memory alice_order empty_tables).0
add_order_if_not_exists-IsConsistent_example =
    add_order_if_not_exists-IsConsistent memory memory_laws alice_order empty_tables
      empty_tables-IsConsistent

alice_added : (add_order memory alice_order empty_tables).1 ≡ done
unfolding add_order inserts insert insert_items end_tx
alice_added = refl

alice_row :
    memory.query_row (order_query "a1") (add_order memory alice_order empty_tables).0
    ≡ ok (joined alice_order)
unfolding add_order inserts insert insert_items end_tx order_query where_eq left_join
    join_deliveries join_payments string_discrete apply
alice_row = refl

alice_items :
    memory.query (items_query "a1") (add_order memory alice_order empty_tables).0
    ≡ ok (item_rows "a1" alice_order.items, done)
unfolding add_order inserts insert insert_items end_tx items_query where_eq string_discrete apply
alice_items = refl

get_order_by_uid-add_order_example :
    (items : List Item) × Perm items (map stored_item alice_order.items)
    × (get_order_by_uid memory "a1" (add_order memory alice_order empty_tables).0
        ≡ ok (stored alice_order items))
get_order_by_uid-add_order_example =
    get_order_by_uid-add_order memory memory_laws alice_order empty_tables
      (empty_tables-IsFresh "a1") alice_added (joined alice_order)
      (item_rows "a1" alice_order.items) alice_row alice_items

abbrev pub read_bob : Order
read_bob = stored bob_order (map stored_item bob_order.items)

pub bob_found : get_order_by_uid memory "b1" stocked ≡ ok read_bob
unfolding get_order_by_uid read_items scan_row order_query items_query where_eq left_join
    join_deliveries join_payments string_discrete scanned_item
bob_found = refl

pub bob_found_by_user : get_order_by_uid_and_user memory "b1" "bob" stocked ≡ ok read_bob
unfolding get_order_by_uid_and_user read_items scan_row order_user_query items_query where_eq
    left_join join_deliveries join_payments string_discrete scanned_item
bob_found_by_user = refl

get_order_by_uid_and_user-IsStored_example :
    (read_bob.customer_id ≡ "bob") × (read_bob.order_uid ≡ "b1") × IsStored stocked "b1" "bob"
get_order_by_uid_and_user-IsStored_example =
    get_order_by_uid_and_user-IsStored memory memory_laws "b1" "bob" stocked read_bob
      bob_found_by_user

-- An order, text that is none, an error of the broker, the end of the context, and one more.
abbrev pub reads : List (Result ReadError String)
reads = ok "a1" ∷ ok "{" ∷ err (read_failed "broker not available") ∷ err canceled ∷ ok "a1" ∷ []

abbrev pub empty_app : App Tables
empty_app = record { db = empty_tables; cache = new_cache 2 none }

abbrev empty_view : View Tables
empty_view = record { db = empty_tables; orders = []; saved = 0 }

empty_app-Shows : Shows 2 empty_app empty_view
empty_app-Shows = record { db_lem = refl; fits = app-Fits; counted = tt }

consume-ShowsAll_example :
    (p : Progress (App Tables)) × (q : Progress (View Tables)) × (consume
        (repository memory)
        plain_codec
        reads
        empty_app
      ≡ some p)
    × Receives (repository memory) plain_codec 2 reads empty_view q
    × ShowsAll 2 p q
consume-ShowsAll_example =
    consume-ShowsAll (repository memory) plain_codec 2 reads empty_app empty_view empty_app-Shows
