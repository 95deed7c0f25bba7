-- ===== src/Cache.antt =====
-- internal/cache/cache.go: the LRU cache, a Go map from order UIDs to the nodes of a doubly linked
-- list between two sentinels. A pointer is a number, `nil` is 0, and each field of `cacheNode` is
-- a function from pointers. A method returns the new state beside its result, or `none` where the
-- Go code would dereference a nil pointer. The mutex makes each method one step.
pub mod Links
pub mod Ring
pub mod Lru
pub mod Refine
pub mod Read
pub mod Evict
pub mod Store
pub mod Trace
pub mod Counter
pub mod Delete
use gorder.Prelude.{
  ℕ, suc, String, Option, none, some, List, [], Bool, true, false, ltb, ◌==◌, if◌then◌else◌, ◌>>=◌,
  length,
}
use gorder.Prelude.Dict.{lookup, insert, delete as delete_key}
use gorder.Prelude.Int.{add_one, sub_one}
use gorder.Metrics.{Metrics}
use gorder.Models.{Order}

abbrev pub nil : ℕ
nil = 0

pub record Cache : Type 0 where
  pub capacity : ℕ
  pub elems : List (String × ℕ)
  pub head : ℕ
  pub tail : ℕ
  pub key : ℕ → String
  pub value : ℕ → Option Order
  pub prev : ℕ → ℕ
  pub next : ℕ → ℕ
  -- the next unused address
  pub fresh : ℕ
  pub metrics : Option Metrics

abbrev pub write {ℓ} : {A : Type ℓ} → (ℕ → A) → ℕ → A → ℕ → A
write f p v q = if q == p then v else f q

-- `p.field`, and `p.field = v`: a panic at nil.
abbrev pub load {ℓ} : {A : Type ℓ} → (ℕ → A) → ℕ → Option A
load f p = if p == nil then none else some (f p)

abbrev pub store {ℓ} : {A : Type ℓ} → ℕ → A → (ℕ → A) → Option (ℕ → A)
store p v f = if p == nil then none else some (write f p v)

abbrev pub new_cache : ℕ → Option Metrics → Cache
new_cache capacity metrics = record {
  capacity = capacity;
  elems = [];
  head = 1;
  tail = 2;
  key = λ _. "";
  value = λ _. none;
  prev = write (λ _. nil) 2 1;
  next = write (λ _. nil) 1 2;
  fresh = 3;
  metrics = metrics;
}

unfoldable pub add_node : ℕ → Cache → Option Cache
add_node n c = do
  prev ← store n c.head c.prev
  first ← load c.next c.head
  next ← store n first c.next
  second ← load next c.head
  prev' ← store second n prev
  next' ← store c.head n next
  some (record c { prev = prev'; next = next' })

unfoldable pub remove_node : ℕ → Cache → Option Cache
remove_node n c = do
  before ← load c.prev n
  after ← load c.next n
  next ← store before after c.next
  prev ← store after before c.prev
  some (record c { prev = prev; next = next })

unfoldable pub move_to_head : ℕ → Cache → Option Cache
move_to_head n c = do c' ← remove_node n c; add_node n c'

unfoldable pub pop_tail : Cache → Option (ℕ × Cache)
pop_tail c = do res ← load c.prev c.tail; c' ← remove_node res c; some (res, c')

-- `if c.metrics != nil { … }`
abbrev pub count : (Metrics → Metrics) → Cache → Cache
count f c = record c { metrics = elim c.metrics [ none ↦ none | some m ↦ some (f m) ] }

abbrev pub cached_one : Metrics → Metrics
cached_one m = record m { orders_in_cache = add_one m.orders_in_cache }

abbrev pub dropped_one : Metrics → Metrics
dropped_one m = record m { orders_in_cache = sub_one m.orders_in_cache }

-- `n := &cacheNode{key: …, value: …}`
abbrev pub new_node : Order → Cache → Cache
new_node order c = record c {
  key = write c.key c.fresh order.order_uid;
  value = write c.value c.fresh (some order);
  prev = write c.prev c.fresh nil;
  next = write c.next c.fresh nil;
  fresh = suc c.fresh;
}

-- the last `if` of `Set`
unfoldable pub evict : Cache → Option Cache
evict c =
    if ltb c.capacity (length c.elems)
    then (do
      (last, c') ← pop_tail c
      some (count dropped_one (record c' { elems = delete_key (c'.key last) c'.elems })))
    else some c

-- `Set` at a pointer that is not nil
unfoldable pub set_order : Order → Cache → Option Cache
set_order order c = elim (lookup order.order_uid c.elems) [
  | some n ↦ do value ← store n (some order) c.value; move_to_head n (record c { value = value })
  | none ↦ do
    let elems = insert order.order_uid c.fresh c.elems
    c' ← add_node c.fresh (record (new_node order c) { elems = elems })
    evict (count cached_one c')
]

unfoldable pub set : Option Order → Cache → Option Cache
set none c = some c
set (some order) c = set_order order c

unfoldable pub get : String → Cache → Option (Cache × Option Order × Bool)
get key c = elim (lookup key c.elems) [
  | some n ↦ do
    c' ← move_to_head n c
    value ← load c'.value n
    some (count (λ m. record m { cache_hits = suc m.cache_hits }) c', value, true)
  | none ↦ some (count (λ m. record m { cache_misses = suc m.cache_misses }) c, none, false)
]

unfoldable pub delete : String → Cache → Cache
delete key c = count dropped_one (record c { elems = delete_key key c.elems })

unfoldable pub size : Cache → ℕ
size c = length c.elems
