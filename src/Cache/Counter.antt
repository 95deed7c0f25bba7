-- ===== src/Cache/Counter.antt =====
-- `Set` of cache.go and the metrics that it has no part in.
use gorder.Prelude.{
  ℕ, ◌≡◌, sym, ap, ◌∙◌, Option, none, some, arith, inl, inr, Option-cases, Bool-cases, ltb, length,
  subst,
}
use gorder.Prelude.Dict.{lookup, insert, delete as delete_key}
use gorder.Cache.{
  Cache, add_node, remove_node, move_to_head, pop_tail, evict, set_order, set, count, load, write,
  new_node, cached_one, dropped_one,
}
use gorder.Metrics.{Metrics}
use gorder.Models.{Order}

add_node-metrics : (n : ℕ) (c c' : Cache) → add_node n c ≡ some c' → c'.metrics ≡ c.metrics
unfolding add_node
add_node-metrics n c c' e = ground arith

remove_node-metrics : (n : ℕ) (c c' : Cache) → remove_node n c ≡ some c' → c'.metrics ≡ c.metrics
unfolding remove_node
remove_node-metrics n c c' e = ground arith

move_to_head-metrics : (n : ℕ) (c c' : Cache) → move_to_head n c ≡ some c' → c'.metrics ≡ c.metrics
unfolding move_to_head
move_to_head-metrics n c c' e = elim (Option-cases (remove_node n c)) [
  | inl p ↦ absurd (ground arith)
  | inr (d, p) ↦
      let added : add_node n d ≡ some c' = rw p at e in
      add_node-metrics n d c' added ∙ remove_node-metrics n c d p
]

pop_tail-metrics : (c c' : Cache) (n : ℕ) → pop_tail c ≡ some (n, c') → c'.metrics ≡ c.metrics
unfolding pop_tail
pop_tail-metrics c c' n e = elim (Option-cases (load c.prev c.tail)) [
  | inl p ↦ absurd (ground arith)
  | inr (res, p) ↦ elim (Option-cases (remove_node res c)) [
    | inl q ↦ absurd (ground arith)
    | inr (d, q) ↦
        let same : d ≡ c' = ground arith in
        ap (λ (x : Cache). x.metrics) (sym same) ∙ remove_node-metrics res c d q
  ]
]

-- A property of the metrics that the gauge has no part in.
module _ (P : Option Metrics → Type 0)
    (cached : (ms : Option Metrics)
      → P ms
      → P (elim ms [ none ↦ none | some m ↦ some (cached_one m) ]))
    (dropped : (ms : Option Metrics)
      → P ms
      → P (elim ms [ none ↦ none | some m ↦ some (dropped_one m) ])) where
  evict_keeps : (c c' : Cache) → evict c ≡ some c' → P c.metrics → P c'.metrics
  unfolding evict
  evict_keeps c c' e h = elim (Bool-cases (ltb c.capacity (length c.elems))) [
    | inr p ↦ let same : c ≡ c' = ground arith in subst (λ (x : Cache). P x.metrics) same h
    | inl p ↦ elim (Option-cases (pop_tail c)) [
      | inl q ↦ absurd (ground arith)
      | inr ((last, d), q) ↦
          let same : count dropped_one (record d { elems = delete_key (d.key last) d.elems }) ≡ c' =
            ground arith in
          subst (λ (x : Cache). P x.metrics) same
            (dropped d.metrics (subst (λ ms. P ms) (sym (pop_tail-metrics c d last q)) h))
    ]
  ]

  set_keeps : (o : Order) (c c' : Cache) → set (some o) c ≡ some c' → P c.metrics → P c'.metrics
  unfolding set set_order
  set_keeps o c c' e h = elim (Option-cases (lookup o.order_uid c.elems)) [
    | inr (a, p) ↦
        let value = write c.value a (some o) in
        let moved : move_to_head a (record c { value = value }) ≡ some c' = ground arith in
        subst (λ ms. P ms) (sym (move_to_head-metrics a (record c { value = value }) c' moved)) h
    | inl p ↦
        let start = record (new_node o c) { elems = insert o.order_uid c.fresh c.elems } in
        elim (Option-cases (add_node c.fresh start)) [
          | inl q ↦ absurd (ground arith)
          | inr (d, q) ↦
              let last : evict (count cached_one d) ≡ some c' = ground arith in
              evict_keeps (count cached_one d) c' last
                (cached d.metrics (subst (λ ms. P ms) (sym (add_node-metrics c.fresh start d q)) h))
        ]
  ]

-- The counter is looked at where there are metrics.
abbrev pub IsCounted : Option Metrics → ℕ → Type 0
IsCounted none n = Unit
IsCounted (some m) n = m.orders_processed ≡ n

pub IsCounted-count :
    (f : Metrics → Metrics) (ms : Option Metrics) (n k : ℕ)
    → ((m : Metrics) → m.orders_processed ≡ n → (f m).orders_processed ≡ k)
    → IsCounted ms n
    → IsCounted (elim ms [ none ↦ none | some m ↦ some (f m) ]) k
IsCounted-count f none n k h c = tt
IsCounted-count f (some m) n k h c = h m c

pub set-IsCounted :
    (n : ℕ) (o : Order) (c c' : Cache)
    → set (some o) c ≡ some c'
    → IsCounted c.metrics n
    → IsCounted c'.metrics n
set-IsCounted n =
    set_keeps (λ ms. IsCounted ms n) (λ ms. IsCounted-count cached_one ms n n (λ m k. k))
      (λ ms. IsCounted-count dropped_one ms n n (λ m k. k))

-- There are metrics.
abbrev pub IsMeasured : Option Metrics → Type 0
IsMeasured none = ⊥
IsMeasured (some m) = Unit

IsMeasured-count :
    (f : Metrics → Metrics) (ms : Option Metrics)
    → IsMeasured ms
    → IsMeasured (elim ms [ none ↦ none | some m ↦ some (f m) ])
IsMeasured-count f none h = h
IsMeasured-count f (some m) h = tt

pub set-IsMeasured :
    (o : Order) (c c' : Cache)
    → set (some o) c ≡ some c'
    → IsMeasured c.metrics
    → IsMeasured c'.metrics
set-IsMeasured = set_keeps IsMeasured (IsMeasured-count cached_one) (IsMeasured-count dropped_one)
