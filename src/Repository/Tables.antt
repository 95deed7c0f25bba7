-- ===== src/Repository/Tables.antt =====
-- The tables of migrations/000001_create_tables.up.sql and 000002, with the columns that
-- repository.go names, and what its SQL texts say of them.
use gorder.Prelude.{
  ℕ, String, List, [], ◌∷◌, ◌++◌, map, Option, none, some, Bool, true, false, ite, if_pos, if_neg,
  string_discrete, ◌≡◌, refl, ap, ◌∙◌, In, inl, inr, arith,
}

pub record OrderRow : Type 0 where
  pub order_uid : String
  pub track_number : String
  pub entry : String
  pub locale : String
  pub internal_signature : String
  pub customer_id : String
  pub delivery_service : String
  pub shard_key : String
  pub smid : ℕ
  pub date_created : ℕ
  pub oof_shard : String

pub record DeliveryRow : Type 0 where
  pub order_uid : String
  pub name : String
  pub phone : String
  pub zip : String
  pub city : String
  pub address : String
  pub region : String
  pub email : String

pub record PaymentRow : Type 0 where
  pub order_uid : String
  pub transaction : String
  pub request_id : String
  pub currency : String
  pub provider : String
  pub amount : ℕ
  pub payment_dt : ℕ
  pub bank : String
  pub delivery_cost : ℕ
  pub goods_total : ℕ
  pub custom_fee : ℕ

pub record ItemRow : Type 0 where
  pub order_uid : String
  pub chrt_id : ℕ
  pub track_number : String
  pub price : ℕ
  pub rid : String
  pub name : String
  pub sale : ℕ
  pub size : String
  pub total_price : ℕ
  pub nm_id : ℕ
  pub brand : String
  pub status : ℕ

pub record UserRow : Type 0 where
  pub username : String
  pub password_hash : String
  pub role : String

pub record Tables : Type 0 where
  pub orders : List OrderRow
  pub delivery : List DeliveryRow
  pub payment : List PaymentRow
  pub item : List ItemRow
  pub users : List (ℕ × UserRow)

-- `WHERE column = $1`
unfoldable pub where_eq : {A : Type 0} → (A → String) → String → List A → List A
where_eq column v [] = []
where_eq column v (row ∷ rows) =
    let rest = where_eq column v rows in ite (string_discrete (column row) v) (row ∷ rest) rest

abbrev pub orders_with : String → List OrderRow → List OrderRow
orders_with = where_eq (λ (o : OrderRow). o.order_uid)

abbrev pub orders_of : String → List OrderRow → List OrderRow
orders_of = where_eq (λ (o : OrderRow). o.customer_id)

abbrev pub deliveries_with : String → List DeliveryRow → List DeliveryRow
deliveries_with = where_eq (λ (d : DeliveryRow). d.order_uid)

abbrev pub payments_with : String → List PaymentRow → List PaymentRow
payments_with = where_eq (λ (p : PaymentRow). p.order_uid)

abbrev pub items_with : String → List ItemRow → List ItemRow
items_with = where_eq (λ (i : ItemRow). i.order_uid)

abbrev pub users_with : String → List (ℕ × UserRow) → List (ℕ × UserRow)
users_with = where_eq (λ (u : ℕ × UserRow). (u.1).username)

abbrev pub uid_of : OrderRow → String
uid_of o = o.order_uid

-- A row of the two LEFT JOINs; `none` stands for the NULLs of a missing partner.
pub record JoinRow : Type 0 where
  pub order : OrderRow
  pub delivery : Option DeliveryRow
  pub payment : Option PaymentRow

-- A LEFT JOIN keeps a row without a partner once.
abbrev pub or_null {ℓ} : {A : Type ℓ} → List A → List (Option A)
or_null [] = none ∷ []
or_null (x ∷ xs) = map some (x ∷ xs)

unfoldable pub join_payments :
    OrderRow → Option DeliveryRow → List (Option PaymentRow) → List JoinRow
join_payments o d [] = []
join_payments o d (p ∷ ps) = record { order = o; delivery = d; payment = p } ∷ join_payments o d ps

unfoldable pub join_deliveries :
    OrderRow → List (Option DeliveryRow) → List (Option PaymentRow) → List JoinRow
join_deliveries o [] ps = []
join_deliveries o (d ∷ ds) ps = join_payments o d ps ++ join_deliveries o ds ps

unfoldable pub left_join : Tables → List OrderRow → List JoinRow
left_join t [] = []
left_join t (o ∷ os) =
    join_deliveries o (or_null (deliveries_with o.order_uid t.delivery))
      (or_null (payments_with o.order_uid t.payment))
    ++ left_join t os

-- the query of `GetOrderByUID`, and that of `GetOrderByUIDAndUser`
unfoldable pub order_query : String → Tables → List JoinRow
order_query uid t = left_join t (orders_with uid t.orders)

unfoldable pub order_user_query : String → String → Tables → List JoinRow
order_user_query uid user t = left_join t (orders_of user (orders_with uid t.orders))

unfoldable pub items_query : String → Tables → List ItemRow
items_query uid t = items_with uid t.item

-- `SELECT EXISTS(SELECT 1 FROM orders WHERE order_uid = $1)`
unfoldable pub exists_query : String → Tables → List Bool
exists_query uid t = elim (orders_with uid t.orders) [ [] ↦ false ∷ [] | _ ∷ _ ↦ true ∷ [] ]

unfoldable pub uids_query : Tables → List String
uids_query t = map uid_of t.orders

unfoldable pub user_uids_query : String → Tables → List String
user_uids_query user t = map uid_of (orders_of user t.orders)

unfoldable pub user_query : String → Tables → List (ℕ × UserRow)
user_query name t = users_with name t.users

-- The INSERT statements.
pub data Statement : Type 0 where
  insert_order : OrderRow → Statement
  insert_delivery : DeliveryRow → Statement
  insert_payment : PaymentRow → Statement
  insert_item : ItemRow → Statement

unfoldable pub apply : Statement → Tables → Tables
apply (insert_order o) t = record t { orders = t.orders ++ o ∷ [] }
apply (insert_delivery d) t = record t { delivery = t.delivery ++ d ∷ [] }
apply (insert_payment p) t = record t { payment = t.payment ++ p ∷ [] }
apply (insert_item i) t = record t { item = t.item ++ i ∷ [] }

unfoldable pub apply_all : List Statement → Tables → Tables
apply_all [] t = t
apply_all (s ∷ ss) t = apply_all ss (apply s t)

pub where_eq-append :
    {A : Type 0} (column : A → String) (v : String) (xs ys : List A)
    → where_eq column v (xs ++ ys) ≡ where_eq column v xs ++ where_eq column v ys
unfolding where_eq
where_eq-append column v [] ys = refl
where_eq-append column v (x ∷ xs) ys = ground (arith, where_eq-append column v xs ys)

-- A row of the result stands in the table and has the value.
pub In-where_eq :
    {A : Type 0} (column : A → String) (v : String) (row : A) (rows : List A)
    → In row (where_eq column v rows)
    → In row rows × (column row ≡ v)
unfolding where_eq
In-where_eq column v row [] i = absurd i
In-where_eq column v row (x ∷ xs) i = elim (string_discrete (column x) v) [
  | yes p ↦
      let k : In row (x ∷ where_eq column v xs) = rw (if_pos _ p) at i in
      elim k [
        | inl e ↦ (inl e, ap column e ∙ p)
        | inr j ↦ let (m, e) = In-where_eq column v row xs j in (inr m, e)
      ]
  | no p ↦ let (m, e) = In-where_eq column v row xs (rw (if_neg _ p) at i) in (inr m, e)
]
