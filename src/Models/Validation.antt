-- ===== src/Models/Validation.antt =====
-- The `validate` tags of internal/models/models.go, and `LoadOrderFromFile`, which checks them. The
-- validator (go-playground/validator) is a parameter; its laws are the documented meaning of the tags.
use Prim.Native.String
use text.Mathlib.TextEquality.{eq_iff}
use gorder.Prelude.{
  ℕ, ◌≤◌, ◌≡◌, ◌↔◌, ◌⊎◌, String, List, [], ◌∷◌, ◌++◌, Bool, true, false, not, ◌||◌, ◌&&◌, ◌==◌, leb,
  str_eq, length, In, inl, inr, All, arith, Bool-cases, sym, subst,
}
use gorder.Prelude.{Each, IsDigit, IsAlphanum}
use gorder.Prelude.Result.{Result, ok, err, Status, done, failed}
use gorder.Models.{Order, Delivery, Payment, Item}

pub data Tag : Type 0 where
  required : Tag
  omitempty : Tag
  dive : Tag
  max : ℕ → Tag
  min : ℕ → Tag
  gte : ℕ → Tag
  uuid4 : Tag
  alphanum : Tag
  e164 : Tag
  email : Tag

-- What the validator looks at: of a slice its length, and a nested struct by its own fields.
pub data Value : Type 0 where
  string : String → Value
  number : ℕ → Value
  time : ℕ → Value
  slice : ℕ → Value
  structure : Value

abbrev pub Field : Type 0
Field = Value × List Tag

abbrev pub delivery_fields : Delivery → List Field
delivery_fields d =
    (string d.name, required ∷ max 100 ∷ [])
    ∷ (string d.phone, required ∷ e164 ∷ [])
    ∷ (string d.zip, required ∷ max 10 ∷ [])
    ∷ (string d.city, required ∷ max 100 ∷ [])
    ∷ (string d.address, required ∷ max 100 ∷ [])
    ∷ (string d.region, required ∷ max 100 ∷ [])
    ∷ (string d.email, required ∷ email ∷ [])
    ∷ []

abbrev pub payment_fields : Payment → List Field
payment_fields p =
    (string p.transaction, required ∷ uuid4 ∷ [])
    ∷ (string p.request_id, omitempty ∷ max 50 ∷ [])
    ∷ (string p.currency, required ∷ max 3 ∷ [])
    ∷ (string p.provider, required ∷ max 50 ∷ [])
    ∷ (number p.amount, required ∷ min 1 ∷ [])
    ∷ (number p.payment_dt, required ∷ [])
    ∷ (string p.bank, required ∷ alphanum ∷ max 20 ∷ [])
    ∷ (number p.delivery_cost, gte 0 ∷ [])
    ∷ (number p.goods_total, gte 0 ∷ [])
    ∷ (number p.custom_fee, gte 0 ∷ [])
    ∷ []

abbrev pub item_fields : Item → List Field
item_fields i =
    (number i.chrt_id, required ∷ min 1 ∷ [])
    ∷ (string i.track_number, required ∷ alphanum ∷ max 50 ∷ [])
    ∷ (number i.price, required ∷ min 1 ∷ [])
    ∷ (string i.rid, required ∷ alphanum ∷ max 50 ∷ [])
    ∷ (string i.name, required ∷ max 50 ∷ [])
    ∷ (number i.sale, gte 0 ∷ [])
    ∷ (string i.size, required ∷ alphanum ∷ max 10 ∷ [])
    ∷ (number i.total_price, gte 0 ∷ [])
    ∷ (number i.nm_id, required ∷ min 1 ∷ [])
    ∷ (string i.brand, required ∷ max 50 ∷ [])
    ∷ (number i.status, gte 0 ∷ max 999 ∷ [])
    ∷ []

abbrev pub items_fields : List Item → List Field
items_fields [] = []
items_fields (i ∷ items) = item_fields i ++ items_fields items

abbrev pub order_fields : Order → List Field
order_fields o =
    (string o.order_uid, required ∷ uuid4 ∷ [])
      ∷ (string o.track_number, required ∷ alphanum ∷ max 50 ∷ [])
      ∷ (string o.entry, required ∷ alphanum ∷ max 10 ∷ [])
      ∷ (string o.locale, required ∷ max 2 ∷ [])
      ∷ (string o.internal_signature, omitempty ∷ alphanum ∷ max 100 ∷ [])
      ∷ (string o.customer_id, required ∷ alphanum ∷ max 50 ∷ [])
      ∷ (string o.delivery_service, required ∷ alphanum ∷ max 50 ∷ [])
      ∷ (string o.shard_key, required ∷ alphanum ∷ max 10 ∷ [])
      ∷ (number o.smid, required ∷ min 1 ∷ [])
      ∷ (time o.date_created, required ∷ [])
      ∷ (string o.oof_shard, required ∷ alphanum ∷ max 10 ∷ [])
      ∷ (structure, required ∷ [])
      ∷ delivery_fields o.delivery
    ++ (structure, required ∷ []) ∷ payment_fields o.payment
    ++ (slice (length o.items), required ∷ min 1 ∷ dive ∷ []) ∷ items_fields o.items

-- A tag on a value, and `Struct` on the fields of a struct.
pub record Validator : Type 0 where
  pub holds : Tag → Value → Bool
  pub struct : List Field → Status String

-- The tags from left to right; `omitempty` ends them where the value is not set.
abbrev pub passes : (Tag → Value → Bool) → List Tag → Value → Bool
passes holds [] x = true
passes holds (omitempty ∷ tags) x = not (holds required x) || passes holds tags x
passes holds (tag ∷ tags) x = holds tag x && passes holds tags x

-- The documented meaning of the tags. A nested struct is checked by its fields, and `dive` by those
-- of the elements.
pub record ValidatorLaws (v : Validator) : Type 0 where
  pub struct_iff :
      (fs : List Field)
      → (v.struct fs ≡ done) ↔ All (λ (f : Field). passes v.holds f.1 f.0 ≡ true) fs
  pub required_text : (s : String) → v.holds required (string s) ≡ not (str_eq s "")
  pub required_number : (n : ℕ) → v.holds required (number n) ≡ not (n == 0)
  pub required_time : (t : ℕ) → v.holds required (time t) ≡ not (t == 0)
  pub required_slice : (n : ℕ) → 1 ≤ n → v.holds required (slice n) ≡ true
  pub required_structure : v.holds required structure ≡ true
  pub max_text : (n : ℕ) (s : String) → v.holds (max n) (string s) ≡ leb (String.count s) n
  pub max_number : (n m : ℕ) → v.holds (max n) (number m) ≡ leb m n
  pub min_number : (n m : ℕ) → v.holds (min n) (number m) ≡ leb n m
  pub min_slice : (n m : ℕ) → v.holds (min n) (slice m) ≡ leb n m
  pub gte_number : (n m : ℕ) → v.holds (gte n) (number m) ≡ leb n m
  pub dive_slice : (n : ℕ) → v.holds dive (slice n) ≡ true
  -- 32 hexadecimal digits in five groups
  pub uuid4_count : (s : String) → v.holds uuid4 (string s) ≡ true → String.count s ≡ 36
  -- a plus sign and 7 to 15 digits; 14 are accepted whichever comes first
  pub e164_count :
      (s : String) → v.holds e164 (string s) ≡ true → (8 ≤ String.count s) × (String.count s ≤ 16)
  pub e164_accepts :
      (s : String)
      → Each IsDigit s
      → 7 ≤ String.count s
      → String.count s ≤ 14
      → v.holds e164 (string (String.◌++◌ "+" s)) ≡ true
  pub alphanum_accepts :
      (s : String) → Each IsAlphanum s → 1 ≤ String.count s → v.holds alphanum (string s) ≡ true
  pub email_accepts :
      (s t : String)
      → Each IsAlphanum s
      → Each IsAlphanum t
      → 1 ≤ String.count s
      → String.count s ≤ 64
      → 1 ≤ String.count t
      → String.count t ≤ 63
      → v.holds email (string (String.◌++◌ s (String.◌++◌ "@" (String.◌++◌ t ".com")))) ≡ true

module _ (read_file : String → Result String String) (unmarshal : String → Result String Order)
    (v : Validator) where
  -- `os.ReadFile`, `json.Unmarshal` and `Struct`, each with its error
  unfoldable pub load_order_from_file : String → Result String Order
  load_order_from_file path = elim (read_file path) [
    | err e ↦ err (String.◌++◌ (String.◌++◌ "failed to read file " path) (String.◌++◌ ": " e))
    | ok bytes ↦ elim (unmarshal bytes) [
      | err e ↦ err (String.◌++◌ "failed to unmarshal JSON: " e)
      | ok order ↦ elim (v.struct (order_fields order)) [
        | failed e ↦ err (String.◌++◌ "failed to validate order: " e)
        | done ↦ ok order
      ]
    ]
  ]

and_true : (a b : Bool) → (a && b) ≡ true → b ≡ true
and_true true b h = h
and_true false b h = absurd (ground arith)

module _ (v : Validator) (laws : ValidatorLaws v) where
  -- Tags that pass leave the later ones to pass, unless the text is empty and may be.
  passes_cons :
      (tag : Tag) (tags : List Tag) (s : String)
      → passes v.holds (tag ∷ tags) (string s) ≡ true
      → (passes v.holds tags (string s) ≡ true) ⊎ (s ≡ "")
  passes_cons omitempty tags s h = elim (Bool-cases (str_eq s "")) [
    | inl e ↦ inr ((eq_iff s "").0 e)
    | inr e ↦ inl (ground (arith, laws.required_text s))
  ]
  passes_cons required tags s h = inl (and_true _ _ h)
  passes_cons dive tags s h = inl (and_true _ _ h)
  passes_cons (max n) tags s h = inl (and_true _ _ h)
  passes_cons (min n) tags s h = inl (and_true _ _ h)
  passes_cons (gte n) tags s h = inl (and_true _ _ h)
  passes_cons uuid4 tags s h = inl (and_true _ _ h)
  passes_cons alphanum tags s h = inl (and_true _ _ h)
  passes_cons e164 tags s h = inl (and_true _ _ h)
  passes_cons email tags s h = inl (and_true _ _ h)

  max_first :
      (tags : List Tag) (s : String) (n : ℕ)
      → passes v.holds (max n ∷ tags) (string s) ≡ true
      → String.count s ≤ n
  max_first tags s n h = ground (arith, laws.max_text n s)

  -- A text that passes its tags is no longer than a `max` among them, set or not.
  pub passes-count :
      (tags : List Tag) (s : String) (n : ℕ)
      → In (max n) tags
      → passes v.holds tags (string s) ≡ true
      → String.count s ≤ n
  passes-count [] s n i h = absurd i
  passes-count (tag ∷ tags) s n (inl e) h =
      max_first tags s n (subst (λ t. passes v.holds (t ∷ tags) (string s) ≡ true) (sym e) h)
  passes-count (tag ∷ tags) s n (inr i) h = elim (passes_cons tag tags s h) [
    | inl rest ↦ passes-count tags s n i rest
    | inr empty ↦ subst (λ t. String.count t ≤ n) (sym empty) (omega arith)
  ]
