-- ===== src/Handler/Access.antt =====
-- Which orders the order endpoints of handler.go hand out, and the shared cache under them.
use gorder.Prelude.{
  ℕ, String, ◌≡◌, ◌⊎◌, refl, none, some, List, [], ◌∷◌, arith, inl, inr, str_eq, Option-cases,
  Bool-cases,
}
use text.Mathlib.TextEquality.{eq_iff}
use gorder.Prelude.Dict.{lookup}
use gorder.Prelude.Result.{Result, ok, err}
use gorder.Http.{Claim, str, Ctx, order, Effect, json, Outcome, reply}
use gorder.Models.{Order}
use gorder.Cache.{Cache}
use gorder.Cache.Lru.{find, touch, put}
use gorder.Cache.Trace.{Fits, set-Fits, get-Fits}
use gorder.Repository.Errors.{RepoError, is_no_rows}
use gorder.Repository.Interface.{Interface, ReadLaws}
use gorder.Handler.Orders.{
  App, View, api, with_cached, answer, cached_for, stored_for, cache_and_reply,
  get_order_by_uid_handle, get_user_order_by_uid_handle,
}

-- An order in the cache has the UID under which it is found.
pub find-uid : (k : String) (os : List Order) (o : Order) → find k os ≡ some o → o.order_uid ≡ k
unfolding find
find-uid k [] o e = cc
find-uid k (x ∷ os) o e = ground (arith, find-uid k os o)

-- One reply was written, the database is as it was, and the cache is sound: the reply is an order
-- with the property `P`, or a failure.
pub record IsAnswered {Db : Type 0} (capacity : ℕ) (view : View) (P : Order → Type 0) (db : Db)
    (out : Outcome (App Db)) : Type 0 where
  pub state : App Db
  pub effect : Effect
  pub orders : List Order
  pub ran : out ≡ reply effect state
  pub same_db : state.db ≡ db
  pub fits : Fits capacity state.cache orders
  pub kind :
      ((o : Order) × (effect ≡ view.success (order o)) × P o)
      ⊎ ((code : ℕ) × (message : String) × (effect ≡ view.failure code message))

module _ {Db : Type 0} (r : Interface Db) (capacity : ℕ) (view : View) (P : Order → Type 0)
    (s : App Db) (os : List Order) (fits : Fits capacity s.cache os) where
  pub failed_reply :
      (code : ℕ) (message : String)
      → IsAnswered capacity view P s.db (reply (view.failure code message) s)
  failed_reply code message = record {
    state = s;
    effect = view.failure code message;
    orders = os;
    ran = refl;
    same_db = refl;
    fits = fits;
    kind = inr (code, message, refl);
  }

  order_reply :
      (o : Order) → P o → IsAnswered capacity view P s.db (reply (view.success (order o)) s)
  order_reply o p = record {
    state = s;
    effect = view.success (order o);
    orders = os;
    ran = refl;
    same_db = refl;
    fits = fits;
    kind = inl (o, refl, p);
  }

  pub answer-IsAnswered :
      (missing : String) (result : Result RepoError Order)
      → ((o : Order) → result ≡ ok o → P o)
      → IsAnswered capacity view P s.db (answer r view missing result s)
  unfolding answer
  answer-IsAnswered missing (ok o) p =
      let (c', stored, fits') = set-Fits capacity fits o in
      record {
        state = record s { cache = c' };
        effect = view.success (order o);
        orders = put capacity o os;
        ran = rw (answer, cache_and_reply, stored);
        same_db = refl;
        fits = fits';
        kind = inl (o, refl, p o refl);
      }
  answer-IsAnswered missing (err e) p = elim (Bool-cases (is_no_rows e)) [
    | inl absent ↦ rw (answer, absent) (failed_reply 404 missing)
    | inr failing ↦ rw (answer, failing) (failed_reply 500 "Internal server error")
  ]

  pub cached_for-IsAnswered :
      (name : String) (o : Order)
      → (o.customer_id ≡ name → P o)
      → IsAnswered capacity view P s.db (cached_for r view (some (str name)) o s)
  unfolding cached_for
  cached_for-IsAnswered name o p = elim (Bool-cases (str_eq o.customer_id name)) [
    | inl owned ↦ rw owned (order_reply o (p ((eq_iff o.customer_id name).0 owned)))
    | inr foreign ↦ rw foreign (failed_reply 404 "Cached order doesn't belong to user")
  ]

module _ {Db : Type 0} (r : Interface Db) (capacity : ℕ) (view : View) (P : Order → Type 0)
    (s : App Db) (os : List Order) (fits : Fits capacity s.cache os) where
  -- The two ways of a lookup in the cache.
  pub with_cached-IsAnswered :
      (uid : String) (hit : Order → App Db → Outcome (App Db)) (miss : App Db → Outcome (App Db))
      → ((c : Cache) (os' : List Order) (o : Order)
          → Fits capacity c os'
          → find uid os ≡ some o
          → IsAnswered capacity view P s.db (hit o (record s { cache = c })))
      → ((c : Cache) (os' : List Order)
          → Fits capacity c os'
          → find uid os ≡ none
          → IsAnswered capacity view P s.db (miss (record s { cache = c })))
      → IsAnswered capacity view P s.db (with_cached r uid s hit miss)
  with_cached-IsAnswered uid hit miss on_hit on_miss =
      let (c', looked, fits') = get-Fits capacity fits uid in
      elim (Option-cases (find uid os)) [
        | inl none_found ↦
            rw (with_cached, looked, none_found) (on_miss c' (touch uid os) fits' none_found)
        | inr (o, found) ↦ rw (with_cached, looked, found) (on_hit c' (touch uid os) o fits' found)
      ]

module _ {Db : Type 0} (r : Interface Db) (laws : ReadLaws r) (capacity : ℕ) (ctx : Ctx)
    (s : App Db) (os : List Order) (fits : Fits capacity s.cache os) where
  -- `GetUserOrderByUIDHandle`, for a request that has passed `JWTAuth` with a text for a username,
  -- replies once: with an order of that user which has the UID of the request, or with an error.
  -- It leaves the database alone and the cache sound and within its capacity.
  pub get_user_order_by_uid_handle-owned :
      (id : Claim) (name : String)
      → lookup "user_id" ctx.values ≡ some id
      → lookup "username" ctx.values ≡ some (str name)
      → IsAnswered capacity api
          (λ o. (o.customer_id ≡ name) × (o.order_uid ≡ ctx.uid))
          s.db
          (get_user_order_by_uid_handle r ctx s)
  unfolding get_user_order_by_uid_handle stored_for
  get_user_order_by_uid_handle-owned id name user_id username =
      let P : Order → Type 0 = λ o. (o.customer_id ≡ name) × (o.order_uid ≡ ctx.uid) in
      elim (Bool-cases (str_eq ctx.uid "")) [
        | inl no_uid ↦
            rw (get_user_order_by_uid_handle, user_id, username, no_uid)
              (failed_reply r capacity api P s os fits 400 "No UID received")
        | inr given ↦
            rw (get_user_order_by_uid_handle, user_id, username, given)
              (with_cached-IsAnswered r capacity api P s os fits ctx.uid
                (cached_for r api (some (str name)))
                (stored_for r api "Failed to find order" (some (str name)) ctx.uid)
                (λ c os' o fits' found.
                  cached_for-IsAnswered r capacity api P (record s { cache = c }) os' fits' name o
                    (λ owned. (owned, find-uid ctx.uid os o found)))
                (λ c os' fits' none_found.
                  answer-IsAnswered r capacity api P (record s { cache = c }) os' fits'
                    "Failed to find order" (r.get_order_by_uid_and_user ctx.uid name s.db)
                    (λ o e. laws.user_lem ctx.uid name s.db o e)))
      ]

  -- `GetOrderByUIDHandle`, for a request that has passed `JWTAuth`, replies once: with an order that
  -- has the UID of the request, or with an error. It leaves the database alone and the cache sound
  -- and within its capacity.
  pub get_order_by_uid_handle-uid :
      (id : Claim)
      → lookup "user_id" ctx.values ≡ some id
      → IsAnswered capacity api (λ o. o.order_uid ≡ ctx.uid) s.db (get_order_by_uid_handle r ctx s)
  unfolding get_order_by_uid_handle
  get_order_by_uid_handle-uid id user_id =
      let P : Order → Type 0 = λ o. o.order_uid ≡ ctx.uid in
      elim (Bool-cases (str_eq ctx.uid "")) [
        | inl no_uid ↦
            rw (get_order_by_uid_handle, user_id, no_uid)
              (failed_reply r capacity api P s os fits 400 "No UID received")
        | inr given ↦
            rw (get_order_by_uid_handle, user_id, given)
              (with_cached-IsAnswered r capacity api P s os fits ctx.uid
                (λ o. reply (json 200 (order o)))
                (λ s'. answer r api "Failed to find order" (r.get_order_by_uid ctx.uid s'.db) s')
                (λ c os' o fits' found.
                  order_reply r capacity api P (record s { cache = c }) os' fits' o
                    (find-uid ctx.uid os o found))
                (λ c os' fits' none_found.
                  answer-IsAnswered r capacity api P (record s { cache = c }) os' fits'
                    "Failed to find order" (r.get_order_by_uid ctx.uid s.db)
                    (λ o e. laws.uid_lem ctx.uid s.db o e)))
      ]
