-- ===== src/Coherence/Lookup.antt =====
-- What a lookup of an order leaves: `with_cached` and the answers of internal/handler/handler.go, over
-- any repository and any property of the orders.
use gorder.Prelude.{
  ℕ, String, ◌≡◌, refl, ap, Option, some, List, [], ◌∷◌, arith, All, Option-cases, Bool-cases, inl,
  inr, subst, str_eq, string_discrete,
}
use gorder.Prelude.Result.{Result, ok, err}
use gorder.Models.{Order}
use gorder.Http.{Claim, order, Outcome, reply, state_of}
use gorder.Cache.{Cache}
use gorder.Cache.Lru.{find, touch, put, drop_key}
use gorder.Cache.Trace.{Fits, get-Fits, set-Fits}
use gorder.Repository.Errors.{RepoError, is_no_rows}
use gorder.Repository.Interface.{Interface}
use gorder.Handler.Orders.{
  App, View, as_string, with_cached, cache_and_reply, answer, cached_for, stored_for,
}
use gorder.Consumer.Coherence.{All-take, All-drop_key}

module _ (Q : Order → Type 0) where
  pub All-find : (k : String) (os : List Order) (o : Order) → All Q os → find k os ≡ some o → Q o
  unfolding find
  All-find k [] o _ e = absurd (ground arith)
  All-find k (x ∷ os) o (h, hs) e = elim (string_discrete x.order_uid k) [
    | yes p ↦ let same : x ≡ o = ground arith in subst Q same h
    | no n ↦ let rest : find k os ≡ some o = ground arith in All-find k os o hs rest
  ]

  pub All-touch : (k : String) (os : List Order) → All Q os → All Q (touch k os)
  unfolding touch
  All-touch k os h = elim (Option-cases (find k os)) [
    | inl miss ↦ rw (touch, miss) h
    | inr (o, hit) ↦ rw (touch, hit) (All-find k os o h hit, All-drop_key Q k os h)
  ]

  pub All-put :
      (capacity : ℕ) (o : Order) (os : List Order) → Q o → All Q os → All Q (put capacity o os)
  unfolding put
  All-put capacity o os q h =
      All-take Q capacity (o ∷ drop_key o.order_uid os) (q, All-drop_key Q o.order_uid os h)

module _ {Db : Type 0} (r : Interface Db) (capacity : ℕ) (Q : Order → Type 0) where
  -- The database is as it was, and each order in the cache has the property.
  pub record Keeps (db : Db) (out : Outcome (App Db)) : Type 0 where
    pub cache : Cache
    pub orders : List Order
    pub left : state_of out ≡ record { db = db; cache = cache }
    pub fits : Fits capacity cache orders
    pub kept : All Q orders

  module _ (s : App Db) (os : List Order) (fits : Fits capacity s.cache os) (all : All Q os) where
    pub unchanged : (out : Outcome (App Db)) → state_of out ≡ s → Keeps s.db out
    unchanged out e = record { cache = s.cache; orders = os; left = e; fits = fits; kept = all }

    pub answer-Keeps :
        (view : View) (missing : String) (result : Result RepoError Order)
        → ((o : Order) → result ≡ ok o → Q o)
        → Keeps s.db (answer r view missing result s)
    unfolding answer
    answer-Keeps view missing (ok o) q =
        let (c, put_in, fits') = set-Fits capacity fits o in
        let ran : answer r view missing (ok o) s
            ≡ reply (view.success (order o)) (record s { cache = c }) =
          rw (answer, cache_and_reply, put_in) in
        record {
          cache = c;
          orders = put capacity o os;
          left = ap state_of ran;
          fits = fits';
          kept = All-put Q capacity o os (q o refl) all;
        }
    answer-Keeps view missing (err e) q = elim (Bool-cases (is_no_rows e)) [
      | inl p ↦ unchanged _ (rw (answer, p))
      | inr p ↦ unchanged _ (rw (answer, p))
    ]

    -- whatever the claim is: another one than a text panics
    pub cached_for-Keeps :
        (view : View) (username : Option Claim) (o : Order)
        → Keeps s.db (cached_for r view username o s)
    unfolding cached_for
    cached_for-Keeps view username o = elim (Option-cases (as_string username)) [
      | inl e ↦ unchanged _ (rw (cached_for, e))
      | inr (name, e) ↦ elim (Bool-cases (str_eq o.customer_id name)) [
        | inl p ↦ unchanged _ (rw (cached_for, e, p))
        | inr p ↦ unchanged _ (rw (cached_for, e, p))
      ]
    ]

    pub stored_for-Keeps :
        (view : View) (missing : String) (username : Option Claim) (uid : String)
        → ((name : String) (o : Order) → r.get_order_by_uid_and_user uid name s.db ≡ ok o → Q o)
        → Keeps s.db (stored_for r view missing username uid s)
    unfolding stored_for
    stored_for-Keeps view missing username uid q = elim (Option-cases (as_string username)) [
      | inl e ↦ unchanged _ (rw (stored_for, e))
      | inr (name, e) ↦
          rw (stored_for, e)
            (answer-Keeps view missing (r.get_order_by_uid_and_user uid name s.db) (q name))
    ]

    pub with_cached-Keeps :
        (uid : String) (hit : Order → App Db → Outcome (App Db)) (miss : App Db → Outcome (App Db))
        → ((c : Cache) (os' : List Order) (o : Order)
            → Fits capacity c os'
            → All Q os'
            → Keeps s.db (hit o (record s { cache = c })))
        → ((c : Cache) (os' : List Order)
            → Fits capacity c os'
            → All Q os'
            → Keeps s.db (miss (record s { cache = c })))
        → Keeps s.db (with_cached r uid s hit miss)
    with_cached-Keeps uid hit miss on_hit on_miss =
        let (c, looked, fits') = get-Fits capacity fits uid in
        let all' = All-touch Q uid os all in
        elim (Option-cases (find uid os)) [
          | inl p ↦ rw (with_cached, looked, p) (on_miss c (touch uid os) fits' all')
          | inr (o, p) ↦ rw (with_cached, looked, p) (on_hit c (touch uid os) o fits' all')
        ]
